-- ===== src/Log/Delivery.antt =====
-- What an in-order channel of the log holds: the entries with a batch, one for each sequence
-- number from the subscription on, in ascending order.
use mathlib.Core.List.{append-nil}
use orthrus.Prelude.{
  ℕ, zero, suc, ◌+◌, ◌-◌, ◌≤◌, ◌≡◌, refl, sym, ap, ◌∙◌, inl, inr, Option, none, some, List, [], ◌∷◌,
  ◌++◌, lookup, insert, lookup-insert, All, arith, Option-cases,
}
use orthrus.Log.{Entry, publish_entry, publish_in_order}

-- An entry goes to the in-order subscribers if it has a batch.
abbrev pub deliverable : Option Entry → List Entry
deliverable none = []
deliverable (some e) = elim e.batch [ none ↦ [] | some b ↦ e ∷ [] ]

-- The deliverable entries among the `n` sequence numbers from `p` on.
unfoldable pub delivered : List (ℕ × Entry) → ℕ → ℕ → List Entry
delivered es p zero = []
delivered es p (suc n) = delivered es p n ++ deliverable (lookup (p + n) es)

-- The channel holds what was committed from some earlier position up to `first`.
abbrev pub UpTo : List (ℕ × Entry) → ℕ → List Entry → Type 0
UpTo es first c = (p : ℕ) × (p ≤ first) × (c ≡ delivered es p (first - p))

pub delivered_next :
    (es : List (ℕ × Entry)) (p first : ℕ)
    → p ≤ first
    → delivered es p (suc first - p) ≡ delivered es p (first - p) ++ deliverable (lookup first es)
unfolding delivered
delivered_next es p first h =
    let e : suc first - p ≡ suc (first - p) = omega arith in
    let e' : p + (first - p) ≡ first = omega arith in rw (e, delivered) (rw e')

-- An entry stored past the end changes nothing.
pub delivered-insert :
    (es : List (ℕ × Entry)) (k : ℕ) (e : Entry) (p n : ℕ)
    → p + n ≤ k
    → delivered (insert k e es) p n ≡ delivered es p n
unfolding delivered
delivered-insert es k e p zero h = refl
delivered-insert es k e p (suc n) h =
    let other : lookup (p + n) (insert k e es) ≡ lookup (p + n) es =
      ground (arith, lookup-insert k (p + n) e es) in
    rw (delivered-insert es k e p n (omega arith), other)

pub UpTo-insert :
    (es : List (ℕ × Entry)) (k : ℕ) (e : Entry) (first : ℕ) (cs : List (List Entry))
    → first ≤ k
    → All (UpTo es first) cs
    → All (UpTo (insert k e es) first) cs
UpTo-insert es k e first [] h a = tt
UpTo-insert es k e first (c ∷ cs) h ((p, le, eq), a) = (
  (p, le, eq ∙ sym (delivered-insert es k e p (first - p) (omega arith))),
  UpTo-insert es k e first cs h a,
)

UpTo-skip :
    (es : List (ℕ × Entry)) (e : Entry) (first : ℕ) (cs : List (List Entry))
    → deliverable (lookup first es) ≡ []
    → All (UpTo es first) cs
    → All (UpTo es (suc first)) cs
UpTo-skip es e first [] d a = tt
UpTo-skip es e first (c ∷ cs) d ((p, le, eq), a) = (
  (p, omega arith, rw (delivered_next es p first le, d) (eq ∙ sym (append-nil _))),
  UpTo-skip es e first cs d a,
)

UpTo-push :
    (es : List (ℕ × Entry)) (e : Entry) (first : ℕ) (cs : List (List Entry))
    → deliverable (lookup first es) ≡ e ∷ []
    → All (UpTo es first) cs
    → All (UpTo es (suc first)) (publish_entry e cs)
unfolding publish_entry
UpTo-push es e first [] d a = tt
UpTo-push es e first (c ∷ cs) d ((p, le, eq), a) = (
  (p, omega arith, rw (delivered_next es p first le, d) (ap (λ l. l ++ e ∷ []) eq)),
  UpTo-push es e first cs d a,
)

-- A round of the loop extends every channel by the entry at `first`, if it has a batch.
pub UpTo-publish :
    (es : List (ℕ × Entry)) (e : Entry) (first : ℕ) (cs : List (List Entry))
    → lookup first es ≡ some e
    → All (UpTo es first) cs
    → All (UpTo es (suc first)) (publish_in_order e cs)
unfolding publish_in_order
UpTo-publish es e first cs at_first a = elim (Option-cases e.batch) [
  | inl q ↦ rw (q, publish_in_order) (UpTo-skip es e first cs (simp (at_first, q)) a)
  | inr (b, q) ↦ rw (q, publish_in_order) (UpTo-push es e first cs (simp (at_first, q)) a)
]

-- A new channel is empty: it starts at the current position.
pub UpTo-subscribe :
    (es : List (ℕ × Entry)) (first : ℕ) (cs : List (List Entry))
    → All (UpTo es first) cs
    → All (UpTo es first) (cs ++ [] ∷ [])
unfolding delivered
UpTo-subscribe es first [] a =
    let e : first - first ≡ 0 = omega arith in ((first, omega arith, rw e), tt)
UpTo-subscribe es first (c ∷ cs) a = (a.0, UpTo-subscribe es first cs a.1)
