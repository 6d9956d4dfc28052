-- ===== src/Util/Lossless.antt =====
-- A buffer without a capacity loses nothing, and one with a capacity never exceeds it.
use mathlib.Core.List.{append_assoc}
use orthrus.Prelude.{
  ap, ◌∙◌, ℕ, ◌+◌, ◌≡◌, ◌≤◌, ◌<◌, refl, Bool, true, false, if◌then◌else◌, Option, none, some, List,
  [], ◌∷◌, ◌++◌, arith, length, leb,
}
use orthrus.Util.{ChannelBuffer, take_in, process_input}

-- The items of a run.
abbrev pub items_of {ℓ} : {A : Type ℓ} → List (Option A) → List A
items_of [] = []
items_of (some item ∷ rest) = item ∷ items_of rest
items_of (none ∷ rest) = items_of rest

abbrev pub concat {ℓ} : {A : Type ℓ} → List (List A) → List A
concat [] = []
concat (out ∷ rest) = out ++ concat rest

-- Whether each output has at most as many items as the capacity.
abbrev pub within {ℓ} : {A : Type ℓ} → ℕ → List (List A) → Bool
within capacity [] = true
within capacity (out ∷ rest) = if leb (length out) capacity then within capacity rest else false

length-snoc {ℓ} : {A : Type ℓ} (xs : List A) (x : A) → length (xs ++ x ∷ []) ≡ length xs + 1
length-snoc [] x = refl
length-snoc (y ∷ xs) x = omega (arith, length-snoc xs x)

-- Without a capacity, what the calls of Get and Close return is, in order, what the buffer held and
-- all items that were added.
pub concat-process_input {ℓ} :
    {A : Type ℓ} (held : List A) (items : List (Option A))
    → concat (process_input (record { capacity = 0; buffer = held }) items) ≡ held ++ items_of items
unfolding process_input take_in
concat-process_input held [] = refl
concat-process_input held (some item ∷ items) =
    concat-process_input (held ++ item ∷ []) items ∙ append_assoc held (item ∷ []) (items_of items)
concat-process_input held (none ∷ items) = ap (λ rest. held ++ rest) (concat-process_input [] items)

length-take_in {ℓ} :
    {A : Type ℓ} (cb : ChannelBuffer A) (item : A)
    → 0 < cb.capacity
    → length cb.buffer ≤ cb.capacity
    → (length (take_in cb item).buffer ≤ cb.capacity) × ((take_in cb item).capacity ≡ cb.capacity)
unfolding take_in
length-take_in cb item p h = (ground (arith, length-snoc cb.buffer item), ground arith)

-- With a capacity, no call returns more items than it.
pub within-process_input {ℓ} :
    {A : Type ℓ} (cb : ChannelBuffer A) (items : List (Option A))
    → 0 < cb.capacity
    → length cb.buffer ≤ cb.capacity
    → within cb.capacity (process_input cb items) ≡ true
unfolding process_input take_in
within-process_input cb [] p h = ground arith
within-process_input cb (some item ∷ items) p h =
    let (short, same) = length-take_in cb item p h in
    rw same at (
      within-process_input (take_in cb item) items (omega (arith, same))
        (omega (arith, short, same)))
within-process_input cb (none ∷ items) p h =
    ground (arith, within-process_input (record cb { buffer = [] }) items p (omega arith))
