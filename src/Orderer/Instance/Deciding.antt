-- ===== src/Orderer/Instance/Deciding.antt =====
-- When a segment has its final digests: counting the checkpoint messages of orderer/pbftinstance.go.
use mathlib.Core.Path.{fun_ext}
use orthrus.Orderer.Agreement.{
  Agreement, nodes_with, append_node, save_digests, ready, handle_pbft_checkpoint,
  handle_checkpoints, no_agreement,
}
use orthrus.Prelude.{
  ℕ, suc, ◌+◌, ◌==◌, ◌≡◌, ◌≤◌, ◌<◌, refl, sym, subst, inl, inr, Bool, true, false, if◌then◌else◌,
  Option, none, some, List, [], ◌∷◌, ◌++◌, All, arith, length, lookup, insert, same_bytes,
  same_bytes_refl, same_bytes-eq, Bool-cases,
}

same_bytes-trans_false :
    (d x y : List ℕ) → same_bytes d x ≡ true → same_bytes x y ≡ false → same_bytes d y ≡ false
same_bytes-trans_false d x y h k = subst (λ z. same_bytes z y ≡ false) (sym (same_bytes-eq d x h)) k

not_both :
    (d x y : List ℕ) → same_bytes d x ≡ false → same_bytes d y ≡ true → same_bytes x y ≡ false
not_both d x y e g = elim (Bool-cases (same_bytes x y)) [
  | inr f ↦ f
  | inl f ↦
      let h : same_bytes d x ≡ true =
        subst (λ z. same_bytes d z ≡ true) (sym (same_bytes-eq x y f)) g in
      absurd (ground (arith, e, h))
]

length-snoc : (xs : List ℕ) (x : ℕ) → length (xs ++ x ∷ []) ≡ suc (length xs)
length-snoc [] x = refl
length-snoc (y ∷ ys) x = ground (arith, length-snoc ys x)

-- A message is one more node for its digest string, and for no other.
length-nodes_with :
    (x y : List ℕ) (sender_id : ℕ) (m : List (List ℕ × List ℕ))
    → length (nodes_with y (append_node x sender_id m))
      ≡ length (nodes_with y m) + (if same_bytes x y then 1 else 0)
unfolding nodes_with append_node
length-nodes_with x y s [] = elim (Bool-cases (same_bytes x y)) [
  | inl e ↦ rw (e, append_node, nodes_with) refl
  | inr e ↦ rw (e, append_node, nodes_with) refl
]
length-nodes_with x y s ((d, nodes) ∷ rest) = elim (Bool-cases (same_bytes d x)) [
  | inl e ↦ elim (Bool-cases (same_bytes x y)) [
    | inl f ↦
        let g : same_bytes d y ≡ true =
          subst (λ z. same_bytes z y ≡ true) (sym (same_bytes-eq d x e)) f in
        rw (e, f, g, append_node, nodes_with) (ground (arith, length-snoc nodes s))
    | inr f ↦ rw (e, f, same_bytes-trans_false d x y e f, append_node, nodes_with) (omega arith)
  ]
  | inr e ↦ elim (Bool-cases (same_bytes d y)) [
    | inl g ↦ rw (e, g, append_node, nodes_with) (rw (not_both d x y e g) (omega arith))
    | inr g ↦ rw (e, g, append_node, nodes_with) (length-nodes_with x y s rest)
  ]
]

pub save_digests-some :
    (sns : List ℕ) (digests : List (List ℕ)) (saved : List (ℕ × List ℕ))
    → length sns ≤ length digests
    → (finals : List (ℕ × List ℕ)) × (save_digests sns digests saved ≡ some finals)
unfolding save_digests
save_digests-some [] digests saved h = (saved, refl)
save_digests-some (sn ∷ sns) [] saved h = absurd (ground (arith, h))
save_digests-some (sn ∷ sns) (d ∷ digests) saved h =
    save_digests-some sns digests (insert sn d saved) (omega arith)

-- The messages with a digest string.
abbrev pub votes : (List (List ℕ) → List ℕ) → List ℕ → List (ℕ × List (List ℕ)) → ℕ
votes hash digest [] = 0
votes hash digest ((sender_id, digests) ∷ ms) =
    (if same_bytes (hash digests) digest then 1 else 0) + votes hash digest ms

module _ (hash : List (List ℕ) → List ℕ) (quorum : ℕ) (sns : List ℕ) where
  -- No digest string has a quorum of messages; or the digests are those of a message whose string has.
  abbrev pub Decided : (List ℕ → ℕ) → Option (List (ℕ × List ℕ)) → Type 0
  Decided seen none = (digest : List ℕ) → seen digest < quorum
  Decided seen (some finals) =
      (digests : List (List ℕ)) × (save_digests sns digests [] ≡ some finals)
      × (quorum ≤ seen (hash digests))

  record Counted (seen : List ℕ → ℕ) (a : Agreement) : Type 0 where
    silent : (sender_id : ℕ) → lookup sender_id a.checkpoint_msgs ≡ none
    counted : (digest : List ℕ) → length (nodes_with digest a.checkpoint_digests) ≡ seen digest
    decided : Decided seen a.final_digests

  -- The count with one more message.
  abbrev more : (List ℕ → ℕ) → List ℕ → List ℕ → ℕ
  more seen x d = seen d + (if same_bytes x d then 1 else 0)

  more-Decided :
      (seen : List ℕ → ℕ) (x : List ℕ) (o : Option (List (ℕ × List ℕ)))
      → (more seen x x == quorum) ≡ false
      → Decided seen o
      → Decided (more seen x) o
  more-Decided seen x none h k = λ d. elim (Bool-cases (same_bytes x d)) [
    | inr e ↦ rw e (omega (arith, k d))
    | inl e ↦
        subst (λ z. more seen x z < quorum) (same_bytes-eq x d e)
          (rw (same_bytes_refl x) (ground (arith, k x, h, same_bytes_refl x)))
  ]
  more-Decided seen x (some finals) h (digests, saved, enough) =
      (digests, saved, omega (arith, enough))

  handle-Counted :
      (seen : List ℕ → ℕ) (digests : List (List ℕ)) (sender_id : ℕ) (a : Agreement)
      → length sns ≤ length digests
      → Counted seen a
      → (later : Agreement) × (handle_pbft_checkpoint hash quorum sns digests sender_id a
          ≡ some later)
        × Counted (more seen (hash digests)) later
  unfolding handle_pbft_checkpoint ready
  handle-Counted seen digests sender_id a long c =
      let x = hash digests in
      let m = append_node x sender_id a.checkpoint_digests in
      let counts : (d : List ℕ) → length (nodes_with d m) ≡ more seen x d =
        λ d. rw (length-nodes_with x d sender_id a.checkpoint_digests, c.counted d) refl in
      let saved = save_digests-some sns digests [] long in
      elim (Bool-cases (length (nodes_with x m) == quorum)) [
        | inl e ↦
            rw (c.silent sender_id, e, saved.1, handle_pbft_checkpoint)
              (
                _,
                refl,
                record {
                  silent = c.silent;
                  counted = counts;
                  decided = (digests, saved.1, ground (arith, e, counts x));
                },
              )
        | inr e ↦
            rw (c.silent sender_id, e, handle_pbft_checkpoint)
              (
                _,
                refl,
                record {
                  silent = c.silent;
                  counted = counts;
                  decided = more-Decided seen x a.final_digests (rw (sym (counts x)) e) c.decided;
                },
              )
      ]

  handle_checkpoints-Counted :
      (seen : List ℕ → ℕ) (ms : List (ℕ × List (List ℕ))) (a : Agreement)
      → All (λ m. length sns ≤ length m.1) ms
      → Counted seen a
      → (later : Agreement) × (handle_checkpoints hash quorum sns ms a ≡ some later)
        × Counted (λ d. seen d + votes hash d ms) later
  unfolding handle_checkpoints
  handle_checkpoints-Counted seen [] a long c =
      let same : seen ≡ (λ d. seen d + 0) = fun_ext (λ d. omega arith) in
      (a, refl, subst (λ f. Counted f a) same c)
  handle_checkpoints-Counted seen ((sender_id, digests) ∷ ms) a (enough, long) c =
      let x = hash digests in
      let (b, returned, now) = handle-Counted seen digests sender_id a enough c in
      let (later, done, counted) = handle_checkpoints-Counted (more seen x) ms b long now in
      let same : (λ d. more seen x d + votes hash d ms)
          ≡ (λ d. seen d + votes hash d ((sender_id, digests) ∷ ms)) =
        fun_ext (λ d. omega arith) in
      rw (returned, handle_checkpoints) (later, done, subst (λ f. Counted f later) same counted)

  -- With a quorum above 0, from the state that `init` makes: the handler of the checkpoint messages returns
  -- for all messages that have a digest for each sequence number of the segment, whoever sent them. As long as
  -- no digest string has Quorum() messages, there are no final digests; and once there are, they are
  -- the digests of a list whose digest string Quorum() messages have.
  pub handle_checkpoints-Decided :
      (timer : Bool) (ms : List (ℕ × List (List ℕ)))
      → 0 < quorum
      → All (λ m. length sns ≤ length m.1) ms
      → (later : Agreement) × (handle_checkpoints hash quorum sns ms (no_agreement timer)
          ≡ some later)
        × Decided (λ d. votes hash d ms) later.final_digests
  unfolding no_agreement nodes_with
  handle_checkpoints-Decided timer ms positive long =
      let (later, done, c) =
        handle_checkpoints-Counted (λ d. 0) ms (no_agreement timer) long
          (record { silent = λ s. refl; counted = λ d. refl; decided = λ d. positive }) in
      let same : (λ d. 0 + votes hash d ms) ≡ (λ d. votes hash d ms) = fun_ext (λ d. omega arith) in
      (later, done, subst (λ f. Decided f later.final_digests) same c.decided)
