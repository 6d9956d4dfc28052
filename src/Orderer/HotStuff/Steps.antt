-- ===== src/Orderer/HotStuff/Steps.antt =====
-- What a step of a HotStuff instance may change: it may vote, at a height above those before, and raise the
-- height of the last vote.
use orthrus.Orderer.HotStuff.{qc_height, Externals, HotStuffInstance}
use orthrus.Orderer.HotStuff.Quiet.{Quiet, Linked, NoNewViews, place, votes_sent}
use orthrus.Prelude.{
  ℕ, ◌≡◌, ◌≤◌, ◌<◌, ◌∙◌, sym, ap, subst, inl, inr, true, some, List, [], ◌∷◌, ◌++◌, arith,
  get_elem?, get_elem?-lt, get_elem?-snoc,
}

-- The heights that have been voted for go up, to that of the last vote at most.
pub record VotesRise {R : Type 0} (ext : Externals) (hi : HotStuffInstance R) : Type 0 where
  pub rise :
      (i j a b : ℕ)
      → get_elem? (votes_sent ext hi.calls) i ≡ some a
      → get_elem? (votes_sent ext hi.calls) j ≡ some b
      → i < j
      → place a < place b
  pub voted :
      (i a : ℕ) → get_elem? (votes_sent ext hi.calls) i ≡ some a → place a ≤ place hi.vheight

pub record Step {R : Type 0} (ext : Externals) (hi h : HotStuffInstance R) : Type 0 where
  pub grows : hi.fresh ≤ h.fresh
  pub stays : (a : ℕ) → a < hi.fresh → (hi.heap a).announced ≡ true → (h.heap a).announced ≡ true
  pub high : place (qc_height hi.high_qc) ≤ place (qc_height h.high_qc)
  pub lock : place (hi.heap hi.locked).height ≤ place (h.heap h.locked).height
  pub vheight : place hi.vheight ≤ place h.vheight
  pub no_views : NoNewViews hi → NoNewViews h
  pub linked : Linked h
  pub votes : VotesRise ext hi → VotesRise ext h

-- Heights that go up, with one more that is above them.
pub risen :
    (xs : List ℕ) (x : ℕ)
    → ((i a : ℕ) → get_elem? xs i ≡ some a → place a < place x)
    → ((i j a b : ℕ)
        → get_elem? xs i ≡ some a
        → get_elem? xs j ≡ some b
        → i < j
        → place a < place b)
    → (i j a b : ℕ) → get_elem? (xs ++ x ∷ []) i ≡ some a
    → get_elem? (xs ++ x ∷ []) j ≡ some b
    → i < j
    → place a < place b
risen xs x above rise i j a b p q lt = elim (get_elem?-snoc xs x i a p) [
  | inl old ↦ elim (get_elem?-snoc xs x j b q) [
    | inl later ↦ rise i j a b old later lt
    | inr new ↦ subst (λ n. place a < place n) (sym new.0) (above i a old)
  ]
  | inr new ↦ elim (get_elem?-snoc xs x j b q) [
    | inl later ↦ omega (arith, get_elem?-lt j b xs later, new.1)
    | inr last ↦ omega (arith, last.1, new.1)
  ]
]

module _ {R : Type 0} {ext : Externals} where
  pub Step_refl : {hi : HotStuffInstance R} → Linked hi → Step ext hi hi
  Step_refl l = record {
    grows = omega arith;
    stays = λ a b t. t;
    high = omega arith;
    lock = omega arith;
    vheight = omega arith;
    no_views = λ n. n;
    linked = l;
    votes = λ v. v;
  }

  pub Step_trans : {a b c : HotStuffInstance R} → Step ext a b → Step ext b c → Step ext a c
  Step_trans p q = record {
    grows = omega (arith, p.grows, q.grows);
    stays = λ a l t. q.stays a (omega (arith, p.grows)) (p.stays a l t);
    high = omega (arith, p.high, q.high);
    lock = omega (arith, p.lock, q.lock);
    vheight = omega (arith, p.vheight, q.vheight);
    no_views = λ n. q.no_views (p.no_views n);
    linked = q.linked;
    votes = λ v. q.votes (p.votes v);
  }

  -- The heights of the votes that are sent, in a state with the same ones.
  pub same-VotesRise :
      {hi h : HotStuffInstance R}
      → votes_sent ext h.calls ≡ votes_sent ext hi.calls
      → place hi.vheight ≤ place h.vheight
      → VotesRise ext hi
      → VotesRise ext h
  same-VotesRise e le v = record {
    rise = λ i j a b p q.
        v.rise i j a b (ap (λ xs. get_elem? xs i) (sym e) ∙ p)
          (ap (λ xs. get_elem? xs j) (sym e) ∙ q);
    voted = λ i a p. omega (arith, le, v.voted i a (ap (λ xs. get_elem? xs i) (sym e) ∙ p));
  }

  pub Quiet-Step : {hi h : HotStuffInstance R} → Quiet ext hi h → Step ext hi h
  Quiet-Step q = record {
    grows = q.grows;
    stays = q.stays;
    high = q.high;
    lock = q.lock;
    vheight = omega (arith, ap place q.same_vheight);
    no_views = q.no_views;
    linked = q.linked;
    votes = same-VotesRise q.same_votes (omega (arith, ap place q.same_vheight));
  }
