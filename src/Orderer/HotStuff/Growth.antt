-- ===== src/Orderer/HotStuff/Growth.antt =====
-- The operations on the nodes of a HotStuff instance are quiet: the log grows, and what it holds stays.
use orthrus.Request.Requests.{Requests}
use orthrus.Orderer.HotStuff.{NodeMsg, Qc, HotStuffNode, Call, Externals, HotStuffInstance, write}
use orthrus.Orderer.HotStuff.Tree.{
  allocate, new_node, placeholder, pad, set_view_change_timer, set_at, place_node, add_node,
}
use orthrus.Orderer.HotStuff.Quiet.{
  Quiet, Quiet-refl, Quiet-trans, Linked, frame-Quiet, call-Quiet, write-Quiet, place,
}
use orthrus.Prelude.{
  ℕ, zero, suc, ◌+◌, ◌-◌, ◌==◌, ◌≡◌, ◌≤◌, ◌<◌, ◌⊎◌, ◌∙◌, refl, sym, ap, subst, inl, inr, Bool, true,
  false, not, if◌then◌else◌, Option, none, some, List, [], ◌∷◌, ◌++◌, arith, length, get_elem?,
  get_elem?-snoc, the_same, nothing_there, lt32, le32, Bool-cases, Holds, ok-Holds, deref-Holds,
}

distinct_from : (a b : ℕ) → a < b → (a == b) ≡ false
distinct_from a b h = ground arith

pub higher : (a b : ℕ) → lt32 a b ≡ true → place a ≤ place b
unfolding lt32
higher a b h = ground arith

pub not-false : {b : Bool} → not b ≡ false → b ≡ true
not-false {b = true} h = refl
not-false {b = false} h = sym h

older : (a b : ℕ) → a < b + 1 → (a == b) ≡ false → a < b
older a b h e = ground arith

old_node :
    (a at : ℕ) (node : HotStuffNode) (heap : ℕ → HotStuffNode)
    → a < at
    → (if a == at then node else heap a) ≡ heap a
old_node a at node heap h = rw (distinct_from a at h) refl

module _ {R : Type 0} (requests : Requests R) (ext : Externals) where
  get_elem?-set_at :
      (i new : ℕ) (xs : List ℕ) (k a : ℕ)
      → get_elem? (set_at requests ext i new xs) k ≡ some a
      → (get_elem? xs k ≡ some a) ⊎ (a ≡ new)
  unfolding set_at
  get_elem?-set_at i new [] k a h = inl h
  get_elem?-set_at zero new (y ∷ xs) zero a h = inr (the_same h)
  get_elem?-set_at zero new (y ∷ xs) (suc k) a h = inl h
  get_elem?-set_at (suc i) new (y ∷ xs) zero a h = inl h
  get_elem?-set_at (suc i) new (y ∷ xs) (suc k) a h = get_elem?-set_at i new xs k a h

  allocate-Quiet :
      (node : HotStuffNode) {hi : HotStuffInstance R}
      → ((p : ℕ) → node.parent ≡ some p → p < hi.fresh)
      → Linked hi
      → Quiet ext hi (allocate requests ext node hi).0
  unfolding allocate write
  allocate-Quiet node {hi} parent l = record {
    grows = omega arith;
    same_height = λ a b. ap (λ n. n.height) (old_node a hi.fresh node hi.heap b);
    stays = λ a b m. ap (λ n. n.announced) (old_node a hi.fresh node hi.heap b) ∙ m;
    high = omega arith;
    no_views = λ n. n;
    linked = record {
      nodes_in = λ k a e. omega (arith, l.nodes_in k a e);
      parents_in = λ a p b e. elim (Bool-cases (a == hi.fresh)) [
        | inl q ↦
            omega (arith, parent p (sym (ap (λ t. (if t then node else hi.heap a).parent) q) ∙ e))
        | inr q ↦ omega (
          arith,
          l.parents_in a p (older a hi.fresh b q)
              (sym (ap (λ t. (if t then node else hi.heap a).parent) q) ∙ e),
        )
      ];
      leaf_in = omega (arith, l.leaf_in);
      locked_in = omega (arith, l.locked_in);
    };
    same_vheight = refl;
    same_votes = refl;
    lock =
        omega
          (arith, ap (λ n. place n.height) (old_node hi.locked hi.fresh node hi.heap l.locked_in));
  }

  -- The log with one more node, which has been allocated.
  appended-Quiet :
      (at : ℕ) {hi : HotStuffInstance R}
      → at < hi.fresh
      → Linked hi
      → Quiet ext hi (record hi { nodes = hi.nodes ++ at ∷ [] })
  appended-Quiet at {hi} lt l = frame-Quiet refl (record {
    nodes_in = λ k a e. elim (get_elem?-snoc hi.nodes at k a e) [
      | inl old ↦ l.nodes_in k a old
      | inr new ↦ omega (arith, new.0)
    ];
    parents_in = l.parents_in;
    leaf_in = l.leaf_in;
    locked_in = l.locked_in;
  })

  pad-Quiet :
      (rounds : ℕ) {hi : HotStuffInstance R} → Linked hi → Quiet ext hi (pad requests ext rounds hi)
  unfolding pad allocate placeholder write
  pad-Quiet zero l = Quiet-refl l
  pad-Quiet (suc rounds) {hi} l =
      let made =
        allocate-Quiet (placeholder requests ext (length hi.nodes))
          (λ p e. elim (nothing_there e) [ ]) l in
      let appended = appended-Quiet hi.fresh (omega arith) made.linked in
      Quiet-trans (Quiet-trans made appended) (pad-Quiet rounds appended.linked)

  set_view_change_timer-Quiet :
      (at : ℕ) {hi : HotStuffInstance R}
      → Linked hi
      → Quiet ext hi (set_view_change_timer requests ext at hi)
  unfolding set_view_change_timer
  set_view_change_timer-Quiet at {hi} l = elim (Bool-cases (hi.heap at).view_change_timer) [
    | inl t ↦ rw (t, set_view_change_timer) (Quiet-refl l)
    | inr t ↦
        let written =
          write-Quiet at (record (hi.heap at) { view_change_timer = true }) hi refl refl (λ m. m)
            l in
        rw (t, set_view_change_timer)
          (Quiet-trans written
            (call-Quiet (Call.start_timer (hi.heap at).sn hi.view) refl written.linked))
  ]

  pub new_node-Quiet :
      (parent : ℕ) (batch : List ℕ) (certificate : Qc) (sn height leader : ℕ)
      {hi : HotStuffInstance R}
      → parent < hi.fresh
      → Linked hi
      → Quiet ext hi (new_node requests ext parent batch certificate sn height leader hi).0
  unfolding new_node
  new_node-Quiet parent batch certificate sn height leader {hi} h l =
      allocate-Quiet _ (λ p e. subst (λ q. q < hi.fresh) (sym (the_same e)) h) l

  -- The log with one node replaced by another that has been allocated.
  placed-Quiet :
      (height at : ℕ) {hi : HotStuffInstance R}
      → at < hi.fresh
      → Linked hi
      → Quiet ext hi (record hi { nodes = set_at requests ext height at hi.nodes })
  placed-Quiet height at {hi} h l = frame-Quiet refl (record {
    nodes_in = λ k a e. elim (get_elem?-set_at height at hi.nodes k a e) [
      | inl old ↦ l.nodes_in k a old
      | inr new ↦ omega arith
    ];
    parents_in = l.parents_in;
    leaf_in = l.leaf_in;
    locked_in = l.locked_in;
  })

  padded-Quiet :
      (test : Bool) (rounds : ℕ) {hi : HotStuffInstance R}
      → Linked hi
      → Quiet ext hi (if test then pad requests ext rounds hi else hi)
  padded-Quiet true rounds l = pad-Quiet rounds l
  padded-Quiet false rounds l = Quiet-refl l

  place_node-Quiet :
      (at height : ℕ) (dummy : Bool) {hi : HotStuffInstance R}
      → at < hi.fresh
      → Linked hi
      → Quiet ext hi (place_node requests ext at height dummy hi)
  unfolding place_node
  place_node-Quiet at height true h l = placed-Quiet height at h l
  place_node-Quiet at height false h l =
      let placed = placed-Quiet height at h l in
      Quiet-trans placed (set_view_change_timer-Quiet at placed.linked)

  kept_or_placed :
      (old : Option NodeMsg) (at height : ℕ) (dummy : Bool) {hi : HotStuffInstance R}
      → at < hi.fresh
      → Linked hi
      → Quiet ext hi
          (elim old [ some node ↦ hi | none ↦ place_node requests ext at height dummy hi ])
  kept_or_placed none at height dummy h l = place_node-Quiet at height dummy h l
  kept_or_placed (some node) at height dummy h l = Quiet-refl l

  pub add_node-Quiet :
      (at : ℕ) {hi : HotStuffInstance R}
      → at < hi.fresh
      → Linked hi
      → Holds (Quiet ext hi) (add_node requests ext at hi)
  unfolding add_node
  add_node-Quiet at {hi} h l =
      let first =
        padded-Quiet (le32 (length hi.nodes) (hi.heap at).height)
          (suc (hi.heap at).height - length hi.nodes) l in
      deref-Holds (λ old e. ok-Holds _ (
        Quiet-trans first (
          kept_or_placed _ at (hi.heap at).height (hi.heap at).dummy (omega (arith, first.grows))
            first.linked)))
