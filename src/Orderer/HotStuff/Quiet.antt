-- ===== src/Orderer/HotStuff/Quiet.antt =====
-- What the operations on the nodes of a HotStuff instance leave as it is. An operation is quiet if no
-- vote is sent, the height of the last vote stays, and the lock does not go back.
use orthrus.Orderer.HotStuff.{
  Qc, qc_height, HotStuffVote, Body, HotStuffNode, Call, Externals, HotStuffInstance, call, write,
}
use orthrus.Orderer.HotStuff.Leading.{votes_for}
use mathlib.Core.List.{append-nil, append_assoc}
use orthrus.Prelude.{
  ℕ, ◌+◌, ◌%◌, ◌==◌, ◌≡◌, ◌≤◌, ◌<◌, ◌∙◌, refl, sym, ap, subst, inl, inr, true, if◌then◌else◌,
  Option, none, some, List, [], ◌∷◌, ◌++◌, arith, get_elem?, half, modulus, Bool-cases, ==_iff,
}

-- The place of an integer in the order of `int32`.
abbrev pub place : ℕ → ℕ
place n = (n + half) % modulus

-- The heights of the votes that have been sent, as their bytes say.
abbrev pub height_in : Option HotStuffVote → List ℕ
height_in none = []
height_in (some v) = v.height ∷ []

abbrev pub body_votes : Externals → Body → List ℕ
body_votes ext (Body.vote signed) = height_in (ext.unmarshal signed.data_bytes)
body_votes ext body = []

abbrev pub call_votes : Externals → Call → List ℕ
call_votes ext (Call.enqueue_msg msg to) = body_votes ext msg.msg
call_votes ext c = []

abbrev pub votes_sent : Externals → List Call → List ℕ
votes_sent ext [] = []
votes_sent ext (c ∷ cs) = call_votes ext c ++ votes_sent ext cs

pub votes_sent-snoc :
    (ext : Externals) (c : Call) (cs : List Call)
    → votes_sent ext (cs ++ c ∷ []) ≡ votes_sent ext cs ++ call_votes ext c
votes_sent-snoc ext c [] = append-nil (call_votes ext c)
votes_sent-snoc ext c (d ∷ cs) =
    ap (λ xs. call_votes ext d ++ xs) (votes_sent-snoc ext c cs)
    ∙ sym (append_assoc (call_votes ext d) (votes_sent ext cs) (call_votes ext c))

-- The nodes of the log, their parents, the leaf and the locked node have been allocated.
pub record Linked {R : Type 0} (hi : HotStuffInstance R) : Type 0 where
  pub nodes_in : (k a : ℕ) → get_elem? hi.nodes k ≡ some a → a < hi.fresh
  pub parents_in : (a p : ℕ) → a < hi.fresh → (hi.heap a).parent ≡ some p → p < hi.fresh
  pub leaf_in : hi.leaf < hi.fresh
  pub locked_in : hi.locked < hi.fresh

-- What `Linked` reads of a state.
pub record Links : Type 0 where
  pub nodes : List ℕ
  pub heap : ℕ → HotStuffNode
  pub fresh : ℕ
  pub leaf : ℕ
  pub locked : ℕ

abbrev pub links : {R : Type 0} → HotStuffInstance R → Links
links hi = record {
  nodes = hi.nodes;
  heap = hi.heap;
  fresh = hi.fresh;
  leaf = hi.leaf;
  locked = hi.locked;
}

pub same-Linked :
    {R : Type 0} {hi h : HotStuffInstance R} → links h ≡ links hi → Linked hi → Linked h
same-Linked e l = record {
  nodes_in = λ k a p.
      omega
        (arith, l.nodes_in k a (ap (λ c. get_elem? c.nodes k) (sym e) ∙ p), ap (λ c. c.fresh) e);
  parents_in = λ a q b p. omega (
    arith,
    l.parents_in a q (omega (arith, ap (λ c. c.fresh) e)) (ap (λ c. (c.heap a).parent) (sym e) ∙ p),
    ap (λ c. c.fresh) e,
  );
  leaf_in = omega (arith, l.leaf_in, ap (λ c. c.leaf) e, ap (λ c. c.fresh) e);
  locked_in = omega (arith, l.locked_in, ap (λ c. c.locked) e, ap (λ c. c.fresh) e);
}

-- No vote for a new view is kept.
abbrev pub NoNewViews : {R : Type 0} → HotStuffInstance R → Type 0
NoNewViews hi = (k : ℕ) → votes_for k hi.new_view_votes ≡ []

pub record Quiet {R : Type 0} (ext : Externals) (hi h : HotStuffInstance R) : Type 0 where
  pub grows : hi.fresh ≤ h.fresh
  pub same_height : (a : ℕ) → a < hi.fresh → (h.heap a).height ≡ (hi.heap a).height
  pub stays : (a : ℕ) → a < hi.fresh → (hi.heap a).announced ≡ true → (h.heap a).announced ≡ true
  pub high : place (qc_height hi.high_qc) ≤ place (qc_height h.high_qc)
  pub no_views : NoNewViews hi → NoNewViews h
  pub linked : Linked h
  pub same_vheight : h.vheight ≡ hi.vheight
  pub same_votes : votes_sent ext h.calls ≡ votes_sent ext hi.calls
  pub lock : place (hi.heap hi.locked).height ≤ place (h.heap h.locked).height

pub record Core : Type 0 where
  pub heap : ℕ → HotStuffNode
  pub fresh : ℕ
  pub high_qc : Qc
  pub new_view_votes : List (ℕ × List (ℕ × (ℕ × Qc)))
  pub vheight : ℕ
  pub votes : List ℕ
  pub locked : ℕ

abbrev pub core : {R : Type 0} → Externals → HotStuffInstance R → Core
core ext hi = record {
  heap = hi.heap;
  fresh = hi.fresh;
  high_qc = hi.high_qc;
  new_view_votes = hi.new_view_votes;
  vheight = hi.vheight;
  votes = votes_sent ext hi.calls;
  locked = hi.locked;
}

-- What is read of a heap in which one node has been written.
pub written_kept :
    (P : HotStuffNode → Type 0) (a at : ℕ) (node : HotStuffNode) (heap : ℕ → HotStuffNode)
    → (P (heap at) → P node)
    → P (heap a)
    → P (if a == at then node else heap a)
written_kept P a at node heap h p = elim (Bool-cases (a == at)) [
  | inl e ↦ rw e (h (subst (λ b. P (heap b)) ((==_iff a at).0 e) p))
  | inr e ↦ rw e p
]

field_kept :
    {X : Type 0} (f : HotStuffNode → X) (a at : ℕ) (node : HotStuffNode) (heap : ℕ → HotStuffNode)
    → f node ≡ f (heap at)
    → f (if a == at then node else heap a) ≡ f (heap a)
field_kept f a at node heap h = elim (Bool-cases (a == at)) [
  | inl e ↦ rw e (h ∙ ap (λ b. f (heap b)) (sym ((==_iff a at).0 e)))
  | inr e ↦ rw e refl
]

module _ {R : Type 0} {ext : Externals} where
  pub Quiet-refl : {hi : HotStuffInstance R} → Linked hi → Quiet ext hi hi
  Quiet-refl l = record {
    grows = omega arith;
    same_height = λ a b. refl;
    stays = λ a b t. t;
    high = omega arith;
    no_views = λ n. n;
    linked = l;
    same_vheight = refl;
    same_votes = refl;
    lock = omega arith;
  }

  pub Quiet-trans : {a b c : HotStuffInstance R} → Quiet ext a b → Quiet ext b c → Quiet ext a c
  Quiet-trans p q = record {
    grows = omega (arith, p.grows, q.grows);
    same_height = λ a l. q.same_height a (omega (arith, p.grows)) ∙ p.same_height a l;
    stays = λ a l t. q.stays a (omega (arith, p.grows)) (p.stays a l t);
    high = omega (arith, p.high, q.high);
    no_views = λ n. q.no_views (p.no_views n);
    linked = q.linked;
    same_vheight = q.same_vheight ∙ p.same_vheight;
    same_votes = q.same_votes ∙ p.same_votes;
    lock = omega (arith, p.lock, q.lock);
  }

  -- A state in which nothing has changed that is read here, but for the log and the leaf.
  pub frame-Quiet :
      {hi h : HotStuffInstance R} → core ext h ≡ core ext hi → Linked h → Quiet ext hi h
  frame-Quiet {hi = hi} {h = h} e l = record {
    grows = omega (arith, ap (λ c. c.fresh) e);
    same_height = λ a b. ap (λ c. (c.heap a).height) e;
    stays = λ a b t. ap (λ c. (c.heap a).announced) e ∙ t;
    high = omega (arith, ap (λ c. place (qc_height c.high_qc)) e);
    no_views = λ n k. ap (λ c. votes_for k c.new_view_votes) e ∙ n k;
    linked = l;
    same_vheight = ap (λ c. c.vheight) e;
    same_votes = ap (λ c. c.votes) e;
    lock = omega (arith, ap (λ c. place (c.heap c.locked).height) e);
  }

  -- A call that is no vote.
  pub call-Quiet :
      (c : Call) {hi : HotStuffInstance R}
      → call_votes ext c ≡ []
      → Linked hi
      → Quiet ext hi (call c hi)
  unfolding call
  call-Quiet c {hi} e l =
      frame-Quiet
        (ap (λ v. record (core ext hi) { votes = v })
          (votes_sent-snoc ext c hi.calls
            ∙ ap (λ xs. votes_sent ext hi.calls ++ xs) e
            ∙ append-nil (votes_sent ext hi.calls)))
        (same-Linked refl l)

  -- A node that is written keeps its height, its parent and its mark.
  pub write-Quiet :
      (at : ℕ) (node : HotStuffNode) (hi : HotStuffInstance R)
      → node.height ≡ (hi.heap at).height
      → node.parent ≡ (hi.heap at).parent
      → ((hi.heap at).announced ≡ true → node.announced ≡ true)
      → Linked hi
      → Quiet ext hi (write at node hi)
  unfolding write
  write-Quiet at node hi h p t l = record {
    grows = omega arith;
    same_height = λ a b. field_kept (λ n. n.height) a at node hi.heap h;
    stays = λ a b m. written_kept (λ n. n.announced ≡ true) a at node hi.heap t m;
    high = omega arith;
    no_views = λ n. n;
    linked = record {
      nodes_in = l.nodes_in;
      parents_in =
          λ a q b e. l.parents_in a q b (sym (field_kept (λ n. n.parent) a at node hi.heap p) ∙ e);
      leaf_in = l.leaf_in;
      locked_in = l.locked_in;
    };
    same_vheight = refl;
    same_votes = refl;
    lock = omega (arith, ap place (field_kept (λ n. n.height) hi.locked at node hi.heap h));
  }
