-- ===== src/Orderer/HotStuff/Certificates.antt =====
-- The operations on certificates, announcements and views are quiet.
use orthrus.Protobufs.{Batch}
use orthrus.Request.Requests.{Requests}
use orthrus.Orderer.HotStuff.{
  NodeMsg, Qc, qc_height, batch_of, certificate_of, height_of, Call, Externals, HotStuffInstance,
  node_at,
}
use orthrus.Orderer.HotStuff.Tree.{
  allocate, new_node, new_batch_of, adopt_node, update_high_qc, stop_timer, mark_announced,
  announce, start_view, move_on, send_new_view,
}
use orthrus.Orderer.HotStuff.Leading.{votes_for}
use orthrus.Orderer.HotStuff.Quiet.{
  Quiet, Quiet-refl, Quiet-trans, Linked, same-Linked, frame-Quiet, call-Quiet, write-Quiet,
}
use orthrus.Prelude.{
  ℕ, ◌-◌, ◌≡◌, ◌<◌, refl, inl, inr, Bool, true, if◌then◌else◌, Option, List, [], arith, length,
  lt32, Bool-cases, Holds, ok-Holds, panicked-Holds, bind-Holds, deref-Holds, when-Holds,
  weaken-Holds, minus_one,
}
use orthrus.Orderer.HotStuff.Growth.{higher, not-false, new_node-Quiet, add_node-Quiet}

module _ {R : Type 0} (requests : Requests R) (ext : Externals) where
  pub new_batch_of-Quiet :
      (batch : Batch) {hi : HotStuffInstance R}
      → Linked hi
      → Holds (λ made. Quiet ext hi made.0) (new_batch_of requests ext batch hi)
  unfolding new_batch_of
  new_batch_of-Quiet batch l =
      deref-Holds (λ made e. ok-Holds _ (frame-Quiet refl (same-Linked refl l)))

  leaf-Quiet :
      (at : ℕ) {hi : HotStuffInstance R}
      → at < hi.fresh
      → Linked hi
      → Quiet ext hi (record hi { leaf = at })
  leaf-Quiet at h l = frame-Quiet refl (record {
    nodes_in = l.nodes_in;
    parents_in = l.parents_in;
    leaf_in = h;
    locked_in = l.locked_in;
  })

  adopt_node-Quiet :
      (node : NodeMsg) {hi : HotStuffInstance R}
      → Linked hi
      → Holds (Quiet ext hi) (adopt_node requests ext node hi)
  unfolding adopt_node node_at new_node allocate
  adopt_node-Quiet node {hi} l = bind-Holds (new_batch_of-Quiet (batch_of node) l) (λ made q.
      deref-Holds (λ last e. deref-Holds (λ batch d.
        let created =
          new_node-Quiet requests ext last batch (certificate_of node) minus_one (height_of node)
            hi.leader (q.linked.nodes_in (length made.0.nodes - 1) last e) q.linked in
        bind-Holds (add_node-Quiet requests ext made.0.fresh (omega arith) created.linked)
          (λ added s. ok-Holds _ (
            Quiet-trans q (
              Quiet-trans created
                (Quiet-trans s (leaf-Quiet made.0.fresh (omega (arith, s.grows)) s.linked))))))))

  -- A certificate that is higher than the one before.
  raised-Quiet :
      (certificate : Qc) {hi : HotStuffInstance R}
      → lt32 (qc_height hi.high_qc) (qc_height certificate) ≡ true
      → Linked hi
      → Quiet ext hi (record hi { high_qc = certificate })
  raised-Quiet certificate {hi} h l = record {
    grows = omega arith;
    same_height = λ a b. refl;
    stays = λ a b t. t;
    high = higher (qc_height hi.high_qc) (qc_height certificate) h;
    no_views = λ n. n;
    linked = same-Linked refl l;
    same_vheight = refl;
    same_votes = refl;
    lock = omega arith;
  }

  pub update_high_qc-Quiet :
      (certificate : Qc) {hi : HotStuffInstance R}
      → Linked hi
      → Holds (Quiet ext hi) (update_high_qc requests ext certificate hi)
  unfolding update_high_qc node_at
  update_high_qc-Quiet certificate {hi} l =
      when-Holds (λ t. ok-Holds hi (Quiet-refl l))
        (λ t.
          let raised = raised-Quiet certificate (not-false t) l in
          when-Holds
            (λ far. deref-Holds (λ node e.
              weaken-Holds (λ h q. Quiet-trans raised q) (adopt_node-Quiet node raised.linked)))
            (λ near. deref-Holds (λ leaf e. ok-Holds _ (
              Quiet-trans raised
                (leaf-Quiet leaf (l.nodes_in (qc_height certificate) leaf e) raised.linked)))))

  stop_timer-Quiet :
      (at : ℕ) {hi : HotStuffInstance R} → Linked hi → Quiet ext hi (stop_timer requests ext at hi)
  unfolding stop_timer
  stop_timer-Quiet at {hi} l = elim (Bool-cases (hi.heap at).view_change_timer) [
    | inl t ↦ rw (t, stop_timer) (call-Quiet (Call.stop_timer (hi.heap at).sn) refl l)
    | inr t ↦ rw (t, stop_timer) (Quiet-refl l)
  ]

  mark_announced-Quiet :
      (at : ℕ) (batch : List ℕ) {hi : HotStuffInstance R}
      → Linked hi
      → Quiet ext hi (mark_announced requests ext at batch hi)
  unfolding mark_announced
  mark_announced-Quiet at batch {hi} l =
      let written =
        write-Quiet at (record (hi.heap at) { announced = true }) hi refl refl (λ m. refl) l in
      Quiet-trans written (frame-Quiet refl (same-Linked refl written.linked))

  pub announce-Quiet :
      (target : Option ℕ) (sn : ℕ) (req_batch : Batch) (digest : List ℕ) (aborted : Bool)
      {hi : HotStuffInstance R}
      → Linked hi
      → Holds (Quiet ext hi) (announce requests ext target sn req_batch digest aborted hi)
  unfolding announce
  announce-Quiet target sn req_batch digest aborted {hi} l = deref-Holds (λ at e.
      let stopped = stop_timer-Quiet at l in
      when-Holds (λ t. ok-Holds _ stopped)
        (λ t. deref-Holds (λ batch d.
          let marked = mark_announced-Quiet at batch stopped.linked in
          ok-Holds _ (Quiet-trans stopped (Quiet-trans marked (call-Quiet _ refl marked.linked))))))

  -- The state after a change of the view.
  pub started-Quiet :
      (view : ℕ) {hi : HotStuffInstance R}
      → Linked hi
      → Quiet ext hi (record hi {
        view = view;
        new_view_votes = [];
        closed = if lt32 0 view then true else hi.closed;
      })
  unfolding votes_for
  started-Quiet view l = record {
    grows = omega arith;
    same_height = λ a b. refl;
    stays = λ a b m. m;
    high = omega arith;
    no_views = λ n k. refl;
    linked = same-Linked refl l;
    same_vheight = refl;
    same_votes = refl;
    lock = omega arith;
  }

  pub start_view-Quiet :
      (view : ℕ) {hi : HotStuffInstance R}
      → Linked hi
      → Holds (Quiet ext hi) (start_view requests ext view hi)
  unfolding start_view
  start_view-Quiet view l =
      when-Holds (λ t. panicked-Holds) (λ t. ok-Holds _ (started-Quiet view l))

  move_on-Quiet :
      (leader at : ℕ) {hi : HotStuffInstance R}
      → Linked hi
      → Quiet ext hi (move_on requests ext leader at hi)
  unfolding move_on
  move_on-Quiet leader at {hi} l = record {
    grows = omega arith;
    same_height = λ a b. refl;
    stays = λ a b t. t;
    high = omega arith;
    no_views = λ n. n;
    linked = same-Linked refl l;
    same_vheight = refl;
    same_votes = refl;
    lock = omega arith;
  }

  pub send_new_view-Quiet :
      {hi : HotStuffInstance R} → Linked hi → Holds (Quiet ext hi) (send_new_view requests ext hi)
  unfolding send_new_view
  send_new_view-Quiet {hi} l = deref-Holds (λ leader e. deref-Holds (λ at d.
      let moved = move_on-Quiet leader at l in
      ok-Holds _ (Quiet-trans moved (call-Quiet _ refl moved.linked))))
