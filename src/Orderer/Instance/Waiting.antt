-- ===== src/Orderer/Instance/Waiting.antt =====
-- The loop of `announce` over the blocks that have waited returns, if the calls that it makes do.
use orthrus.Protobufs.{Batch}
use orthrus.Orderer.Votes.{PbftBatch}
use orthrus.Prelude.{
  ℕ, ◌≡◌, ◌<◌, inl, inr, Bool, true, Option, none, some, List, [], ◌∷◌, arith, count, Option-cases,
}
use orthrus.Orderer.Instance.{Node, PbftInstance, Outcome, current, batch_at}
use orthrus.Orderer.Instance.Announce.{Announce, announce_batch, announce_waiting, then_finish}
use orthrus.Orderer.Instance.Ready.{Ready, Fits, has_proposal, uncommitted}
use orthrus.Orderer.Instance.Finishing.{Returns, returned, from_earlier, finish-Returns}

-- A call of `announce` that returns whenever fewer than `fuel` batches are uncommitted.
abbrev pub RunsBelow : Node → ℕ → Announce → Type 0
RunsBelow node fuel again =
    (pi : PbftInstance) (sn : ℕ) (req_batch : Option Batch) (aborted : Bool)
    (propose_ts commit_ts : ℕ)
    → Ready node pi
    → Fits node sn
    → has_proposal (batch_at pi sn) ≡ true
    → uncommitted (current pi) < fuel
    → Returns node pi (again pi sn req_batch aborted propose_ts commit_ts)

pub no_batch : (o : Option PbftBatch) → o ≡ none → has_proposal o ≡ true → 0 < 0
no_batch o e h = ground arith

no_message :
    (o : Option PbftBatch) (b : PbftBatch)
    → o ≡ some b
    → b.preprepare_msg ≡ none
    → has_proposal o ≡ true
    → 0 < 0
no_message o b e m h = ground arith

module _ {node : Node} {fuel : ℕ} {again : Announce} (below : RunsBelow node fuel again) where
  pub announce_batch-Returns :
      (pi : PbftInstance) (sn : ℕ)
      → Ready node pi
      → Fits node sn
      → has_proposal (batch_at pi sn) ≡ true
      → uncommitted (current pi) < fuel
      → Returns node pi (announce_batch again pi sn)
  unfolding announce_batch
  announce_batch-Returns pi sn r f h u = elim (Option-cases (batch_at pi sn)) [
    | inl e ↦ elim (no_batch (batch_at pi sn) e h) [ ]
    | inr (b, e) ↦ elim (Option-cases b.preprepare_msg) [
      | inl m ↦ elim (no_message (batch_at pi sn) b e m h) [ ]
      | inr (msg, m) ↦
          rw (e, m, announce_batch)
            (below pi sn msg.batch msg.aborted msg.ts b.last_commit_ts r f h u)
    ]
  ]

  pub announce_waiting-Returns :
      (sns : List ℕ) (pi : PbftInstance)
      → Ready node pi
      → ((v : ℕ) → 0 < count v sns → Fits node v × (has_proposal (batch_at pi v) ≡ true))
      → uncommitted (current pi) < fuel
      → Returns node pi (announce_waiting again sns (Outcome.done pi))
  unfolding announce_waiting
  announce_waiting-Returns [] pi r h u = returned r
  announce_waiting-Returns (sn ∷ sns) pi r h u =
      let (f, t) = h sn (ground arith) in
      let one = announce_batch-Returns pi sn r f t u in
      from_earlier one.after (
        rw (one.runs, announce_waiting)
          (announce_waiting-Returns sns one.state one.ready
            (λ v c. let (g, p) = h v (ground arith) in (g, one.after.kept v p))
            (omega (arith, one.after.fewer))))

pub then_finish-Returns :
    {node : Node} {pi : PbftInstance} {o : Outcome}
    → Returns node pi o
    → Returns node pi (then_finish node o)
unfolding then_finish
then_finish-Returns r =
    from_earlier r.after (
      rw (r.runs, then_finish) (finish-Returns r.state.segment.sns r.state r.ready r.ready.handled))
