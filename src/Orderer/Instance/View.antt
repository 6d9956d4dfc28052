-- ===== src/Orderer/Instance/View.antt =====
-- orderer/pbftinstance.go: `startView`. The argument `timed` is whether the orderer has a commit time,
-- and a panic leaves no instance. How long a timer runs is left out; `stop_proposing` closes the
-- channel at its first call only.
use orthrus.Protobufs.{Batch}
use orthrus.Orderer.Votes.{PbftBatch}
use orthrus.Prelude.{
  ℕ, ◌==◌, ◌&&◌, Bool, true, false, not, if◌then◌else◌, Option, none, some, List, [], ◌∷◌, lookup,
  insert, lt32,
}
use orthrus.Orderer.Instance.{Call, PbftInstance, Outcome, entry_or, call, batch_at, set_batch}
use orthrus.Orderer.Instance.Announce.{set_view_change_timer}

-- `&pbftBatch{prepareMsgs: ..., commitMsgs: ...}`.
abbrev pub fresh_batch : PbftBatch
fresh_batch = record {
  prepare_msgs = [];
  commit_msgs = [];
  valid_commit_msgs = [];
  last_commit_ts = 0;
  digest = [];
  preprepared = false;
  prepared = false;
  committed = false;
  preprepare_msg = none;
  batch = none;
  view_change_timer = false;
  has_maps = true;
}

-- A committed batch goes over to the new view.
unfoldable pub take_committed :
    ℕ → PbftBatch → Option PbftBatch → PbftInstance → Option PbftInstance
unfolding set_batch
take_committed sn previous none pi = none
take_committed sn previous (some new_batch) pi = some (
    set_batch sn
      (record new_batch { committed = true; digest = previous.digest; batch = previous.batch }) pi)

-- `previousBatch.batch.Resurrect()`.
unfoldable pub resurrect_previous : Option Batch → PbftInstance → Option PbftInstance
unfolding call
resurrect_previous none pi = none
resurrect_previous (some batch) pi = some (call (Call.resurrect batch) pi)

unfoldable pub carry_over : ℕ → Option PbftBatch → PbftInstance → Option PbftInstance
unfolding take_committed resurrect_previous batch_at
carry_over sn none pi = none
carry_over sn (some previous) pi =
    if previous.committed
    then take_committed sn previous (batch_at pi sn) pi
    else (if previous.preprepared then resurrect_previous previous.batch pi else some pi)

-- One round of the loop of `startView`.
unfoldable pub start_batch : Bool → ℕ → ℕ → PbftInstance → Option PbftInstance
unfolding set_view_change_timer set_batch entry_or carry_over
start_batch timed last_view sn pi =
    let made = set_batch sn fresh_batch pi in
    let started = if timed then set_view_change_timer sn fresh_batch made else made in
    if started.view == 0
    then some started
    else carry_over sn (lookup sn (entry_or [] last_view started.batches)) started

unfoldable pub start_batches : Bool → ℕ → List ℕ → PbftInstance → Option PbftInstance
unfolding start_batch
start_batches timed last_view [] pi = some pi
start_batches timed last_view (sn ∷ sns) pi = elim (start_batch timed last_view sn pi) [
  | none ↦ none
  | some started ↦ start_batches timed last_view sns started
]

unfoldable pub enter_view : ℕ → PbftInstance → PbftInstance
unfolding call
enter_view view pi =
    let entered : PbftInstance = record pi { view = view } in
    if lt32 0 view then call Call.stop_proposing entered else entered

unfoldable pub finished : Option PbftInstance → Outcome
finished none = Outcome.panicked
finished (some pi) = Outcome.done pi

unfoldable pub start_view : Bool → ℕ → PbftInstance → Outcome
unfolding enter_view start_batches finished
start_view timed view pi =
    if lt32 view pi.view
    then Outcome.panicked
    else if not (pi.view == 0) && pi.view == view
    then Outcome.done pi
    else elim (lookup view pi.batches) [
      | some batches ↦ Outcome.panicked
      | none ↦
          let entered = enter_view view pi in
          finished (
            start_batches timed pi.view pi.segment.sns
              (record entered { batches = insert view [] pi.batches }))
    ]
