-- ===== src/Orderer/Backlog/Channels.antt =====
-- Writing to the channels of the backlog, and reading them by sequence number.
use mathlib.Core.List.{append-nil, append_assoc}
use orthrus.Prelude.{
  ℕ, ◌≡◌, refl, inl, inr, false, if◌then◌else◌, ◌==◌, Option, none, some, List, [], ◌∷◌, ◌++◌,
  arith, lookup, insert, lookup-insert, le32, Bool-cases,
}
use orthrus.Orderer.Backlog.{
  ProtocolMessage, OrdererChannel, serialize, Heap, channel_of, serialize_at, serialize_all,
  entry_of, pass_on, delete_up_to,
}

-- The messages for a sequence number.
abbrev pub of_sn : ℕ → List ProtocolMessage → List ProtocolMessage
of_sn sn [] = []
of_sn sn (m ∷ ms) = if m.sn == sn then m ∷ of_sn sn ms else of_sn sn ms

pub of_sn-append :
    (sn : ℕ) (xs ys : List ProtocolMessage) → of_sn sn (xs ++ ys) ≡ of_sn sn xs ++ of_sn sn ys
of_sn-append sn [] ys = refl
of_sn-append sn (m ∷ xs) ys = ground (arith, of_sn-append sn xs ys)

pub channel_of-insert :
    (at other : ℕ) (oc : OrdererChannel) (heap : Heap)
    → channel_of other (insert at oc heap) ≡ (if at == other then oc else channel_of other heap)
unfolding channel_of
channel_of-insert at other oc heap = ground (arith, lookup-insert at other oc heap)

channel_of-serialize_at :
    (at other : ℕ) (m : ProtocolMessage) (heap : Heap)
    → channel_of other (serialize_at at m heap)
      ≡ (if at == other then (serialize (channel_of at heap) m).0 else channel_of other heap)
unfolding serialize_at
channel_of-serialize_at at other m heap =
    channel_of-insert at other (serialize (channel_of at heap) m).0 heap

pub entry_of-insert :
    (sn other : ℕ) (ms : List ProtocolMessage) (backlog : List (ℕ × List ProtocolMessage))
    → entry_of other (insert sn ms backlog) ≡ (if sn == other then ms else entry_of other backlog)
unfolding entry_of
entry_of-insert sn other ms backlog = ground (arith, lookup-insert sn other ms backlog)

pub lookup-delete_up_to {ℓ} :
    {A : Type ℓ} (last sn : ℕ) (m : List (ℕ × A))
    → lookup sn (delete_up_to last m) ≡ (if le32 sn last then none else lookup sn m)
unfolding delete_up_to
lookup-delete_up_to last sn [] = ground arith
lookup-delete_up_to last sn ((k, a) ∷ m) = ground (arith, lookup-delete_up_to last sn m)

pub entry_of-delete_up_to :
    (last sn : ℕ) (m : List (ℕ × List ProtocolMessage))
    → entry_of sn (delete_up_to last m) ≡ (if le32 sn last then [] else entry_of sn m)
unfolding entry_of
entry_of-delete_up_to last sn m = ground (arith, lookup-delete_up_to last sn m)

serialize-running :
    (oc : OrdererChannel) (m : ProtocolMessage)
    → oc.stopped ≡ false
    → ((serialize oc m).0.stopped ≡ false) × ((serialize oc m).0.channel ≡ oc.channel ++ m ∷ [])
unfolding serialize
serialize-running oc m h = (ground arith, ground arith)

-- A channel that is not stopped takes what is written to it, and no other channel changes.
serialize_at-running :
    (at : ℕ) (m : ProtocolMessage) (heap : Heap) (other : ℕ)
    → (channel_of other heap).stopped ≡ false
    → ((channel_of other (serialize_at at m heap)).stopped ≡ false)
      × ((channel_of other (serialize_at at m heap)).channel ≡ (
          if at == other
          then (channel_of other heap).channel ++ m ∷ []
          else (channel_of other heap).channel))
serialize_at-running at m heap other h =
    rw (channel_of-serialize_at at other m heap) (elim (Bool-cases (at == other)) [
      | inl q ↦
          let same : at ≡ other = ground arith in
          rw (q, same) (serialize-running (channel_of other heap) m h)
      | inr q ↦ rw q (h, refl)
    ])

pub serialize_all-running :
    (at : ℕ) (ms : List ProtocolMessage) (heap : Heap) (other : ℕ)
    → (channel_of other heap).stopped ≡ false
    → ((channel_of other (serialize_all at ms heap)).stopped ≡ false)
      × ((channel_of other (serialize_all at ms heap)).channel ≡ (
          if at == other
          then (channel_of other heap).channel ++ ms
          else (channel_of other heap).channel))
unfolding serialize_all
serialize_all-running at [] heap other h =
    (h, ground (arith, append-nil (channel_of other heap).channel))
serialize_all-running at (m ∷ ms) heap other h =
    let (running, first) = serialize_at-running at m heap other h in
    let (still, rest) = serialize_all-running at ms (serialize_at at m heap) other running in
    (still, ground (arith, rest, first, append_assoc (channel_of other heap).channel (m ∷ []) ms))

pub pass_on-running :
    (sn at : ℕ) (o : Option ℕ) (m : ProtocolMessage) (heap : Heap)
    → (channel_of at heap).stopped ≡ false
    → ((channel_of at (pass_on o m heap)).stopped ≡ false)
      × (of_sn sn (channel_of at (pass_on o m heap)).channel
          ≡ of_sn sn (channel_of at heap).channel
            ++ (elim o [ none ↦ [] | some to ↦ if to == at then of_sn sn (m ∷ []) else [] ]))
unfolding pass_on
pass_on-running sn at none m heap h =
    (h, ground (arith, append-nil (of_sn sn (channel_of at heap).channel)))
pass_on-running sn at (some to) m heap h =
    let (still, written) = serialize_at-running to m heap at h in
    (
      still,
      ground (
        arith,
        written,
        of_sn-append sn (channel_of at heap).channel (m ∷ []),
        append-nil (of_sn sn (channel_of at heap).channel),
      ),
    )
