-- ===== src/Orderer/Backlog.antt =====
-- orderer/common.go: the backlog, which keeps the messages for sequence numbers whose ordering
-- instance has not been made yet, and passes messages on to the instances that have subscribed. One
-- goroutine (`process`) serves its channels; which of them it takes next is the order of a list of
-- events. A channel is the list of what was written to it.
mod Channels
pub mod Delivery
mod Tests
use orthrus.Prelude.{
  ℕ, Bool, true, false, if◌then◌else◌, Option, none, some, List, [], ◌∷◌, ◌++◌, lookup, insert,
  le32, minus_one,
}
use orthrus.Manager.Segments.{Segment}

-- A protocol message; `msg` stands for the bytes of its body, which this code does not read.
pub record ProtocolMessage : Type 0 where
  pub sender_id : ℕ
  pub sn : ℕ
  pub msg : List ℕ

pub record OrdererChannel : Type 0 where
  pub channel : List ProtocolMessage
  pub stopped : Bool

unfoldable pub new_orderer_channel : OrdererChannel
new_orderer_channel = record { channel = []; stopped = false }

unfoldable pub stop : OrdererChannel → OrdererChannel
stop oc = record oc { stopped = true }

-- The channel afterwards, and whether it was closed.
unfoldable pub serialize : OrdererChannel → ProtocolMessage → OrdererChannel × Bool
serialize oc value =
    if oc.stopped then (oc, true) else (record oc { channel = oc.channel ++ value ∷ [] }, false)

-- `backlog.add`: the Boolean is true where the channel is closed.
unfoldable pub add : OrdererChannel → ProtocolMessage → OrdererChannel × Bool
unfolding serialize
add messages value = serialize messages value

-- The channels that instances and the backlog share, by their addresses.
abbrev pub Heap : Type 0
Heap = List (ℕ × OrdererChannel)

unfoldable pub channel_of : ℕ → Heap → OrdererChannel
unfolding new_orderer_channel
channel_of at heap = elim (lookup at heap) [ none ↦ new_orderer_channel | some oc ↦ oc ]

unfoldable pub serialize_at : ℕ → ProtocolMessage → Heap → Heap
serialize_at at value heap = insert at ((serialize (channel_of at heap) value).0) heap

unfoldable pub serialize_all : ℕ → List ProtocolMessage → Heap → Heap
serialize_all at [] heap = heap
serialize_all at (value ∷ rest) heap = serialize_all at rest (serialize_at at value heap)

-- What subscribes: a segment and the address of its instance's channel.
pub record BacklogSubscriber : Type 0 where
  pub segment : Segment
  pub serializer : ℕ

pub record Backlog : Type 0 where
  pub epoch_last : ℕ
  pub backlog : List (ℕ × List ProtocolMessage)
  pub dispatcher : List (ℕ × ℕ)
  pub heap : Heap

unfoldable pub new_backlog : Heap → Backlog
new_backlog heap = record { epoch_last = minus_one; backlog = []; dispatcher = []; heap = heap }

unfoldable pub entry_of : ℕ → List (ℕ × List ProtocolMessage) → List ProtocolMessage
entry_of sn backlog = elim (lookup sn backlog) [ none ↦ [] | some entry ↦ entry ]

-- Writes a message to the channel of an instance that is known already.
unfoldable pub pass_on : Option ℕ → ProtocolMessage → Heap → Heap
pass_on none msg heap = heap
pass_on (some serializer) msg heap = serialize_at serializer msg heap

unfoldable pub append_to_backlog : Backlog → ProtocolMessage → Backlog
append_to_backlog b msg = if le32 msg.sn b.epoch_last then b else record b {
  heap = pass_on (lookup msg.sn b.dispatcher) msg b.heap;
  backlog = insert msg.sn (entry_of msg.sn b.backlog ++ msg ∷ []) b.backlog;
}

-- The loop of `dispatchToInstance` over the segment's sequence numbers.
unfoldable pub dispatch_loop : ℕ → List ℕ → Backlog → Backlog
dispatch_loop serializer [] b = b
dispatch_loop serializer (sn ∷ sns) b = dispatch_loop serializer sns (record b {
  dispatcher = insert sn serializer b.dispatcher;
  heap = serialize_all serializer (entry_of sn b.backlog) b.heap;
})

unfoldable pub dispatch_to_instance : Backlog → BacklogSubscriber → Backlog
unfolding dispatch_loop
dispatch_to_instance b s = dispatch_loop s.serializer s.segment.sns b

unfoldable pub delete_up_to {ℓ} : {A : Type ℓ} → ℕ → List (ℕ × A) → List (ℕ × A)
delete_up_to last [] = []
delete_up_to last ((sn, a) ∷ rest) =
    if le32 sn last then delete_up_to last rest else (sn, a) ∷ delete_up_to last rest

unfoldable pub garbage_collect : Backlog → ℕ → Backlog
unfolding delete_up_to
garbage_collect b last = record b {
  epoch_last = last;
  backlog = delete_up_to last b.backlog;
  dispatcher = delete_up_to last b.dispatcher;
}

-- What the goroutine takes from its channels, and an instance stopping its channel.
pub data Event : Type 0 where
  message : ProtocolMessage → Event
  subscribe : BacklogSubscriber → Event
  gc : ℕ → Event
  stop_at : ℕ → Event

unfoldable pub step : Backlog → Event → Backlog
unfolding append_to_backlog dispatch_to_instance garbage_collect stop
step b (message msg) = append_to_backlog b msg
step b (subscribe s) = dispatch_to_instance b s
step b (gc last) = garbage_collect b last
step b (stop_at at) = record b { heap = insert at (stop (channel_of at b.heap)) b.heap }

unfoldable pub process : Backlog → List Event → Backlog
unfolding step
process b [] = b
process b (e ∷ es) = process (step b e) es
