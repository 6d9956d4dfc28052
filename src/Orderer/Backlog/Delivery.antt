-- ===== src/Orderer/Backlog/Delivery.antt =====
-- The backlog delivers every message of a sequence number once and in order, whether it comes before
-- or after the instance has subscribed.
use mathlib.Core.List.{append-nil, append_assoc}
use orthrus.Prelude.{
  subst, ℕ, ◌<◌, ◌≡◌, refl, inl, inr, Bool, true, false, if◌then◌else◌, ◌==◌, none, some, List, [],
  ◌∷◌, ◌++◌, arith, lookup, insert, lookup-insert, le32, Bool-cases, half,
}
use orthrus.Orderer.Backlog.{
  ProtocolMessage, new_orderer_channel, stop, Heap, channel_of, serialize_all, Backlog, new_backlog,
  entry_of, append_to_backlog, dispatch_loop, dispatch_to_instance, garbage_collect, Event, message,
  subscribe, gc, stop_at, step, process,
}
use orthrus.Orderer.Backlog.Channels.{
  of_sn, of_sn-append, channel_of-insert, entry_of-insert, lookup-delete_up_to,
  entry_of-delete_up_to, serialize_all-running, pass_on-running,
}

-- The messages that the backlog takes in a run.
abbrev pub messages : List Event → List ProtocolMessage
messages [] = []
messages (message m ∷ es) = m ∷ messages es
messages (subscribe s ∷ es) = messages es
messages (gc last ∷ es) = messages es
messages (stop_at at ∷ es) = messages es

-- A subscriber, once for each time that a sequence number stands in its segment.
abbrev pub claims : ℕ → ℕ → List ℕ → List ℕ
claims sn serializer [] = []
claims sn serializer (x ∷ sns) =
    if x == sn then serializer ∷ claims sn serializer sns else claims sn serializer sns

abbrev pub subscribers : ℕ → List Event → List ℕ
subscribers sn [] = []
subscribers sn (message m ∷ es) = subscribers sn es
subscribers sn (subscribe s ∷ es) = claims sn s.serializer s.segment.sns ++ subscribers sn es
subscribers sn (gc last ∷ es) = subscribers sn es
subscribers sn (stop_at at ∷ es) = subscribers sn es

-- No epoch that ends in the run reaches a sequence number, and a channel is not stopped in it.
abbrev pub in_use : ℕ → ℕ → List Event → Bool
in_use sn at [] = true
in_use sn at (message m ∷ es) = in_use sn at es
in_use sn at (subscribe s ∷ es) = in_use sn at es
in_use sn at (gc last ∷ es) = if le32 sn last then false else in_use sn at es
in_use sn at (stop_at other ∷ es) = if other == at then false else in_use sn at es

record Inv (sn at : ℕ) (received : List ProtocolMessage) (subscribed : Bool) (b : Backlog)
    : Type 0 where
  above : le32 sn b.epoch_last ≡ false
  kept : entry_of sn b.backlog ≡ received
  dispatched : lookup sn b.dispatcher ≡ (if subscribed then some at else none)
  running : (channel_of at b.heap).stopped ≡ false
  delivered : of_sn sn (channel_of at b.heap).channel ≡ (if subscribed then received else [])
  tagged : (x : ℕ) → of_sn sn (entry_of x b.backlog) ≡ (if x == sn then received else [])

append-Inv :
    (sn at : ℕ) (received : List ProtocolMessage) (subscribed : Bool) (b : Backlog)
    (m : ProtocolMessage)
    → Inv sn at received subscribed b
    → Inv sn at (received ++ of_sn sn (m ∷ [])) subscribed (append_to_backlog b m)
unfolding append_to_backlog
append-Inv sn at received subscribed b m inv = elim (Bool-cases (le32 m.sn b.epoch_last)) [
  | inl late ↦
      let other : (m.sn == sn) ≡ false = ground (arith, inv.above) in
      rw (late, append_to_backlog, other, append-nil received) inv
  | inr early ↦
      let (still, written) =
        pass_on-running sn at (lookup m.sn b.dispatcher) m b.heap inv.running in
      rw (early, append_to_backlog)
        (record {
          above = inv.above;
          kept =
              rw (entry_of-insert m.sn sn (entry_of m.sn b.backlog ++ m ∷ []) b.backlog)
                (ground (arith, inv.kept, append-nil received));
          dispatched = inv.dispatched;
          running = still;
          delivered =
              rw (written, inv.delivered) (ground (arith, inv.dispatched, append-nil received));
          tagged = λ x. rw (entry_of-insert m.sn x (entry_of m.sn b.backlog ++ m ∷ []) b.backlog) (
              ground (
                arith,
                of_sn-append sn (entry_of m.sn b.backlog) (m ∷ []),
                append-nil (of_sn sn (entry_of m.sn b.backlog)),
                append-nil received,
                inv.tagged x,
                inv.tagged m.sn,
              ));
        })
]

dispatch-Inv :
    (sn at : ℕ) (received : List ProtocolMessage) (subscribed : Bool) (serializer : ℕ)
    (sns : List ℕ) (more : List ℕ) (b : Backlog)
    → claims sn serializer sns ++ more ≡ (if subscribed then [] else at ∷ [])
    → Inv sn at received subscribed b
    → (now : Bool) × (more ≡ (if now then [] else at ∷ []))
      × Inv sn at received now (dispatch_loop serializer sns b)
unfolding dispatch_loop
dispatch-Inv sn at received subscribed serializer [] more b h inv = (subscribed, h, inv)
dispatch-Inv sn at received subscribed serializer (x ∷ sns) more b h inv =
    elim (Bool-cases (x == sn)) [
      | inl q ↦ dispatch-Inv sn at received true serializer sns more b1 (ground arith) (record {
        above = inv.above;
        kept = inv.kept;
        dispatched = ground (arith, lookup-insert x sn serializer b.dispatcher);
        running = still;
        delivered = rw written (
            ground (
              arith,
              of_sn-append sn (channel_of at b.heap).channel (entry_of x b.backlog),
              inv.tagged x,
              inv.delivered,
              append-nil (of_sn sn (channel_of at b.heap).channel),
            ));
        tagged = inv.tagged;
      })
      | inr q ↦
          dispatch-Inv sn at received subscribed serializer sns more b1 (ground arith) (record {
            above = inv.above;
            kept = inv.kept;
            dispatched = ground (arith, lookup-insert x sn serializer b.dispatcher, inv.dispatched);
            running = still;
            delivered = rw written (
                ground (
                  arith,
                  of_sn-append sn (channel_of at b.heap).channel (entry_of x b.backlog),
                  inv.tagged x,
                  inv.delivered,
                  append-nil (of_sn sn (channel_of at b.heap).channel),
                ));
            tagged = inv.tagged;
          })
    ]
  where
    b1 : Backlog
    b1 = record b {
      dispatcher = insert x serializer b.dispatcher;
      heap = serialize_all serializer (entry_of x b.backlog) b.heap;
    }

    still : (channel_of at b1.heap).stopped ≡ false
    still = (serialize_all-running serializer (entry_of x b.backlog) b.heap at inv.running).0

    written : (channel_of at b1.heap).channel ≡ (
        if serializer == at
        then (channel_of at b.heap).channel ++ entry_of x b.backlog
        else (channel_of at b.heap).channel)
    written = (serialize_all-running serializer (entry_of x b.backlog) b.heap at inv.running).1

collect-Inv :
    (sn at : ℕ) (received : List ProtocolMessage) (subscribed : Bool) (b : Backlog) (last : ℕ)
    → le32 sn last ≡ false
    → Inv sn at received subscribed b
    → Inv sn at received subscribed (garbage_collect b last)
unfolding garbage_collect
collect-Inv sn at received subscribed b last h inv = record {
  above = h;
  kept = ground (arith, entry_of-delete_up_to last sn b.backlog, inv.kept);
  dispatched = ground (arith, lookup-delete_up_to last sn b.dispatcher, inv.dispatched);
  running = inv.running;
  delivered = inv.delivered;
  tagged = λ x. rw (entry_of-delete_up_to last x b.backlog) (ground (arith, inv.tagged x));
}

stop-Inv :
    (sn at : ℕ) (received : List ProtocolMessage) (subscribed : Bool) (b : Backlog) (other : ℕ)
    → (other == at) ≡ false
    → Inv sn at received subscribed b
    → Inv sn at received subscribed (step b (stop_at other))
unfolding step
stop-Inv sn at received subscribed b other h inv = record {
  above = inv.above;
  kept = inv.kept;
  dispatched = inv.dispatched;
  running = rw (channel_of-insert other at (stop (channel_of other b.heap)) b.heap, h) inv.running;
  delivered =
      rw (channel_of-insert other at (stop (channel_of other b.heap)) b.heap, h) inv.delivered;
  tagged = inv.tagged;
}

process-Inv :
    (sn at : ℕ) (received : List ProtocolMessage) (subscribed : Bool) (b : Backlog)
    (es : List Event)
    → in_use sn at es ≡ true
    → subscribers sn es ≡ (if subscribed then [] else at ∷ [])
    → Inv sn at received subscribed b
    → Inv sn at (received ++ of_sn sn (messages es)) true (process b es)
unfolding process step
process-Inv sn at received true b [] u c inv = rw append-nil inv
process-Inv sn at received false b [] u c inv = absurd (cc)
process-Inv sn at received o b (message m ∷ es) u c inv =
    let e : (received ++ of_sn sn (m ∷ [])) ++ of_sn sn (messages es)
        ≡ received ++ of_sn sn (messages (message m ∷ es)) =
      rw (of_sn-append sn (m ∷ []) (messages es))
        (append_assoc received (of_sn sn (m ∷ [])) (of_sn sn (messages es))) in
    subst (λ r. Inv sn at r true (process b (message m ∷ es))) e
      (process-Inv sn at (received ++ of_sn sn (m ∷ [])) o (append_to_backlog b m) es u c
        (append-Inv sn at received o b m inv))
process-Inv sn at received o b (subscribe s ∷ es) u c inv =
    let (now, rest, inv1) =
      dispatch-Inv sn at received o s.serializer s.segment.sns (subscribers sn es) b c inv in
    process-Inv sn at received now (dispatch_to_instance b s) es u rest inv1
process-Inv sn at received o b (gc last ∷ es) u c inv =
    process-Inv sn at received o (garbage_collect b last) es (ground arith) c
      (collect-Inv sn at received o b last (ground arith) inv)
process-Inv sn at received o b (stop_at other ∷ es) u c inv =
    process-Inv sn at received o (step b (stop_at other)) es (ground arith) c
      (stop-Inv sn at received o b other (ground arith) inv)

-- A run of the backlog in which one instance subscribes to a sequence number, once, does not stop its
-- channel, and no epoch that ends reaches the sequence number: the instance's channel, new at the
-- start, has got the messages for it that the backlog took, each once and in their order, those from
-- before the subscription too.
pub process-delivered :
    (sn at : ℕ) (heap : Heap) (es : List Event)
    → sn < half
    → channel_of at heap ≡ new_orderer_channel
    → in_use sn at es ≡ true
    → subscribers sn es ≡ at ∷ []
    → of_sn sn (channel_of at (process (new_backlog heap) es).heap).channel ≡ of_sn sn (messages es)
unfolding new_backlog new_orderer_channel entry_of le32
process-delivered sn at heap es small fresh u c =
    (process-Inv sn at [] false (new_backlog heap) es u c (record {
      above = ground (arith);
      kept = refl;
      dispatched = refl;
      running = ground (arith, fresh);
      delivered = ground (arith, fresh);
      tagged = λ x. ground arith;
    })).delivered
