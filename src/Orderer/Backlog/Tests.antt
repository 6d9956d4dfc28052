-- ===== src/Orderer/Backlog/Tests.antt =====
-- A run of the backlog: messages before and after the subscription, and an earlier epoch that ends.
use orthrus.Prelude.{ℕ, ◌≡◌, refl, true, some, List, [], ◌∷◌, arith, le32}
use orthrus.Manager.Segments.{Segment}
use orthrus.Orderer.Backlog.{
  new_orderer_channel, channel_of, new_backlog, Event, message, subscribe, gc, stop_at, process,
}
use orthrus.Orderer.Backlog.Channels.{of_sn}
use orthrus.Orderer.Backlog.Delivery.{messages, in_use, process-delivered}

abbrev segment : Segment
segment = record {
  seg_id = 0;
  leaders = 1 ∷ [];
  followers = [];
  sns = 12 ∷ 14 ∷ [];
  first_sn = 12;
  last_sn = some 14;
  len = 2;
  starts_after = 11;
  buckets = [];
  batch_size = 8;
}

abbrev from : ℕ → ℕ → Event
from sender n = message (record { sender_id = sender; sn = n; msg = [] })

abbrev events : List Event
events =
    from 0 12
    ∷ from 1 13
    ∷ from 2 12
    ∷ gc 9
    ∷ subscribe (record { segment = segment; serializer = 5 })
    ∷ from 0 14
    ∷ from 3 12
    ∷ stop_at 6
    ∷ []

fresh : channel_of 5 [] ≡ new_orderer_channel
unfolding channel_of
fresh = refl

in_use12 : in_use 12 5 events ≡ true
unfolding le32
in_use12 = refl

process-delivered_example :
    of_sn 12 (channel_of 5 (process (new_backlog []) events).heap).channel
    ≡ of_sn 12 (messages events)
process-delivered_example = process-delivered 12 5 [] events (omega arith) fresh in_use12 refl
