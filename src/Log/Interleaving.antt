-- ===== src/Log/Interleaving.antt =====
-- What holds of the log in every reachable state of its goroutines, and what holds once no
-- `CommitEntry` is under way.
use orthrus.Prelude.{
  ℕ, ◌≡◌, inl, inr, Bool, true, false, some, lookup, arith, Option-cases, lookup-insert,
}
use orthrus.Log.{
  Entry, Waiter, Log, empty_log, deliver, store, publish_out_of_order, subscribe,
  subscribe_out_of_order, wait_for_entry, get_entry,
}
use orthrus.Log.Commit.{IsQuiet}
use orthrus.Log.Invariant.{
  IsWellFormed, empty_log-IsWellFormed, deliver-IsWellFormed, store-IsWellFormed,
  publish_out_of_order-IsWellFormed, subscribe-IsWellFormed, subscribe_out_of_order-IsWellFormed,
  wait_for_entry-IsWellFormed,
}
use orthrus.Log.System.{
  Pc, outside, publishing, System, Step, store_entry, already_present, announce, lock, publish_next,
  unlock, new_subscriber, new_subscriber_out_of_order, wait, initial, Reach, start, next,
}

-- A goroutine that has stored an entry and not yet left the loop.
abbrev pub is_pending : Pc → Bool
is_pending outside = false
is_pending _ = true

abbrev is_publishing : Pc → Bool
is_publishing publishing = true
is_publishing _ = false

pub record Inv (s : System) : Type 0 where
  pub well_formed : IsWellFormed s.log
  pub covered :
      (e : Entry)
      → lookup s.log.first_empty_sn s.log.entries ≡ some e
      → (i : ℕ) × (is_pending (s.pc i) ≡ true)
  pub exclusive : (i : ℕ) → is_publishing (s.pc i) ≡ true → s.holder ≡ some i

pub wait_for_entry_keeps :
    (l : Log) (w : Waiter)
    → ((wait_for_entry l w).0.entries ≡ l.entries)
      × ((wait_for_entry l w).0.first_empty_sn ≡ l.first_empty_sn)
      × ((wait_for_entry l w).0.log_subscribers ≡ l.log_subscribers)
unfolding wait_for_entry
wait_for_entry_keeps l w = ground arith

Step-IsWellFormed : (s t : System) → Step s t → IsWellFormed s.log → IsWellFormed t.log
Step-IsWellFormed s t (store_entry i e _ free small q) v =
    rw q (store-IsWellFormed s.log e free small v)
Step-IsWellFormed s t (already_present i e old _ _ q) v = rw q v
Step-IsWellFormed s t (announce i e _ _ q) v = rw q (publish_out_of_order-IsWellFormed s.log e v)
Step-IsWellFormed s t (lock i _ _ q) v = rw q v
Step-IsWellFormed s t (publish_next i e _ at q) v = rw q (deliver-IsWellFormed s.log e at v)
Step-IsWellFormed s t (unlock i _ _ q) v = rw q v
Step-IsWellFormed s t (new_subscriber _ q) v = rw q (subscribe-IsWellFormed s.log v)
Step-IsWellFormed s t (new_subscriber_out_of_order _ q) v =
    rw q (subscribe_out_of_order-IsWellFormed s.log v)
Step-IsWellFormed s t (wait w small _ q) v = rw q (wait_for_entry-IsWellFormed s.log w v small)

Step-covered :
    (s t : System)
    → Step s t
    → Inv s
    → (e : Entry) → lookup t.log.first_empty_sn t.log.entries ≡ some e
    → (i : ℕ) × (is_pending (t.pc i) ≡ true)
unfolding store publish_out_of_order subscribe subscribe_out_of_order
Step-covered s t (store_entry i e0 _ free small q) inv e h = (i, ground arith)
Step-covered s t (already_present i e0 old _ _ q) inv e h = rw q (inv.covered e (rw q at h))
Step-covered s t (announce i e0 _ _ q) inv e h =
    let (j, p) = inv.covered e (rw q at h) in (j, ground arith)
Step-covered s t (lock i _ _ q) inv e h =
    let (j, p) = inv.covered e (rw q at h) in (j, ground arith)
Step-covered s t (publish_next i e0 p at q) inv e h = (i, ground arith)
Step-covered s t (unlock i p at q) inv e h = absurd (ground arith)
Step-covered s t (new_subscriber _ q) inv e h = rw q (inv.covered e (rw q at h))
Step-covered s t (new_subscriber_out_of_order _ q) inv e h = rw q (inv.covered e (rw q at h))
Step-covered s t (wait w small _ q) inv e h =
    rw q (inv.covered e (ground (arith, wait_for_entry_keeps s.log w)))

Step-exclusive :
    (s t : System) → Step s t → Inv s → (i : ℕ) → is_publishing (t.pc i) ≡ true → t.holder ≡ some i
Step-exclusive s t (store_entry i e0 _ free small q) inv j h = ground (arith, inv.exclusive j)
Step-exclusive s t (already_present i e0 old _ _ q) inv j h = ground (arith, inv.exclusive j)
Step-exclusive s t (announce i e0 _ _ q) inv j h = ground (arith, inv.exclusive j)
Step-exclusive s t (lock i _ free q) inv j h = ground (arith, inv.exclusive j)
Step-exclusive s t (publish_next i e0 p at q) inv j h = ground (arith, inv.exclusive j)
Step-exclusive s t (unlock i p at q) inv j h = ground (arith, inv.exclusive j, inv.exclusive i)
Step-exclusive s t (new_subscriber _ q) inv j h = ground (arith, inv.exclusive j)
Step-exclusive s t (new_subscriber_out_of_order _ q) inv j h = ground (arith, inv.exclusive j)
Step-exclusive s t (wait w small _ q) inv j h = ground (arith, inv.exclusive j)

pub Step-Inv : (s t : System) → Step s t → Inv s → Inv t
Step-Inv s t st inv = record {
  well_formed = Step-IsWellFormed s t st inv.well_formed;
  covered = Step-covered s t st inv;
  exclusive = Step-exclusive s t st inv;
}

initial-Inv : Inv initial
unfolding empty_log
initial-Inv = record {
  well_formed = empty_log-IsWellFormed;
  covered = λ e h. absurd (cc);
  exclusive = λ i h. cc;
}

-- In every reachable state the log is well formed (so each in-order channel holds the delivered
-- entries of consecutive sequence numbers, from some one on, each once and in order, up to the first empty slot,
-- and a released waiter's entry and all before it are committed), an entry at the first empty slot has
-- a goroutine on its way to deliver it, and at most one goroutine is in the loop.
pub Reach-Inv : (s : System) → Reach s → Inv s
Reach-Inv s (start _ q) = rw q initial-Inv
Reach-Inv s (next {s = r} reach st) = Step-Inv r s st (Reach-Inv r reach)

-- In a reachable state in which no goroutine is inside `CommitEntry`, the slot at `firstEmptySN` is empty.
pub Reach-IsQuiet : (s : System) → Reach s → ((i : ℕ) → s.pc i ≡ outside) → IsQuiet s.log
Reach-IsQuiet s r idle = elim (Option-cases (lookup s.log.first_empty_sn s.log.entries)) [
  | inl h ↦ record { well_formed = inv.well_formed; stopped = h }
  | inr (e, h) ↦ let (i, p) = inv.covered e h in absurd (ground (arith, idle i))
]
  where
    inv : Inv s
    inv = Reach-Inv s r

-- A committed entry stays: no step changes what `GetEntry` returns for a slot that is filled.
pub get_entry-Step :
    (s t : System) (sn : ℕ) (e : Entry)
    → Step s t
    → get_entry s.log sn ≡ some e
    → get_entry t.log sn ≡ some e
unfolding get_entry store publish_out_of_order deliver subscribe subscribe_out_of_order
get_entry-Step s t sn e (store_entry i e0 _ free small q) h =
    ground (arith, lookup-insert e0.sn sn e0 s.log.entries)
get_entry-Step s t sn e (wait w small _ q) h = ground (arith, wait_for_entry_keeps s.log w)
get_entry-Step s t sn e (already_present i e0 old _ _ q) h = rw q h
get_entry-Step s t sn e (announce i e0 _ _ q) h = rw q h
get_entry-Step s t sn e (lock i _ _ q) h = rw q h
get_entry-Step s t sn e (publish_next i e0 p at q) h = rw q h
get_entry-Step s t sn e (unlock i p at q) h = rw q h
get_entry-Step s t sn e (new_subscriber _ q) h = rw q h
get_entry-Step s t sn e (new_subscriber_out_of_order _ q) h = rw q h
