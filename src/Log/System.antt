-- ===== src/Log/System.antt =====
-- The goroutines that use log/log.go concurrently. `CommitEntry` is not atomic: its `LoadOrStore`
-- is one step, the push to the out-of-order channels another, and its loop holds
-- `entryPublishLock` while other goroutines still store entries. One step of the relation is what a
-- goroutine does between two points at which others can interfere.
use orthrus.Prelude.{ℕ, ◌<◌, ◌≡◌, Option, none, some, lookup, max_int32, update}
use orthrus.Log.{
  Entry, Waiter, Log, empty_log, deliver, store, publish_out_of_order, subscribe,
  subscribe_out_of_order, wait_for_entry,
}

-- Where a goroutine stands in `CommitEntry`.
pub data Pc : Type 0 where
  outside : Pc
  stored : Entry → Pc
  announced : Pc
  publishing : Pc

pub record System : Type 0 where
  pub log : Log
  pub pc : ℕ → Pc
  pub holder : Option ℕ  -- the goroutine in the loop of `publishEntries`, which holds the lock

pub data Step (s t : System) : Type 0 where
  store_entry :
      (i : ℕ) (e : Entry)
      → s.pc i ≡ outside
      → lookup e.sn s.log.entries ≡ none
      → e.sn < max_int32
      → t ≡ record s { log = store s.log e; pc = update s.pc i (stored e) }
      → Step s t
  already_present :
      (i : ℕ) (e old : Entry)
      → s.pc i ≡ outside
      → lookup e.sn s.log.entries ≡ some old
      → t ≡ s
      → Step s t
  announce :
      (i : ℕ) (e : Entry)
      → s.pc i ≡ stored e
      → s.holder ≡ none
      → t ≡ record s { log = publish_out_of_order s.log e; pc = update s.pc i announced }
      → Step s t
  lock :
      (i : ℕ)
      → s.pc i ≡ announced
      → s.holder ≡ none
      → t ≡ record s { pc = update s.pc i publishing; holder = some i }
      → Step s t
  publish_next :
      (i : ℕ) (e : Entry)
      → s.pc i ≡ publishing
      → lookup s.log.first_empty_sn s.log.entries ≡ some e
      → t ≡ record s { log = deliver s.log e }
      → Step s t
  unlock :
      (i : ℕ)
      → s.pc i ≡ publishing
      → lookup s.log.first_empty_sn s.log.entries ≡ none
      → t ≡ record s { pc = update s.pc i outside; holder = none }
      → Step s t
  new_subscriber : s.holder ≡ none → t ≡ record s { log = subscribe s.log } → Step s t
  new_subscriber_out_of_order :
      s.holder ≡ none → t ≡ record s { log = subscribe_out_of_order s.log } → Step s t
  wait :
      (w : Waiter)
      → w.sn < 4294967296
      → s.holder ≡ none
      → t ≡ record s { log = (wait_for_entry s.log w).0 }
      → Step s t

abbrev pub initial : System
initial = record { log = empty_log; pc = λ i. outside; holder = none }

pub data Reach : System → Type 0 where
  start : (s : System) → s ≡ initial → Reach s
  next : {s t : System} → Reach s → Step s t → Reach t

-- A run of the goroutines from `r`.
pub data Run (r : System) : System → Type 0 where
  stay : (s : System) → s ≡ r → Run r s
  go : {s t : System} → Run r s → Step s t → Run r t
