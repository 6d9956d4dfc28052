-- ===== src/Log.antt =====
-- log/log.go and log/entry.go: the log of committed entries. The package's variables are the
-- fields of `Log`; a channel is the list of what was pushed to it so far, so a full channel,
-- on which a push would block until its reader takes an item, holds any number of items.
-- `Log/Delivery` has the in-order channels, `Log/System` the goroutines and their interleavings.
pub mod Delivery
pub mod Commit
pub mod Missing
pub mod System
pub mod Interleaving
pub mod Delivered
pub mod Invariant
pub mod Checkpoints
mod Tests
use orthrus.Prelude.{
  ℕ, zero, suc, ◌+◌, ◌-◌, Bool, true, false, if◌then◌else◌, Option, none, some, List, [], ◌∷◌, ◌++◌,
  map, lookup, insert, delete, length, add32, lt32, le32,
}
use orthrus.Protobufs.{Batch}

pub record Entry : Type 0 where
  pub sn : ℕ
  pub batch : Option Batch
  pub digest : List ℕ
  pub aborted : Bool
  pub suspect : ℕ
  pub propose_ts : ℕ
  pub commit_ts : ℕ

-- The channel that a call `WaitForEntry(sn)` of a goroutine makes, named by that call.
pub record Waiter : Type 0 where
  pub sn : ℕ
  pub goroutine : ℕ

pub record Log : Type 0 where
  pub entries : List (ℕ × Entry)
  pub log_subscribers : List (List Entry)
  pub log_subscribers_out_of_order : List (List Entry)
  pub entry_subscribers : List (ℕ × List Waiter)
  pub released : List Waiter  -- the channels to which `true` was pushed
  pub first_empty_sn : ℕ

unfoldable pub empty_log : Log
empty_log = record {
  entries = [];
  log_subscribers = [];
  log_subscribers_out_of_order = [];
  entry_subscribers = [];
  released = [];
  first_empty_sn = 0;
}

unfoldable pub publish_entry : Entry → List (List Entry) → List (List Entry)
publish_entry e [] = []
publish_entry e (c ∷ cs) = (c ++ e ∷ []) ∷ publish_entry e cs

-- Nothing for an entry without a batch.
unfoldable pub publish_in_order : Entry → List (List Entry) → List (List Entry)
publish_in_order e cs = elim e.batch [ none ↦ cs | some b ↦ publish_entry e cs ]

unfoldable pub waiters_for : ℕ → List (ℕ × List Waiter) → List Waiter
waiters_for sn m = elim (lookup sn m) [ none ↦ [] | some ws ↦ ws ]

-- One round of the loop of `publishEntries`, for the entry at `firstEmptySN`.
unfoldable pub deliver : Log → Entry → Log
deliver l e = record l {
  log_subscribers = publish_in_order e l.log_subscribers;
  released = l.released ++ waiters_for l.first_empty_sn l.entry_subscribers;
  entry_subscribers = delete l.first_empty_sn l.entry_subscribers;
  first_empty_sn = add32 l.first_empty_sn 1;
}

-- The loop of `publishEntries`; the first argument is the fuel.
unfoldable pub publish_entries : ℕ → Log → Log
publish_entries zero l = l
publish_entries (suc fuel) l = elim (lookup l.first_empty_sn l.entries) [
  | none ↦ l
  | some e ↦ publish_entries fuel (deliver l e)
]

unfoldable pub store : Log → Entry → Log
store l e = record l { entries = insert e.sn e l.entries }

unfoldable pub publish_out_of_order : Log → Entry → Log
publish_out_of_order l e = record l {
  log_subscribers_out_of_order = publish_entry e l.log_subscribers_out_of_order;
}

-- `CommitEntry` run to its end by one goroutine.
unfoldable pub commit_entry : Log → Entry → Log
commit_entry l e = elim (lookup e.sn l.entries) [
  | none ↦ publish_entries (suc (suc (length l.entries))) (publish_out_of_order (store l e) e)
  | some old ↦ l
]

unfoldable pub get_entry : Log → ℕ → Option Entry
get_entry l sn = lookup sn l.entries

-- The loop of `Missing`; the first argument is the fuel.
unfoldable pub missing_loop : ℕ → Log → ℕ → ℕ → List ℕ
missing_loop zero l sn until = []
missing_loop (suc fuel) l sn until = elim (le32 sn until) [
  | false ↦ []
  | true ↦ elim (lookup sn l.entries) [
    | none ↦ sn ∷ missing_loop fuel l (add32 sn 1) until
    | some e ↦ missing_loop fuel l (add32 sn 1) until
  ]
]

unfoldable pub missing : Log → ℕ → List ℕ
missing l until = missing_loop (suc (suc until - l.first_empty_sn)) l l.first_empty_sn until

-- `Entries`: a new channel, empty at first.
unfoldable pub subscribe : Log → Log
subscribe l = record l { log_subscribers = l.log_subscribers ++ [] ∷ [] }

-- `EntriesOutOfOrder`.
unfoldable pub subscribe_out_of_order : Log → Log
subscribe_out_of_order l = record l {
  log_subscribers_out_of_order = l.log_subscribers_out_of_order ++ [] ∷ [];
}

-- `WaitForEntry` up to its block on the channel: `true` if it returns at once.
unfoldable pub wait_for_entry : Log → Waiter → Log × Bool
unfolding waiters_for
wait_for_entry l w = if lt32 w.sn l.first_empty_sn then (l, true) else (
  record l {
    entry_subscribers =
        insert w.sn (waiters_for w.sn l.entry_subscribers ++ w ∷ []) l.entry_subscribers;
  },
  false,
)
