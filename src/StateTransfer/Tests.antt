-- ===== src/StateTransfer/Tests.antt =====
-- Tests of the state transfer, and its theorems at concrete inputs.
use orthrus.Log.{
  Entry, Log, empty_log, commit_entry, get_entry, publish_entries, publish_out_of_order, store,
}
use orthrus.Log.Invariant.{empty_log-IsWellFormed}
use orthrus.Log.Commit.{IsQuiet}
use orthrus.StateTransfer.{
  MissingEntry, Call, Transfer, Event, response_of, handle_request, process_response,
  process_missing_entries, catch_up_sources, fetch_loop,
}
use orthrus.StateTransfer.Fetching.{
  handled, asked, fetched_of, process_missing_entries-once, process_response-handle_request,
}
use orthrus.Prelude.{
  ℕ, ◌≡◌, ◌≤◌, refl, false, true, none, some, List, [], ◌∷◌, arith, count, lookup,
}

abbrev entry : ℕ → Entry
entry n = record {
  sn = n;
  batch = some (record { requests = [] });
  digest = n ∷ [];
  aborted = false;
  suspect = 0;
  propose_ts = 3;
  commit_ts = 4;
}

abbrev answer : MissingEntry
answer = record { sn = 2; batch = none; digest = 2 ∷ []; aborted = false; suspect = 0 }

-- The first node is asked, though the proof does not name it.
sources : catch_up_sources (1 ∷ 3 ∷ []) ≡ 0 ∷ 0 ∷ 1 ∷ 3 ∷ []
unfolding catch_up_sources
sources = refl

abbrev with_entry : Log
with_entry = commit_entry empty_log (entry 2)

-- The source does not change between two rounds.
rounds :
    fetch_loop 2 (3 ∷ 1 ∷ []) (empty_log ∷ empty_log ∷ with_entry ∷ []) []
    ≡ some (
        Call.enqueue_request (record { sn = 2; payload_request = true }) 3
        ∷ Call.enqueue_request (record { sn = 2; payload_request = true }) 3
        ∷ [])
unfolding fetch_loop get_entry empty_log commit_entry publish_entries publish_out_of_order store
rounds = refl

abbrev events : List Event
events =
    Event.new_missing_entry 2 ∷ Event.received_entry 9 answer ∷ Event.received_entry 10 answer ∷ []

-- Of two responses the second is ignored.
second_ignored :
    handled
      (process_missing_entries events
        (record { missing_entries = []; log = empty_log; calls = [] })).calls
    ≡ 2 ∷ []
unfolding process_missing_entries
second_ignored = refl

process_missing_entries-once_example :
    count 2 (
      handled
        (process_missing_entries events
          (record { missing_entries = []; log = empty_log; calls = [] })).calls)
    ≤ count 2 (asked events)
process_missing_entries-once_example = process_missing_entries-once 2 events empty_log

empty_log-IsQuiet : IsQuiet empty_log
unfolding empty_log
empty_log-IsQuiet = record { well_formed = empty_log-IsWellFormed; stopped = refl }

abbrev source : Transfer
source = record { missing_entries = []; log = with_entry; calls = [] }

abbrev waiting : Transfer
waiting = record { missing_entries = (2, 2) ∷ []; log = empty_log; calls = [] }

process_response-handle_request_example :
    let reply = response_of (entry 2) true in
    let later = process_response 9 reply waiting in
    ((handle_request (record { sn = 2; payload_request = true }) 5 source).calls
      ≡ Call.enqueue_entry reply 5 ∷ [])
    × (get_entry later.log 2 ≡ some (fetched_of 9 (entry 2)))
    × (lookup 2 later.missing_entries ≡ none)
unfolding get_entry empty_log commit_entry publish_entries publish_out_of_order store
process_response-handle_request_example =
    process_response-handle_request 9 (entry 2) 5 2 source waiting 2 refl empty_log-IsQuiet
      (omega arith) refl refl
