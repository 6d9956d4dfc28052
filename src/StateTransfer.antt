-- ===== src/StateTransfer.antt =====
-- statetransfer/statetransfer.go: the entries that a node has missed are fetched from others. The thread of
-- `processMissingEntries` is a run over what it takes from its channels, the log is that of the node,
-- and messages and the handler of the orderer are appended to `calls`.
pub mod Fetching
mod Tests
use orthrus.Protobufs.{Batch}
use orthrus.Log.{Entry, Log, get_entry, commit_entry, missing}
use orthrus.Prelude.{
  ℕ, zero, suc, Bool, true, false, if◌then◌else◌, Option, none, some, List, [], ◌∷◌, ◌++◌, map,
  lookup, insert, delete, get_elem?,
}

pub record MissingEntryRequest : Type 0 where
  pub sn : ℕ
  pub payload_request : Bool

-- The dummy proof is left out, which nothing reads.
pub record MissingEntry : Type 0 where
  pub sn : ℕ
  pub batch : Option Batch
  pub digest : List ℕ
  pub aborted : Bool
  pub suspect : ℕ

pub data Call : Type 0 where
  enqueue_request : MissingEntryRequest → (receiver_id : ℕ) → Call
  enqueue_entry : MissingEntry → (receiver_id : ℕ) → Call
  orderer_entry_handler : Entry → Call

-- `missing_entries` maps a sequence number to the one that the object holds.
pub record Transfer : Type 0 where
  pub missing_entries : List (ℕ × ℕ)
  pub log : Log
  pub calls : List Call

unfoldable pub call : Call → Transfer → Transfer
call c st = record st { calls = st.calls ++ c ∷ [] }

unfoldable pub response_of : Entry → Bool → MissingEntry
response_of entry payload_request = record {
  sn = entry.sn;
  batch = if payload_request then entry.batch else none;
  digest = entry.digest;
  aborted = entry.aborted;
  suspect = entry.suspect;
}

-- `handleRequest`
unfoldable pub handle_request : MissingEntryRequest → ℕ → Transfer → Transfer
unfolding call response_of
handle_request req sender_id st = elim (get_entry st.log req.sn) [
  | none ↦ st
  | some entry ↦ call (Call.enqueue_entry (response_of entry req.payload_request) sender_id) st
]

-- The entry of a response, which has no time of its proposal; `now` is the clock.
unfoldable pub fetched : ℕ → MissingEntry → Entry
fetched now resp = record {
  sn = resp.sn;
  batch = resp.batch;
  digest = resp.digest;
  aborted = resp.aborted;
  suspect = resp.suspect;
  propose_ts = 0;
  commit_ts = now;
}

-- `processResponse`; `verifyResponse` accepts every response.
unfoldable pub process_response : ℕ → MissingEntry → Transfer → Transfer
unfolding call fetched
process_response now resp st = elim (lookup resp.sn st.missing_entries) [
  | none ↦ st
  | some me ↦ call (Call.orderer_entry_handler (fetched now resp)) (record st {
    missing_entries = delete resp.sn st.missing_entries;
    log = commit_entry st.log (fetched now resp);
  })
]

-- What `processMissingEntries` takes from its channels.
pub data Event : Type 0 where
  new_missing_entry : (sn : ℕ) → Event
  received_entry : (now : ℕ) → MissingEntry → Event

unfoldable pub process_event : Event → Transfer → Transfer
unfolding process_response
process_event (Event.new_missing_entry sn) st = record st {
  missing_entries = insert sn sn st.missing_entries;
}
process_event (Event.received_entry now resp) st = process_response now resp st

unfoldable pub process_missing_entries : List Event → Transfer → Transfer
unfolding process_event
process_missing_entries [] st = st
process_missing_entries (e ∷ events) st = process_missing_entries events (process_event e st)

-- The list `sources` of `CatchUp`: the peers of the proof are appended to as many zeros.
unfoldable pub catch_up_sources : List ℕ → List ℕ
catch_up_sources proof = map (λ peer_id. 0) proof ++ proof

-- The sequence numbers that `CatchUp` fetches, one goroutine for each.
unfoldable pub catch_up : Log → (checkpoint_sn : ℕ) → List ℕ
catch_up log checkpoint_sn = missing log checkpoint_sn

-- The loop of `FetchMissingEntry` over the shuffled sources, for a number of rounds in which the log may
-- change; `logs` holds the log at the test of each. `none` where it panics, for no source.
unfoldable pub fetch_loop : ℕ → List ℕ → List Log → List Call → Option (List Call)
fetch_loop sn sources [] calls = some calls
fetch_loop sn sources (log ∷ logs) calls = elim (get_entry log sn) [
  | some entry ↦ some calls
  | none ↦ elim (get_elem? sources 0) [
    | none ↦ none
    | some source ↦
        fetch_loop sn sources logs
          (calls ++ Call.enqueue_request (record { sn = sn; payload_request = true }) source ∷ [])
  ]
]
