-- ===== src/StateTransfer/Fetching.antt =====
-- A missing entry is handled at most once for each time it is asked for, and is the entry of the node that
-- answers.
use orthrus.Log.{Entry, Log, get_entry, commit_entry}
use orthrus.Log.Commit.{IsQuiet, get_entry-commit_entry}
use orthrus.StateTransfer.{
  MissingEntry, Call, Transfer, Event, call, response_of, handle_request, fetched, process_response,
  process_event, process_missing_entries,
}
use orthrus.Prelude.{
  ℕ, ◌+◌, ◌==◌, ◌≡◌, ◌≤◌, ◌<◌, ◌∙◌, refl, sym, ap, inl, inr, true, if◌then◌else◌, none, some, List,
  [], ◌∷◌, ◌++◌, arith, max_int32, count, count-append, lookup, insert, delete, lookup-insert,
  lookup-delete, Bool-cases, Option-cases, ==_iff,
}

abbrev pub call_handled : Call → List ℕ
call_handled (Call.orderer_entry_handler entry) = entry.sn ∷ []
call_handled c = []

-- The sequence numbers whose entries the orderer was given.
abbrev pub handled : List Call → List ℕ
handled [] = []
handled (c ∷ cs) = call_handled c ++ handled cs

-- Those that were asked for.
abbrev pub asked : List Event → List ℕ
asked [] = []
asked (Event.new_missing_entry sn ∷ events) = sn ∷ asked events
asked (Event.received_entry now resp ∷ events) = asked events

count-handled :
    (sn : ℕ) (c : Call) (cs : List Call)
    → count sn (handled (cs ++ c ∷ [])) ≡ count sn (handled cs) + count sn (call_handled c)
count-handled sn c [] = omega (arith, count-append sn (call_handled c) [])
count-handled sn c (d ∷ cs) = omega (
  arith,
  count-append sn (call_handled d) (handled (cs ++ c ∷ [])),
  count-append sn (call_handled d) (handled cs),
  count-handled sn c cs,
)

waits_of : ℕ → List (ℕ × ℕ) → ℕ
waits_of sn m = elim (lookup sn m) [ none ↦ 0 | some me ↦ 1 ]

waits-insert :
    (sn k : ℕ) (m : List (ℕ × ℕ))
    → waits_of sn (insert k k m) ≤ waits_of sn m + (if k == sn then 1 else 0)
unfolding waits_of
waits-insert sn k m = elim (Bool-cases (k == sn)) [
  | inl e ↦ rw (waits_of, lookup-insert k sn k m, e) (omega arith)
  | inr e ↦ rw (waits_of, lookup-insert k sn k m, e) (omega arith)
]

waits-delete :
    (sn k me : ℕ) (m : List (ℕ × ℕ))
    → lookup k m ≡ some me
    → waits_of sn (delete k m) + (if k == sn then 1 else 0) ≤ waits_of sn m
unfolding waits_of
waits-delete sn k me m h = elim (Bool-cases (k == sn)) [
  | inl e ↦
      rw (waits_of, lookup-delete k sn m, e, sym (ap (λ j. lookup j m) ((==_iff k sn).0 e)) ∙ h)
        (omega arith)
  | inr e ↦ rw (waits_of, lookup-delete k sn m, e) (omega arith)
]

response-once :
    (sn now : ℕ) (resp : MissingEntry) (st : Transfer)
    → count sn (handled (process_response now resp st).calls)
        + waits_of sn (process_response now resp st).missing_entries
      ≤ count sn (handled st.calls) + waits_of sn st.missing_entries
unfolding process_response call fetched
response-once sn now resp st = elim (Option-cases (lookup resp.sn st.missing_entries)) [
  | inl n ↦ rw (n, process_response) (omega arith)
  | inr me ↦
      rw (me.1, process_response)
        (omega (
          arith,
          count-handled sn (Call.orderer_entry_handler (fetched now resp)) st.calls,
          waits-delete sn resp.sn me.0 st.missing_entries me.1,
        ))
]

event-once :
    (sn : ℕ) (e : Event) (st : Transfer)
    → count sn (handled (process_event e st).calls)
        + waits_of sn (process_event e st).missing_entries
      ≤ count sn (handled st.calls) + waits_of sn st.missing_entries + count sn (asked (e ∷ []))
unfolding process_event
event-once sn (Event.new_missing_entry k) st = omega (arith, waits-insert sn k st.missing_entries)
event-once sn (Event.received_entry now resp) st = omega (arith, response-once sn now resp st)

asked-cons :
    (sn : ℕ) (e : Event) (events : List Event)
    → count sn (asked (e ∷ events)) ≡ count sn (asked (e ∷ [])) + count sn (asked events)
asked-cons sn (Event.new_missing_entry k) events = omega arith
asked-cons sn (Event.received_entry now resp) events = omega arith

run-once :
    (sn : ℕ) (events : List Event) (st : Transfer)
    → count sn (handled (process_missing_entries events st).calls)
        + waits_of sn (process_missing_entries events st).missing_entries
      ≤ count sn (handled st.calls) + waits_of sn st.missing_entries + count sn (asked events)
unfolding process_missing_entries
run-once sn [] st = omega arith
run-once sn (e ∷ events) st =
    omega
      (arith, event-once sn e st, run-once sn events (process_event e st), asked-cons sn e events)

-- In a run of processMissingEntries in which nothing waits at the start and nothing has been handled, the
-- orderer is given an entry for a sequence number at most as often as FetchMissingEntry asked for it,
-- however many responses come, asked for or not.
pub process_missing_entries-once :
    (sn : ℕ) (events : List Event) (log : Log)
    → count sn (
        handled
          (process_missing_entries events
            (record { missing_entries = []; log = log; calls = [] })).calls)
      ≤ count sn (asked events)
unfolding waits_of
process_missing_entries-once sn events log =
    omega (arith, run-once sn events (record { missing_entries = []; log = log; calls = [] }))

-- The entry `e` as another node has it that fetched it.
abbrev pub fetched_of : ℕ → Entry → Entry
fetched_of now e = record e { propose_ts = 0; commit_ts = now }

get_entry-commit_entry_empty :
    (l : Log) (e : Entry) (sn : ℕ)
    → IsQuiet l
    → e.sn < max_int32
    → get_entry l e.sn ≡ none
    → get_entry (commit_entry l e) sn ≡ (if e.sn == sn then some e else get_entry l sn)
get_entry-commit_entry_empty l e sn q small empty = elim (Bool-cases (e.sn == sn)) [
  | inl same ↦
      rw
        (
          get_entry-commit_entry l e sn q small,
          same,
          sym (ap (get_entry l) ((==_iff e.sn sn).0 same)) ∙ empty,
        )
        refl
  | inr other ↦ rw (get_entry-commit_entry l e sn q small, other) refl
]

-- A node that has the entry `e` answers a request for it, with its payload, by one message to the sender;
-- a node that waits for that sequence number and has no entry for it, on a quiet log, has after the
-- response the entry `e`, but for its times; no other slot of its log has changed, and it waits for it no
-- longer.
pub process_response-handle_request :
    (now : ℕ) (e : Entry) (sender_id me : ℕ) (source st : Transfer) (sn : ℕ)
    → get_entry source.log e.sn ≡ some e
    → IsQuiet st.log
    → e.sn < max_int32
    → lookup e.sn st.missing_entries ≡ some me
    → get_entry st.log e.sn ≡ none
    → let answer = response_of e true in
      let later = process_response now answer st in
      ((handle_request (record { sn = e.sn; payload_request = true }) sender_id source).calls
        ≡ source.calls ++ Call.enqueue_entry answer sender_id ∷ [])
      × (get_entry later.log sn
          ≡ (if e.sn == sn then some (fetched_of now e) else get_entry st.log sn))
      × (lookup e.sn later.missing_entries ≡ none)
unfolding handle_request process_response call response_of fetched
process_response-handle_request now e sender_id me source st sn has quiet small waiting empty = (
  rw (has, handle_request) refl,
  rw (waiting, process_response)
      (get_entry-commit_entry_empty st.log (fetched_of now e) sn quiet small empty),
  rw (waiting, process_response) (ground (arith, lookup-delete e.sn e.sn st.missing_entries)),
)
