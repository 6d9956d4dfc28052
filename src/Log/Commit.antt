-- ===== src/Log/Commit.antt =====
-- `CommitEntry` run to its end: its loop ends, the log stays well formed, and afterwards the first
-- empty slot is empty.
use orthrus.Prelude.{
  ℕ, zero, suc, ◌+◌, ◌≤◌, ◌<◌, ◌≡◌, refl, ◌∙◌, inl, inr, none, some, List, [], ◌∷◌, lookup, insert,
  lookup-insert, arith, max_int32, length, add32_small, Option-cases, if◌then◌else◌, ◌==◌, leb,
}
use orthrus.Log.{
  Entry, Log, deliver, publish_entries, store, publish_out_of_order, commit_entry, get_entry,
}
use orthrus.Log.Invariant.{
  IsWellFormed, deliver-IsWellFormed, store-IsWellFormed, publish_out_of_order-IsWellFormed,
}

-- How many of the entries are stored at or above a position.
ahead : ℕ → List (ℕ × Entry) → ℕ
ahead k [] = 0
ahead k ((j, e) ∷ es) = (if leb k j then 1 else 0) + ahead k es

ahead-le : (k : ℕ) (es : List (ℕ × Entry)) → ahead k es ≤ length es
unfolding ahead
ahead-le k [] = omega arith
ahead-le k ((j, e) ∷ es) = ground (arith, ahead-le k es)

ahead_mono : (k : ℕ) (es : List (ℕ × Entry)) → ahead (suc k) es ≤ ahead k es
unfolding ahead
ahead_mono k [] = omega arith
ahead_mono k ((j, e) ∷ es) = ground (arith, ahead_mono k es)

ahead_falls :
    (k : ℕ) (e : Entry) (es : List (ℕ × Entry))
    → lookup k es ≡ some e
    → ahead (suc k) es < ahead k es
unfolding ahead
ahead_falls k e [] h = cc
ahead_falls k e ((j, e') ∷ es) h = ground (arith, ahead_falls k e es, ahead_mono k es)

deliver_first :
    (l : Log) (e : Entry)
    → lookup l.first_empty_sn l.entries ≡ some e
    → IsWellFormed l
    → (deliver l e).first_empty_sn ≡ suc l.first_empty_sn
unfolding deliver
deliver_first l e at v =
    let below : l.first_empty_sn < max_int32 = (v.named _ e at).1 in
    omega (arith, add32_small l.first_empty_sn 1)

deliver_entries : (l : Log) (e : Entry) → (deliver l e).entries ≡ l.entries
unfolding deliver
deliver_entries l e = refl

-- What the loop guarantees, whatever the fuel: an invariant log with the same entries.
pub publish_entries-IsWellFormed :
    (fuel : ℕ) (l : Log)
    → IsWellFormed l
    → IsWellFormed (publish_entries fuel l) × ((publish_entries fuel l).entries ≡ l.entries)
unfolding publish_entries
publish_entries-IsWellFormed zero l v = (v, refl)
publish_entries-IsWellFormed (suc fuel) l v =
    elim (Option-cases (lookup l.first_empty_sn l.entries)) [
      | inl e ↦ rw (e, publish_entries) (v, refl)
      | inr (x, e) ↦
          rw (e, publish_entries)
            (let (v', s) =
                publish_entries-IsWellFormed fuel (deliver l x) (deliver-IsWellFormed l x e v) in
              (v', s ∙ deliver_entries l x))
    ]

-- The loop ends by its test when the fuel exceeds the number of entries still ahead.
publish_entries_ends :
    (fuel : ℕ) (l : Log)
    → IsWellFormed l
    → ahead l.first_empty_sn l.entries < fuel
    → lookup (publish_entries fuel l).first_empty_sn (publish_entries fuel l).entries ≡ none
unfolding publish_entries
publish_entries_ends zero l v h = elim h [ ]
publish_entries_ends (suc fuel) l v h = elim (Option-cases (lookup l.first_empty_sn l.entries)) [
  | inl e ↦ rw (e, publish_entries) e
  | inr (x, e) ↦
      rw (e, publish_entries)
        (publish_entries_ends fuel (deliver l x) (deliver-IsWellFormed l x e v) (
          rw (deliver_first l x e v, deliver_entries l x)
            (omega (arith, ahead_falls l.first_empty_sn x l.entries e))))
]

length-insert :
    (k : ℕ) (e : Entry) (es : List (ℕ × Entry)) → length (insert k e es) ≤ suc (length es)
length-insert k e [] = omega arith
length-insert k e ((j, e') ∷ es) = ground (arith, length-insert k e es)

-- No slot below the first empty one is empty, and that one is.
pub record IsQuiet (l : Log) : Type 0 where
  pub well_formed : IsWellFormed l
  pub stopped : lookup l.first_empty_sn l.entries ≡ none

-- `CommitEntry` of an entry with a non-negative sequence number below the largest `int32` keeps the
-- log well formed and its loop delivers until the first empty slot is reached.
pub commit_entry-IsQuiet :
    (l : Log) (e : Entry) → IsQuiet l → e.sn < max_int32 → IsQuiet (commit_entry l e)
unfolding commit_entry
commit_entry-IsQuiet l e q small = elim (Option-cases (lookup e.sn l.entries)) [
  | inr (old, h) ↦ rw (h, commit_entry) q
  | inl h ↦ rw (h, commit_entry) (finish h)
]
  where
    stored : Log
    stored = publish_out_of_order (store l e) e

    finish :
        lookup e.sn l.entries ≡ none
        → IsQuiet (publish_entries (suc (suc (length l.entries))) stored)
    finish h =
        let v =
          publish_out_of_order-IsWellFormed (store l e) e
            (store-IsWellFormed l e h small q.well_formed) in
        record {
          well_formed = (publish_entries-IsWellFormed (suc (suc (length l.entries))) stored v).0;
          stopped = publish_entries_ends (suc (suc (length l.entries))) stored v (
              unfold store publish_out_of_order in
              omega (
                arith,
                ahead-le l.first_empty_sn (insert e.sn e l.entries),
                length-insert e.sn e l.entries,
              ));
        }

-- After `CommitEntry(e)` the slot of `e` holds what it held before, or else `e`, and every other
-- slot is unchanged.
pub get_entry-commit_entry :
    (l : Log) (e : Entry) (sn : ℕ)
    → IsQuiet l
    → e.sn < max_int32
    → get_entry (commit_entry l e) sn ≡ (
        if e.sn == sn
        then elim (get_entry l sn) [ none ↦ some e | some old ↦ some old ]
        else get_entry l sn)
unfolding commit_entry get_entry
get_entry-commit_entry l e sn q small = elim (Option-cases (lookup e.sn l.entries)) [
  | inr (old, h) ↦ ground arith
  | inl h ↦
      let v =
        publish_out_of_order-IsWellFormed (store l e) e
          (store-IsWellFormed l e h small q.well_formed) in
      let same =
        (publish_entries-IsWellFormed (suc (suc (length l.entries)))
          (publish_out_of_order (store l e) e) v).1 in
      rw (h, commit_entry)
        (unfold store publish_out_of_order in
          ground (arith, same, lookup-insert e.sn sn e l.entries))
]
