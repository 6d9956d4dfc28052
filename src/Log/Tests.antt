-- ===== src/Log/Tests.antt =====
-- Tests of the log, and its theorems at concrete inputs.
use orthrus.Prelude.{
  contains, leb, ◌&&◌, get_elem?, ◌-◌, ◌++◌, ℕ, ◌≡◌, refl, false, none, some, [], ◌∷◌, arith, add32,
  lt32, le32, All, update,
}
use orthrus.Log.{
  Entry, Log, empty_log, deliver, store, publish_out_of_order, commit_entry, get_entry, missing,
  subscribe, publish_entries, publish_entry, publish_in_order, wait_for_entry, missing_loop,
}
use orthrus.Log.Invariant.{empty_log-IsWellFormed}
use orthrus.Log.Commit.{IsQuiet, commit_entry-IsQuiet, get_entry-commit_entry}
use orthrus.Log.Missing.{is_none, missing-contains}
use orthrus.Log.System.{
  System, outside, stored, announced, publishing, initial, Reach, start, next, Run, stay, go,
  new_subscriber, store_entry, announce, lock, publish_next, unlock,
}
use orthrus.Log.Interleaving.{Inv, Reach-Inv, get_entry-Step}
use orthrus.Log.Delivery.{delivered}
use orthrus.Log.Delivered.{runs_reach, Run-delivered}
use orthrus.Log.Checkpoints.{
  StableCheckpoint, Checkpoints, get_checkpoint, commit_all, AtMost, commit_all-AtMost,
}

abbrev entry : ℕ → Entry
entry n = record {
  sn = n;
  batch = some (record { requests = [] });
  digest = n ∷ [];
  aborted = false;
  suspect = 0;
  propose_ts = 0;
  commit_ts = 0;
}

-- Entry 1 is committed before entry 0, and both are delivered in order.
out_of_order :
    (commit_entry (commit_entry (subscribe empty_log) (entry 1)) (entry 0)).log_subscribers
    ≡ (entry 0 ∷ entry 1 ∷ []) ∷ []
unfolding commit_entry empty_log subscribe deliver store publish_out_of_order publish_entries
    publish_entry publish_in_order add32
out_of_order = refl

-- A waiter for entry 1 is released when entry 0 closes the gap.
waiter_released :
    (commit_entry
      (commit_entry (wait_for_entry empty_log (record { sn = 1; goroutine = 7 })).0 (entry 1))
      (entry 0)).released
    ≡ record { sn = 1; goroutine = 7 } ∷ []
unfolding commit_entry empty_log deliver store publish_out_of_order publish_entries publish_entry
    publish_in_order add32 wait_for_entry lt32
waiter_released = refl

-- A goroutine subscribes, and another one commits entry 0.
abbrev s0 : System
s0 = record initial { log = subscribe empty_log }

abbrev s1 : System
s1 = record {
  log = store (subscribe empty_log) (entry 0);
  pc = update initial.pc 0 (stored (entry 0));
  holder = none;
}

abbrev s2 : System
s2 = record {
  log = publish_out_of_order (store (subscribe empty_log) (entry 0)) (entry 0);
  pc = update s1.pc 0 announced;
  holder = none;
}

abbrev s3 : System
s3 = record { log = s2.log; pc = update s2.pc 0 publishing; holder = some 0 }

abbrev s4 : System
s4 = record { log = deliver s2.log (entry 0); pc = s3.pc; holder = some 0 }

abbrev s5 : System
s5 = record { log = s4.log; pc = update s4.pc 0 outside; holder = none }

reach0 : Reach s0
reach0 = next {s = initial} (start initial refl) (new_subscriber refl refl)

run4 : Run s0 s4
unfolding empty_log store publish_out_of_order subscribe
run4 =
    go {s = s3}
      (go {s = s2}
        (go {s = s1}
          (go {s = s0} (stay s0 refl) (store_entry 0 (entry 0) refl refl (omega arith) refl))
          (announce 0 (entry 0) refl refl refl))
        (lock 0 refl refl refl))
      (publish_next 0 (entry 0) refl refl refl)

run5 : Run s0 s5
unfolding empty_log store publish_out_of_order deliver add32 subscribe
run5 = go {s = s4} run4 (unlock 0 refl refl refl)

s5_idle : (i : ℕ) → s5.pc i ≡ outside
s5_idle i = ground arith

Reach-Inv_example : Inv s4
Reach-Inv_example = Reach-Inv s4 (runs_reach s0 s4 reach0 run4)

Run-delivered_example :
    IsQuiet s5.log
    × (get_elem? s5.log.log_subscribers 0
        ≡ some (
            []
            ++ delivered s5.log.entries s0.log.first_empty_sn
                (s5.log.first_empty_sn - s0.log.first_empty_sn)))
unfolding subscribe empty_log
Run-delivered_example = Run-delivered s0 s5 0 [] reach0 run5 s5_idle refl

given_once : delivered s5.log.entries 0 1 ≡ entry 0 ∷ []
unfolding delivered store publish_out_of_order deliver subscribe empty_log
given_once = refl

get_entry-Step_example : get_entry s4.log 0 ≡ some (entry 0)
unfolding empty_log store publish_out_of_order get_entry subscribe
get_entry-Step_example =
    get_entry-Step s3 s4 0 (entry 0) (publish_next 0 (entry 0) refl refl refl) refl

empty_log-IsQuiet : IsQuiet empty_log
unfolding empty_log
empty_log-IsQuiet = record { well_formed = empty_log-IsWellFormed; stopped = refl }

one_entry : Log
one_entry = commit_entry empty_log (entry 1)

commit_entry-IsQuiet_example : IsQuiet (commit_entry empty_log (entry 1))
commit_entry-IsQuiet_example =
    commit_entry-IsQuiet empty_log (entry 1) empty_log-IsQuiet (omega arith)

get_entry-commit_entry_example : get_entry (commit_entry empty_log (entry 1)) 1 ≡ some (entry 1)
unfolding empty_log get_entry
get_entry-commit_entry_example =
    get_entry-commit_entry empty_log (entry 1) 1 empty_log-IsQuiet (omega arith)

missing_example : missing one_entry 2 ≡ 0 ∷ 2 ∷ []
unfolding one_entry missing missing_loop commit_entry empty_log store publish_out_of_order
    publish_entries publish_entry add32 le32
missing_example = refl

missing-contains_example :
    contains 1 (missing one_entry 2)
    ≡ (leb one_entry.first_empty_sn 1 && (leb 1 2 && is_none (get_entry one_entry 1)))
unfolding one_entry
missing-contains_example =
    missing-contains one_entry 2 1 commit_entry-IsQuiet_example.well_formed (omega arith)

abbrev checkpoint_at : ℕ → StableCheckpoint
checkpoint_at n = record { sn = n; proof = [] }

abbrev no_checkpoint : Checkpoints
no_checkpoint = record { checkpoint = none; subscribers = [] }

commit_all-AtMost_example :
    AtMost none (get_checkpoint (commit_all no_checkpoint (checkpoint_at 7 ∷ checkpoint_at 3 ∷ [])))
    × All
        (λ c.
          AtMost
            (some c)
            (get_checkpoint (commit_all no_checkpoint (checkpoint_at 7 ∷ checkpoint_at 3 ∷ []))))
        (checkpoint_at 7 ∷ checkpoint_at 3 ∷ [])
commit_all-AtMost_example = commit_all-AtMost no_checkpoint (checkpoint_at 7 ∷ checkpoint_at 3 ∷ [])
