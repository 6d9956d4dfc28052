-- ===== src/Log/Delivered.antt =====
-- What the subscribers to the entries of log/log.go are given, in order, in a run of its goroutines.
use mathlib.Core.List.{append-nil, append_assoc}
use orthrus.Prelude.{
  ℕ, zero, suc, ◌-◌, ◌≤◌, ◌<◌, ◌≡◌, ◌∙◌, sym, ap, inl, inr, none, some, List, [], ◌∷◌, ◌++◌, lookup,
  get_elem?, arith, max_int32, add32, add32_small, lt32, Bool-cases, Option-cases, leb,
}
use orthrus.Log.{
  Entry, Waiter, Log, publish_entry, publish_in_order, deliver, store, publish_out_of_order,
  subscribe, subscribe_out_of_order, wait_for_entry,
}
use orthrus.Log.Delivery.{deliverable, delivered, delivered_next, delivered-insert}
use orthrus.Log.Invariant.{IsWellFormed}
use orthrus.Log.Commit.{IsQuiet}
use orthrus.Log.System.{
  outside, System, Step, store_entry, already_present, announce, lock, publish_next, unlock,
  new_subscriber, new_subscriber_out_of_order, wait, Reach, next, Run, stay, go,
}
use orthrus.Log.Interleaving.{Inv, Reach-Inv, Reach-IsQuiet}

publish_entry-at :
    (e : Entry) (cs : List (List Entry)) (k : ℕ) (c : List Entry)
    → get_elem? cs k ≡ some c
    → get_elem? (publish_entry e cs) k ≡ some (c ++ e ∷ [])
unfolding publish_entry
publish_entry-at e [] k c h = cc
publish_entry-at e (x ∷ cs) zero c h = ground (arith, h)
publish_entry-at e (x ∷ cs) (suc k) c h = publish_entry-at e cs k c h

publish_in_order-at :
    (e : Entry) (cs : List (List Entry)) (k : ℕ) (c : List Entry)
    → get_elem? cs k ≡ some c
    → get_elem? (publish_in_order e cs) k ≡ some (c ++ deliverable (some e))
unfolding publish_in_order
publish_in_order-at e cs k c h = elim (Option-cases e.batch) [
  | inl q ↦ rw (q, publish_in_order) (h ∙ ap some (sym (append-nil c)))
  | inr (b, q) ↦ rw (q, publish_in_order) (publish_entry-at e cs k c h)
]

append-at :
    (cs ds : List (List Entry)) (k : ℕ) (c : List Entry)
    → get_elem? cs k ≡ some c
    → get_elem? (cs ++ ds) k ≡ some c
append-at [] ds k c h = cc
append-at (x ∷ cs) ds zero c h = h
append-at (x ∷ cs) ds (suc k) c h = append-at cs ds k c h

-- A free slot is not below the first empty one.
free-past : (l : Log) (sn : ℕ) → lookup sn l.entries ≡ none → IsWellFormed l → l.first_empty_sn ≤ sn
free-past l sn free v = elim (Bool-cases (leb l.first_empty_sn sn)) [
  | inl q ↦ ground arith
  | inr q ↦ let (e', at) = v.filled sn (ground arith) in cc
]

-- Since the first empty slot was `p`, when its channel held `c`, the subscriber `k` was given the
-- deliverable entries from there on.
pub record Gave (p k : ℕ) (c : List Entry) (l : Log) : Type 0 where
  pub since : p ≤ l.first_empty_sn
  pub given :
      get_elem? l.log_subscribers k ≡ some (c ++ delivered l.entries p (l.first_empty_sn - p))

deliver-Gave :
    {p k : ℕ} {c : List Entry} (l : Log) (e : Entry)
    → lookup l.first_empty_sn l.entries ≡ some e
    → IsWellFormed l
    → Gave p k c l
    → Gave p k c (deliver l e)
unfolding deliver
deliver-Gave {p} {k} {c} l e at_first v g =
    let below : l.first_empty_sn < max_int32 = (v.named _ e at_first).1 in
    let later : add32 l.first_empty_sn 1 ≡ suc l.first_empty_sn =
      omega (arith, add32_small l.first_empty_sn 1) in
    let n = l.first_empty_sn - p in
    rw later (record {
      since = omega (arith, g.since);
      given =
          publish_in_order-at e l.log_subscribers k (c ++ delivered l.entries p n) g.given
          ∙ ap some (
              append_assoc c (delivered l.entries p n) (deliverable (some e))
              ∙ ap (λ x. c ++ x)
                  (ap (λ o. delivered l.entries p n ++ deliverable o) (sym at_first)
                    ∙ sym (delivered_next l.entries p l.first_empty_sn g.since)));
    })

store-Gave :
    {p k : ℕ} {c : List Entry} (l : Log) (e : Entry)
    → lookup e.sn l.entries ≡ none
    → IsWellFormed l
    → Gave p k c l
    → Gave p k c (store l e)
unfolding store
store-Gave {p} {k} {c} l e free v g = record {
  since = g.since;
  given =
      rw
        (delivered-insert l.entries e.sn e p (l.first_empty_sn - p)
          (omega (arith, g.since, free-past l e.sn free v)))
        g.given;
}

wait-Gave :
    {p k : ℕ} {c : List Entry} (l : Log) (w : Waiter)
    → Gave p k c l
    → Gave p k c (wait_for_entry l w).0
unfolding wait_for_entry
wait-Gave l w g = elim (Bool-cases (lt32 w.sn l.first_empty_sn)) [
  | inl e ↦ rw (e, wait_for_entry) g
  | inr e ↦ rw (e, wait_for_entry) (record { since = g.since; given = g.given })
]

Step-Gave :
    {p k : ℕ} {c : List Entry} (s t : System)
    → Step s t
    → Inv s
    → Gave p k c s.log
    → Gave p k c t.log
unfolding publish_out_of_order subscribe subscribe_out_of_order
Step-Gave s t (store_entry i e _ free small q) inv g =
    rw q (store-Gave s.log e free inv.well_formed g)
Step-Gave s t (already_present i e old _ _ q) inv g = rw q g
Step-Gave s t (announce i e _ _ q) inv g = rw q (record { since = g.since; given = g.given })
Step-Gave s t (lock i _ _ q) inv g = rw q g
Step-Gave s t (publish_next i e _ at q) inv g = rw q (deliver-Gave s.log e at inv.well_formed g)
Step-Gave s t (unlock i _ _ q) inv g = rw q g
Step-Gave {k = k} s t (new_subscriber _ q) inv g =
    rw q (record { since = g.since; given = append-at s.log.log_subscribers ([] ∷ []) k _ g.given })
Step-Gave s t (new_subscriber_out_of_order _ q) inv g =
    rw q (record { since = g.since; given = g.given })
Step-Gave s t (wait w small _ q) inv g = rw q (wait-Gave s.log w g)

pub runs_reach : (r s : System) → Reach r → Run r s → Reach s
runs_reach r s reach (stay _ q) = rw q reach
runs_reach r s reach (go {s = t} run st) = next (runs_reach r t reach run) st

Run-Gave :
    (r s : System) (k : ℕ) (c : List Entry)
    → Reach r
    → Run r s
    → get_elem? r.log.log_subscribers k ≡ some c
    → Gave r.log.first_empty_sn k c s.log
unfolding delivered
Run-Gave r s k c reach (stay _ q) h =
    let none_yet : r.log.first_empty_sn - r.log.first_empty_sn ≡ 0 = omega arith in
    rw q (record { since = omega arith; given = rw none_yet (h ∙ ap some (sym (append-nil c))) })
Run-Gave r s k c reach (go {s = t} run st) h =
    Step-Gave t s st (Reach-Inv t (runs_reach r t reach run)) (Run-Gave r t k c reach run h)

-- Goroutines interleave CommitEntry (for sequence numbers below the largest int32), publishEntries,
-- WaitForEntry and the subscriptions from the empty log on, and reach `r`; some subscriber to the entries in
-- order has been given `c` by then, nothing if it is new. They go on to `s`, where none is inside
-- CommitEntry. Then the log is well formed and the slot at firstEmptySN is empty, and the subscriber has been
-- given `c` and after it, in order and each once, exactly the entries with a batch of the slots from the
-- firstEmptySN of `r` up to that of `s`: no delivery is lost, and none is made twice.
pub Run-delivered :
    (r s : System) (k : ℕ) (c : List Entry)
    → Reach r
    → Run r s
    → ((i : ℕ) → s.pc i ≡ outside)
    → get_elem? r.log.log_subscribers k ≡ some c
    → IsQuiet s.log
      × (get_elem? s.log.log_subscribers k
          ≡ some (
              c
              ++ delivered s.log.entries r.log.first_empty_sn
                  (s.log.first_empty_sn - r.log.first_empty_sn)))
Run-delivered r s k c reach run idle h =
    (Reach-IsQuiet s (runs_reach r s reach run) idle, (Run-Gave r s k c reach run h).given)
