-- ===== src/Log/Invariant.antt =====
-- The invariant of the log, and that every atomic step of log/log.go keeps it.
use orthrus.Prelude.{
  ℕ, suc, ◌≤◌, ◌<◌, ◌≡◌, refl, inl, inr, true, false, none, some, List, [], ◌∷◌, ◌++◌, lookup,
  lookup-insert, lookup-delete, All, arith, max_int32, add32, add32_small, lt32, Option-cases,
  Bool-cases, ==_iff, ◌==◌, leb,
}
use orthrus.Log.{
  Entry, Waiter, Log, empty_log, waiters_for, deliver, store, publish_out_of_order, subscribe,
  subscribe_out_of_order, wait_for_entry,
}
use orthrus.Log.Delivery.{UpTo, UpTo-insert, UpTo-publish, UpTo-subscribe}

pub record IsWellFormed (l : Log) : Type 0 where
  pub named : (k : ℕ) (e : Entry) → lookup k l.entries ≡ some e → (e.sn ≡ k) × (k < max_int32)
  pub filled : (k : ℕ) → k < l.first_empty_sn → (e : Entry) × (lookup k l.entries ≡ some e)
  pub channels : All (UpTo l.entries l.first_empty_sn) l.log_subscribers
  pub waiting :
      (k : ℕ) (ws : List Waiter)
      → lookup k l.entry_subscribers ≡ some ws
      → (l.first_empty_sn ≤ k) × All (λ w. w.sn ≡ k) ws
  pub woken : All (λ w. lt32 w.sn l.first_empty_sn ≡ true) l.released

pub empty_log-IsWellFormed : IsWellFormed empty_log
unfolding empty_log
empty_log-IsWellFormed = record {
  named = λ k e h. cc;
  filled = λ k h. absurd (omega arith);
  channels = tt;
  waiting = λ k ws h. cc;
  woken = tt;
}

pub first_empty-le : {l : Log} → IsWellFormed l → l.first_empty_sn ≤ max_int32
first_empty-le {l} v = elim (Bool-cases (leb l.first_empty_sn max_int32)) [
  | inl h ↦ ground arith
  | inr h ↦
      let (e, q) = v.filled max_int32 (ground arith) in
      absurd (omega (arith, (v.named max_int32 e q).1))
]

All-append {ℓ κ} :
    {A : Type ℓ} (Holds : A → Type κ) (front back : List A)
    → All Holds front
    → All Holds back
    → All Holds (front ++ back)
All-append Holds [] back none_yet rest = rest
All-append Holds (a ∷ front) back (here, more) rest = (here, All-append Holds front back more rest)

woken-grow :
    (first : ℕ) (ws : List Waiter)
    → first < max_int32
    → All (λ w. lt32 w.sn first ≡ true) ws
    → All (λ w. lt32 w.sn (suc first) ≡ true) ws
unfolding lt32
woken-grow first [] h a = tt
woken-grow first (w ∷ ws) h a = (ground arith, woken-grow first ws h a.1)

woken_now :
    (first : ℕ) (ws : List Waiter)
    → first < max_int32
    → All (λ w. w.sn ≡ first) ws
    → All (λ w. lt32 w.sn (suc first) ≡ true) ws
unfolding lt32
woken_now first [] h a = tt
woken_now first (w ∷ ws) h a = (ground arith, woken_now first ws h a.1)

waiters_for_woken :
    {l : Log}
    → IsWellFormed l
    → l.first_empty_sn < max_int32
    → All
        (λ w. lt32 w.sn (suc l.first_empty_sn) ≡ true)
        (waiters_for l.first_empty_sn l.entry_subscribers)
unfolding waiters_for
waiters_for_woken {l} v h = elim (Option-cases (lookup l.first_empty_sn l.entry_subscribers)) [
  | inl e ↦ rw (e, waiters_for) tt
  | inr (ws, e) ↦ rw (e, waiters_for) (woken_now l.first_empty_sn ws h (v.waiting _ ws e).1)
]

-- A round of `publishEntries`.
pub deliver-IsWellFormed :
    (l : Log) (e : Entry)
    → lookup l.first_empty_sn l.entries ≡ some e
    → IsWellFormed l
    → IsWellFormed (deliver l e)
unfolding deliver
deliver-IsWellFormed l e at_first v =
    let below : l.first_empty_sn < max_int32 = (v.named _ e at_first).1 in
    let next : add32 l.first_empty_sn 1 ≡ suc l.first_empty_sn =
      omega (arith, add32_small l.first_empty_sn 1) in
    rw next (record {
      named = v.named;
      filled = λ k h. elim (Bool-cases (k == l.first_empty_sn)) [
        | inl q ↦ (e, rw ((==_iff _ _).0 q) at_first)
        | inr q ↦ v.filled k (ground arith)
      ];
      channels = UpTo-publish l.entries e l.first_empty_sn l.log_subscribers at_first v.channels;
      waiting = λ k ws h.
          ground (arith, lookup-delete l.first_empty_sn k l.entry_subscribers, v.waiting k ws);
      woken =
          All-append _ l.released _ (woken-grow l.first_empty_sn l.released below v.woken)
            (waiters_for_woken v below);
    })

-- `LoadOrStore` into an empty slot.
pub store-IsWellFormed :
    (l : Log) (e : Entry)
    → lookup e.sn l.entries ≡ none
    → e.sn < max_int32
    → IsWellFormed l
    → IsWellFormed (store l e)
unfolding store
store-IsWellFormed l e free small v = record {
  named = λ k e' h. ground (arith, lookup-insert e.sn k e l.entries, v.named k e');
  filled =
      λ k h. let (e', q) = v.filled k h in (e', ground (arith, lookup-insert e.sn k e l.entries));
  channels = UpTo-insert l.entries e.sn e l.first_empty_sn l.log_subscribers past v.channels;
  waiting = v.waiting;
  woken = v.woken;
}
  where
    past : l.first_empty_sn ≤ e.sn
    past = elim (Bool-cases (leb l.first_empty_sn e.sn)) [
      | inl q ↦ ground arith
      | inr q ↦ let (e', at) = v.filled e.sn (ground arith) in cc
    ]

pub publish_out_of_order-IsWellFormed :
    (l : Log) (e : Entry) → IsWellFormed l → IsWellFormed (publish_out_of_order l e)
unfolding publish_out_of_order
publish_out_of_order-IsWellFormed l e v = record {
  named = v.named;
  filled = v.filled;
  channels = v.channels;
  waiting = v.waiting;
  woken = v.woken;
}

pub subscribe-IsWellFormed : (l : Log) → IsWellFormed l → IsWellFormed (subscribe l)
unfolding subscribe
subscribe-IsWellFormed l v = record {
  named = v.named;
  filled = v.filled;
  channels = UpTo-subscribe l.entries l.first_empty_sn l.log_subscribers v.channels;
  waiting = v.waiting;
  woken = v.woken;
}

waiters_for-named :
    {l : Log}
    → IsWellFormed l
    → (sn : ℕ) → All (λ w. w.sn ≡ sn) (waiters_for sn l.entry_subscribers)
unfolding waiters_for
waiters_for-named {l} v sn = elim (Option-cases (lookup sn l.entry_subscribers)) [
  | inl e ↦ rw (e, waiters_for) tt
  | inr (ws, e) ↦ rw (e, waiters_for) ((v.waiting sn ws e).1)
]

-- What `lt32 sn first` says when it fails.
first-le_of_not-lt32 :
    (sn first : ℕ) → sn < 4294967296 → first ≤ max_int32 → lt32 sn first ≡ false → first ≤ sn
unfolding lt32
first-le_of_not-lt32 sn first small le h = ground arith

-- A call of `WaitForEntry` that blocks waits for an entry at or above the first empty slot.
pub wait_for_entry-IsWellFormed :
    (l : Log) (w : Waiter)
    → IsWellFormed l
    → w.sn < 4294967296
    → IsWellFormed (wait_for_entry l w).0
unfolding wait_for_entry
wait_for_entry-IsWellFormed l w v small = elim (Bool-cases (lt32 w.sn l.first_empty_sn)) [
  | inl q ↦ rw q v
  | inr q ↦ rw q (record {
    named = v.named;
    filled = v.filled;
    channels = v.channels;
    waiting = λ k ws h. elim (Bool-cases (w.sn == k)) [
      | inl here ↦
          let at : k ≡ w.sn = ground arith in
          let e : waiters_for w.sn l.entry_subscribers ++ w ∷ [] ≡ ws = ground (
            arith,
            lookup-insert w.sn k (waiters_for w.sn l.entry_subscribers ++ w ∷ [])
                l.entry_subscribers,
          ) in
          rw (at, ← e)
            (
              first-le_of_not-lt32 w.sn l.first_empty_sn small (first_empty-le v) q,
              All-append _ _ _ (waiters_for-named v w.sn) (refl, tt),
            )
      | inr other ↦ v.waiting k ws (
          ground (
            arith,
            lookup-insert w.sn k (waiters_for w.sn l.entry_subscribers ++ w ∷ [])
                l.entry_subscribers,
          ))
    ];
    woken = v.woken;
  })
]

pub subscribe_out_of_order-IsWellFormed :
    (l : Log) → IsWellFormed l → IsWellFormed (subscribe_out_of_order l)
unfolding subscribe_out_of_order
subscribe_out_of_order-IsWellFormed l v = record {
  named = v.named;
  filled = v.filled;
  channels = v.channels;
  waiting = v.waiting;
  woken = v.woken;
}
