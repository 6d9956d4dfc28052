-- ===== src/Manager/Policies/Bans.antt =====
-- The backoff policy: its loop ends with a leader for the next epoch, and how bans grow.
use native.Mathlib.Nat.{pow-suc, div-add-mod', add-mul-mod_self_right}
use Prim.Native.Nat.{◌^◌}
use orthrus.Prelude.{
  ℕ, zero, suc, ◌+◌, ◌-◌, ◌*◌, ◌/◌, ◌%◌, ◌≤◌, ◌<◌, ◌≡◌, ◌≢◌, refl, sym, ◌∙◌, ap, inl, inr, true,
  false, if◌then◌else◌, ◌==◌, none, some, List, [], ◌∷◌, arith, lookup, insert, lookup-insert,
  length, modulus, half, add32, sub32, mul32, lt32, add32_small, lt32_small, Bool-cases,
  Option-cases,
}
use orthrus.Manager.Policies.{
  Backoff, may_lead, backoff_leaders, decrease_bans, relax_loop, next_ban, backoff_update,
}

lookup-decrease_bans :
    (id : ℕ) (m : List (ℕ × ℕ))
    → lookup id (decrease_bans m)
      ≡ elim (lookup id m) [ none ↦ none | some until ↦ some (sub32 until 1) ]
unfolding decrease_bans
lookup-decrease_bans id [] = refl
lookup-decrease_bans id ((j, u) ∷ m) = ground (arith, lookup-decrease_bans id m)

sub32_one : (n : ℕ) → 0 < n → n < modulus → sub32 n 1 ≡ n - 1
unfolding sub32
sub32_one n p h = omega arith

-- The first node leads now, or after `fuel` rounds at the latest.
record Soon (i e fuel : ℕ) (m : List (ℕ × ℕ)) : Type 0 where
  soon : (u : ℕ) → lookup i m ≡ some u → lt32 u e ≡ false → (e ≤ u) × (u < half) × (u < e + fuel)

leader_first :
    (i : ℕ) (is : List ℕ) (e : ℕ) (m : List (ℕ × ℕ))
    → may_lead m e i ≡ true
    → 0 < length (backoff_leaders (i ∷ is) m e)
unfolding backoff_leaders
leader_first i is e m h = ground arith

may_lead_now : (i e : ℕ) (m : List (ℕ × ℕ)) → Soon i e 0 m → may_lead m e i ≡ true
unfolding may_lead
may_lead_now i e m s = elim (Option-cases (lookup i m)) [
  | inl h ↦ rw (h, may_lead)
  | inr (u, h) ↦ elim (Bool-cases (lt32 u e)) [
    | inl q ↦ rw (h, may_lead) q
    | inr q ↦ absurd (omega (arith, s.soon u h q))
  ]
]

may_lead_found :
    (i e v : ℕ) (m : List (ℕ × ℕ)) → lookup i m ≡ some v → lt32 v e ≡ true → may_lead m e i ≡ true
unfolding may_lead
may_lead_found i e v m found leads = rw (found, may_lead) leads

relax_loop-leads :
    (fuel i : ℕ) (is : List ℕ) (e : ℕ) (m : List (ℕ × ℕ))
    → 0 < e
    → e < half
    → Soon i e fuel m
    → 0 < length (backoff_leaders (i ∷ is) (relax_loop fuel (i ∷ is) e m) e)
unfolding relax_loop
relax_loop-leads zero i is e m pos small s = leader_first i is e m (may_lead_now i e m s)
relax_loop-leads (suc fuel) i is e m pos small s =
    elim (Bool-cases (length (backoff_leaders (i ∷ is) m e) == 0)) [
      | inr some_leader ↦ ground arith
      | inl no_leader ↦
          rw (no_leader, relax_loop)
            (relax_loop-leads fuel i is e (decrease_bans m) pos small
              (record { soon = later no_leader }))
    ]
  where
    later :
        (length (backoff_leaders (i ∷ is) m e) == 0) ≡ true
        → (u : ℕ) → lookup i (decrease_bans m) ≡ some u
        → lt32 u e ≡ false
        → (e ≤ u) × (u < half) × (u < e + fuel)
    later none_leads u h q = elim (Option-cases (lookup i m)) [
      | inl absent ↦ absurd (ground (arith, lookup-decrease_bans i m))
      | inr (v, found) ↦ elim (Bool-cases (lt32 v e)) [
        | inl leads ↦
            absurd (ground (arith, leader_first i is e m (may_lead_found i e v m found leads)))
        | inr banned ↦
            let (lo, hi, near) = s.soon v found banned in
            let at : u ≡ v - 1 =
              ground (arith, lookup-decrease_bans i m, sub32_one v (omega arith) (omega arith)) in
            ground (arith, lt32_small u e)
      ]
    ]

add32-lt : (a b : ℕ) → add32 a b < modulus
unfolding add32
add32-lt a b = omega arith

not-lt32 : (u e : ℕ) → u < modulus → e < half → lt32 u e ≡ false → (e ≤ u) × (u < half)
unfolding lt32
not-lt32 u e word small h = ground arith

-- `Update`, at an epoch whose successor is an `int32`: the next epoch has at least one leader, if
-- there is a node at all. So the loop ends, within the 2 ^ 31 rounds of its fuel.
pub backoff_update-leads :
    (ids : List ℕ) (default : ℕ) (s : Backoff) (e suspect : ℕ)
    → ids ≢ []
    → ((k u : ℕ) → lookup k s.banned_until ≡ some u → u < modulus)
    → e + 1 < half
    → 0 < length (backoff_leaders ids (backoff_update ids default s e suspect).banned_until (e + 1))
unfolding backoff_update
backoff_update-leads [] default s e suspect some_node words small = absurd (some_node refl)
backoff_update-leads (i ∷ is) default s e suspect some_node words small =
    let period = next_ban default (lookup suspect s.ban) in
    let banned = insert suspect (add32 e period) s.banned_until in
    rw (add32_small e 1 (omega arith)) (
      relax_loop-leads half i is (e + 1) banned (omega arith) small (record {
        soon = λ u h q. ground (
          arith,
          lookup-insert suspect i (add32 e period) s.banned_until,
          words i u,
          add32-lt e period,
          not-lt32 u (e + 1),
        );
      }))

-- A run of `Update`, each with its epoch and its suspect.
unfoldable pub backoff_run : List ℕ → ℕ → Backoff → List (ℕ × ℕ) → Backoff
backoff_run ids default s [] = s
backoff_run ids default s ((e, suspect) ∷ us) =
    backoff_run ids default (backoff_update ids default s e suspect) us

abbrev pub times_suspected : ℕ → List (ℕ × ℕ) → ℕ
times_suspected node [] = 0
times_suspected node ((e, suspect) ∷ us) =
    if suspect == node then suc (times_suspected node us) else times_suspected node us

ban_update :
    (ids : List ℕ) (default : ℕ) (s : Backoff) (e suspect node b : ℕ)
    → lookup node s.ban ≡ some b
    → lookup node (backoff_update ids default s e suspect).ban
      ≡ some (if suspect == node then mul32 b 2 else b)
unfolding backoff_update next_ban
ban_update ids default s e suspect node b h =
    ground (arith, lookup-insert suspect node (next_ban default (lookup suspect s.ban)) s.ban)

mod-mul-mod : (a y m : ℕ) → (a % m * y) % m ≡ (a * y) % m
mod-mul-mod a y m =
    let e : a * y ≡ a % m * y + a / m * y * m =
      omega (arith, ap (λ (t : ℕ). t * y) (div-add-mod' a m)) in
    rw e (sym (add-mul-mod_self_right (a % m * y) (a / m * y) m))

doubled : (b k : ℕ) → (b * 2 % modulus * 2 ^ k) % modulus ≡ (b * 2 ^ suc k) % modulus
doubled b k =
    mod-mul-mod (b * 2) (2 ^ k) modulus
    ∙ ap (λ (t : ℕ). t % modulus) (omega (arith, ap (λ (t : ℕ). b * t) (pow-suc 2 k)))

-- Each further suspicion doubles a node's ban, modulo 2 ^ 32.
pub backoff_run-ban :
    (ids : List ℕ) (default : ℕ) (s : Backoff) (us : List (ℕ × ℕ)) (node b : ℕ)
    → lookup node s.ban ≡ some b
    → b < modulus
    → lookup node (backoff_run ids default s us).ban
      ≡ some (b * 2 ^ times_suspected node us % modulus)
unfolding backoff_run
backoff_run-ban ids default s [] node b h word = h ∙ ap some (omega arith)
backoff_run-ban ids default s ((e, suspect) ∷ us) node b h word =
    elim (Bool-cases (suspect == node)) [
      | inl q ↦
          let now : lookup node (backoff_update ids default s e suspect).ban
              ≡ some (b * 2 % modulus) =
            ban_update ids default s e suspect node b h ∙ rw q (unfold mul32 in refl) in
          rw q (
            backoff_run-ban ids default (backoff_update ids default s e suspect) us node
              (b * 2 % modulus) now (omega arith)
            ∙ ap some (doubled b (times_suspected node us)))
      | inr q ↦
          let now : lookup node (backoff_update ids default s e suspect).ban ≡ some b =
            ban_update ids default s e suspect node b h ∙ rw q in
          rw q (
            backoff_run-ban ids default (backoff_update ids default s e suspect) us node b now word)
    ]
