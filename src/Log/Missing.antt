-- ===== src/Log/Missing.antt =====
-- `Missing`: the empty slots up to a sequence number.
use orthrus.Prelude.{
  ℕ, zero, suc, ◌-◌, ◌≤◌, ◌<◌, ◌≡◌, inl, inr, Bool, true, false, ◌&&◌, Option, none, some, lookup,
  arith, max_int32, add32_small, le32_small, leb, contains, Bool-cases,
}
use orthrus.Log.{Log, missing_loop, missing, get_entry}
use orthrus.Log.Invariant.{IsWellFormed, first_empty-le}

abbrev pub is_none {ℓ} : {A : Type ℓ} → Option A → Bool
is_none none = true
is_none (some a) = false

missing_loop-contains :
    (fuel : ℕ) (l : Log) (sn until k : ℕ)
    → until < max_int32
    → sn ≤ max_int32
    → suc until - sn < fuel
    → contains k (missing_loop fuel l sn until)
      ≡ (leb sn k && (leb k until && is_none (lookup k l.entries)))
unfolding missing_loop
missing_loop-contains zero l sn until k small bound h = elim h [ ]
missing_loop-contains (suc fuel) l sn until k small bound h = elim (Bool-cases (leb sn until)) [
  | inr past ↦ ground (arith, le32_small sn until)
  | inl more ↦ ground (
    arith,
    le32_small sn until,
    add32_small sn 1,
    missing_loop-contains fuel l (suc sn) until k small,
  )
]

-- `Missing(until)` contains exactly the empty slots from `firstEmptySN` up to and including
-- `until`, for `until` below the largest `int32`.
pub missing-contains :
    (l : Log) (until k : ℕ)
    → IsWellFormed l
    → until < max_int32
    → contains k (missing l until)
      ≡ (leb l.first_empty_sn k && (leb k until && is_none (get_entry l k)))
unfolding missing get_entry
missing-contains l until k v small =
    missing_loop-contains (suc (suc until - l.first_empty_sn)) l l.first_empty_sn until k small
      (first_empty-le v) (omega arith)
