-- ===== src/Manager/Policies.antt =====
-- manager/leaderpolicies.go: which nodes lead segments in an epoch. A policy's state is a record,
-- `Update` returns the new one. The node ids are those of `membership.AllNodeIDs()`; epochs and
-- bans are `int32`. `newSimpleLeaderPolicy` and the like make the states named `new_…`.
pub mod Bans
pub mod Bounds
use orthrus.Prelude.{
  ℕ, zero, suc, ◌+◌, ◌-◌, ◌/◌, ◌%◌, Bool, true, false, not, if◌then◌else◌, ◌==◌, Option, none, some,
  List, [], ◌∷◌, ◌++◌, lookup, insert, length, keep, contains, take, drop, get_elem?, ltb, lt32,
  add32, sub32, mul32, half,
}

-- Simple: the first nodes, one in `NodeToLeaderRatio`. A ratio of 0 panics (`none`).
unfoldable pub simple_leaders : ℕ → List ℕ → Option (List ℕ)
simple_leaders ratio ids = if ratio == 0 then none else some (take (length ids / ratio) ids)

-- Single: the epoch's node in turn. No node, or a negative epoch, panics.
unfoldable pub single_leaders : List ℕ → ℕ → Option (List ℕ)
single_leaders ids e =
    if lt32 e 0
    then none
    else elim (get_elem? ids (e % length ids)) [ none ↦ none | some l ↦ some (l ∷ []) ]

pub record Backoff : Type 0 where
  pub ban : List (ℕ × ℕ)
  pub banned_until : List (ℕ × ℕ)

abbrev pub new_backoff : Backoff
new_backoff = record { ban = []; banned_until = [] }

-- Not banned, or the ban expired.
unfoldable pub may_lead : List (ℕ × ℕ) → ℕ → ℕ → Bool
may_lead banned e id = elim (lookup id banned) [ none ↦ true | some until ↦ lt32 until e ]

unfoldable pub backoff_leaders : List ℕ → List (ℕ × ℕ) → ℕ → List ℕ
unfolding may_lead
backoff_leaders ids banned e = keep (may_lead banned e) ids

-- `for leader, until := range bannedUntil { bannedUntil[leader] = until - 1 }`
unfoldable pub decrease_bans : List (ℕ × ℕ) → List (ℕ × ℕ)
decrease_bans [] = []
decrease_bans ((leader, until) ∷ m) = (leader, sub32 until 1) ∷ decrease_bans m

-- The loop of `Update`, on fuel: until epoch `e` has a leader.
unfoldable pub relax_loop : ℕ → List ℕ → ℕ → List (ℕ × ℕ) → List (ℕ × ℕ)
relax_loop zero ids e banned = banned
relax_loop (suc fuel) ids e banned = elim (length (backoff_leaders ids banned e) == 0) [
  | true ↦ relax_loop fuel ids e (decrease_bans banned)
  | false ↦ banned
]

-- The default ban for a node not suspected before, or twice its last one.
unfoldable pub next_ban : ℕ → Option ℕ → ℕ
next_ban default none = default
next_ban default (some b) = mul32 b 2

-- The fuel is the number of values of an `int32`: more rounds than a ban can last.
unfoldable pub backoff_update : List ℕ → ℕ → Backoff → ℕ → ℕ → Backoff
unfolding next_ban
backoff_update ids default s e suspect =
    let period = next_ban default (lookup suspect s.ban) in
    record {
      ban = insert suspect period s.ban;
      banned_until =
          relax_loop half ids (add32 e 1) (insert suspect (add32 e period) s.banned_until);
    }

-- `bannedMap[id]` is true for the nodes of `bannedList`: the map is rebuilt from it by `Update`.
pub record Blacklist : Type 0 where
  pub banned_list : List ℕ
  pub banned_map : List (ℕ × Bool)

abbrev pub new_blacklist : Blacklist
new_blacklist = record { banned_list = []; banned_map = [] }

unfoldable pub banned_map_of : List ℕ → List (ℕ × Bool) → List (ℕ × Bool)
banned_map_of [] m = m
banned_map_of (l ∷ ls) m = banned_map_of ls (insert l true m)

-- The last `max_faults` entries.
unfoldable pub last_entries : ℕ → List ℕ → List ℕ
last_entries max_faults xs =
    if ltb max_faults (length xs) then drop (length xs - max_faults) xs else xs

unfoldable pub blacklist_update : ℕ → Blacklist → ℕ → Blacklist
unfolding banned_map_of last_entries
blacklist_update max_faults s suspect =
    let banned = last_entries max_faults (s.banned_list ++ suspect ∷ []) in
    record { banned_list = banned; banned_map = banned_map_of banned [] }

unfoldable pub is_banned : Blacklist → ℕ → Bool
is_banned s id = elim (lookup id s.banned_map) [ none ↦ false | some b ↦ b ]

unfoldable pub blacklist_leaders : List ℕ → Blacklist → List ℕ
unfolding is_banned
blacklist_leaders ids s = keep (λ id. not (is_banned s id)) ids

pub record Combined : Type 0 where
  pub backoff : Backoff
  pub blacklist : Blacklist

unfoldable pub combined_update : List ℕ → ℕ → ℕ → Combined → ℕ → ℕ → Combined
unfolding backoff_update blacklist_update
combined_update ids default max_faults s e suspect = record {
  backoff = backoff_update ids default s.backoff e suspect;
  blacklist = blacklist_update max_faults s.blacklist suspect;
}

-- Setting the keys of `leaderMap`.
unfoldable pub add_leaders : List ℕ → List ℕ → List ℕ
add_leaders [] set = set
add_leaders (l ∷ ls) set = add_leaders ls (if contains l set then set else set ++ l ∷ [])

-- The keys of the map, in the order of their insertion; Go's order over a map is arbitrary, so a
-- statement about the result must not depend on it.
unfoldable pub combined_leaders : List ℕ → Combined → ℕ → List ℕ
unfolding backoff_leaders blacklist_leaders add_leaders
combined_leaders ids s e =
    add_leaders (blacklist_leaders ids s.blacklist)
      (add_leaders (backoff_leaders ids s.backoff.banned_until e) [])
