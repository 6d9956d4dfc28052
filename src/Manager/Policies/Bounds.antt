-- ===== src/Manager/Policies/Bounds.antt =====
-- How many nodes the blacklist policy bans, and what the combined policy includes.
use orthrus.Prelude.{
  inside-le, count-append, ℕ, ◌+◌, ◌-◌, ◌≤◌, ◌≡◌, refl, Bool, true, false, not, ◌||◌, if◌then◌else◌,
  some, List, [], ◌∷◌, ◌++◌, arith, lookup, insert, lookup-insert, length, length-drop, length-keep,
  count_if, contains, count, IsDistinct, contains_of_count,
}
use orthrus.Manager.Policies.{
  Blacklist, Combined, backoff_leaders, banned_map_of, last_entries, blacklist_update, is_banned,
  blacklist_leaders, combined_leaders, add_leaders, new_blacklist,
}

lookup-banned_map_of :
    (id : ℕ) (ls : List ℕ) (m : List (ℕ × Bool))
    → lookup id (banned_map_of ls m) ≡ (if contains id ls then some true else lookup id m)
unfolding banned_map_of
lookup-banned_map_of id [] m = refl
lookup-banned_map_of id (l ∷ ls) m =
    ground (arith, lookup-banned_map_of id ls (insert l true m), lookup-insert l id true m)

-- After any update: at most `max_faults` entries, and the map agrees with the list.
pub record IsConsistent (max_faults : ℕ) (s : Blacklist) : Type 0 where
  pub few : length s.banned_list ≤ max_faults
  pub agrees : (id : ℕ) → is_banned s id ≡ contains id s.banned_list

pub new_blacklist-IsConsistent : (max_faults : ℕ) → IsConsistent max_faults new_blacklist
unfolding is_banned
new_blacklist-IsConsistent max_faults = record { few = omega arith; agrees = λ id. refl }

length-last_entries : (n : ℕ) (xs : List ℕ) → length (last_entries n xs) ≤ n
unfolding last_entries
length-last_entries n xs = ground (arith, length-drop (length xs - n) xs)

-- `Update` of the blacklist keeps at most `Faults()` nodes banned, whatever it held before.
pub blacklist_update-IsConsistent :
    (max_faults : ℕ) (s : Blacklist) (suspect : ℕ)
    → IsConsistent max_faults (blacklist_update max_faults s suspect)
unfolding blacklist_update is_banned
blacklist_update-IsConsistent max_faults s suspect = record {
  few = length-last_entries max_faults (s.banned_list ++ suspect ∷ []);
  agrees = λ id.
      ground (
        arith,
        lookup-banned_map_of id (last_entries max_faults (s.banned_list ++ suspect ∷ [])) [],
      );
}

count_if-ext :
    (p q : ℕ → Bool) (xs : List ℕ) → ((a : ℕ) → p a ≡ q a) → count_if p xs ≡ count_if q xs
count_if-ext p q [] h = refl
count_if-ext p q (x ∷ xs) h = ground (arith, h x, count_if-ext p q xs h)

count_if-not :
    (p : ℕ → Bool) (xs : List ℕ) → count_if p xs + count_if (λ x. not (p x)) xs ≡ length xs
count_if-not p [] = omega arith
count_if-not p (x ∷ xs) = ground (arith, count_if-not p xs)

-- The blacklist policy leaves all but at most `Faults()` of the distinct nodes as leaders.
pub length-blacklist_leaders :
    (max_faults : ℕ) (s : Blacklist) (ids : List ℕ)
    → IsConsistent max_faults s
    → IsDistinct ids
    → length ids ≤ length (blacklist_leaders ids s) + max_faults
unfolding blacklist_leaders
length-blacklist_leaders max_faults s ids v d = omega (
  arith,
  length-keep (λ id. not (is_banned s id)) ids,
  count_if-not (is_banned s) ids,
  count_if-ext (is_banned s) (λ id. contains id s.banned_list) ids v.agrees,
  inside-le ids s.banned_list d,
  v.few,
)

contains-append :
    (a : ℕ) (xs ys : List ℕ) → contains a (xs ++ ys) ≡ (contains a xs || contains a ys)
contains-append a [] ys = refl
contains-append a (x ∷ xs) ys = ground (arith, contains-append a xs ys)

contains-add_leaders :
    (a : ℕ) (ls set : List ℕ) → contains a (add_leaders ls set) ≡ (contains a ls || contains a set)
unfolding add_leaders
contains-add_leaders a [] set = refl
contains-add_leaders a (l ∷ ls) set = ground (
  arith,
  contains-add_leaders a ls (if contains l set then set else set ++ l ∷ []),
  contains-append a set (l ∷ []),
)

count-add_leaders : (a : ℕ) (ls set : List ℕ) → count a set ≤ 1 → count a (add_leaders ls set) ≤ 1
unfolding add_leaders
count-add_leaders a [] set h = h
count-add_leaders a (l ∷ ls) set h =
    count-add_leaders a ls (if contains l set then set else set ++ l ∷ [])
      (once (contains l set) refl)
  where
    once : (b : Bool) → contains l set ≡ b → count a (if b then set else set ++ l ∷ []) ≤ 1
    once true e = h
    once false e = ground (arith, count-append a set (l ∷ []), contains_of_count a set, e)

-- The combined policy lists, once each, exactly the nodes that at least one of the two policies
-- includes.
pub combined_leaders-contains :
    (ids : List ℕ) (s : Combined) (e a : ℕ)
    → (contains a (combined_leaders ids s e) ≡ (
        contains a (backoff_leaders ids s.backoff.banned_until e)
        || contains a (blacklist_leaders ids s.blacklist)))
      × (count a (combined_leaders ids s e) ≤ 1)
unfolding combined_leaders
combined_leaders-contains ids s e a =
    let first = backoff_leaders ids s.backoff.banned_until e in
    let second = blacklist_leaders ids s.blacklist in
    (
      ground (
        arith,
        contains-add_leaders a second (add_leaders first []),
        contains-add_leaders a first [],
      ),
      count-add_leaders a second (add_leaders first [])
          (count-add_leaders a first [] (omega arith)),
    )
