-- ===== src/Membership.antt =====
-- membership/membership.go: the nodes of the system, the number of faults it tolerates and the
-- quorums. The package's variables are the fields of `Membership`; keys, the client key and the
-- rank `htn` (with its lock, one variable that is set and read) are left out of it.
-- `Membership/Quorums` has what quorums guarantee, `Membership/Peers` the simulated crashes.
pub mod Quorums
pub mod Peers
mod Tests
use orthrus.Prelude.{
  ℕ, ◌+◌, ◌-◌, ◌*◌, ◌/◌, Bool, not, ◌||◌, if◌then◌else◌, Option, none, some, List, [], ◌∷◌, ◌++◌,
  insert, lookup, keys, length, keep, contains, take, ltb, lt32, sort,
}

-- An identity, as far as this file reads it (`pb.NodeIdentity`).
pub record Identity : Type 0 where
  pub node_id : ℕ

pub record Membership : Type 0 where
  pub own_id : ℕ
  pub node_identities : List (ℕ × Identity)
  pub node_ids : List ℕ
  pub simulated_crashes : List ℕ  -- the keys of the map `SimulatedCrashes`
  pub simulated_equivocation : List ℕ
  pub simulated_straggler : List ℕ

-- `config.Config.Failures` and `config.Config.StragglerCnt`.
pub record Faulty : Type 0 where
  pub failures : ℕ
  pub straggler_cnt : ℕ

index_identities : List Identity → List (ℕ × Identity) → List (ℕ × Identity)
index_identities [] m = m
index_identities (i ∷ is) m = index_identities is (insert i.node_id i m)

unfoldable pub ids_of : List Identity → List ℕ
ids_of [] = []
ids_of (i ∷ is) = i.node_id ∷ ids_of is

-- `InitNodeIdentities`. The permutation that `rand.Shuffle` makes is an argument; `none` is the
-- panic of a slice that asks for more nodes than there are.
unfoldable pub init_node_identities :
    (List ℕ → List ℕ) → Faulty → ℕ → List Identity → Option Membership
unfolding index_identities ids_of
init_node_identities shuffle c own identities =
    let ids = sort lt32 (ids_of identities) in
    let shuffled = shuffle ids in
    if ltb (length shuffled) c.failures || ltb (length shuffled) c.straggler_cnt
    then none
    else some (record {
      own_id = own;
      node_identities = index_identities identities [];
      node_ids = ids;
      simulated_crashes = take c.failures shuffled;
      simulated_equivocation = take c.failures shuffled;
      simulated_straggler = take c.straggler_cnt shuffled;
    })

unfoldable pub num_nodes : Membership → ℕ
num_nodes m = length m.node_identities

unfoldable pub all_node_ids : Membership → List ℕ
all_node_ids m = m.node_ids

-- `(NumNodes() - 1) / 3`. Go's division rounds towards 0, so with no node this is (-1) / 3 = 0,
-- which the subtraction on ℕ gives too.
unfoldable pub faults : ℕ → ℕ
faults n = (n - 1) / 3

unfoldable pub weak_quorum : ℕ → ℕ
unfolding faults
weak_quorum n = faults n + 1

unfoldable pub quorum : ℕ → ℕ
unfolding faults
quorum n = 2 * faults n + 1

unfoldable pub simulates_crash : Membership → ℕ → Bool
simulates_crash m peer = contains peer m.simulated_crashes

unfoldable pub correct_peers : Membership → List ℕ
unfolding simulates_crash
correct_peers m = keep (λ p. not (simulates_crash m p)) m.node_ids
