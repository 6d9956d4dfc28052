-- ===== src/Membership/Quorums.antt =====
-- What the quorums of membership/membership.go guarantee. A set of voters is a Boolean test on node
-- ids, counted over the ordered list of nodes.
use orthrus.Prelude.{
  ℕ, ◌+◌, ◌%◌, ◌≤◌, ◌<◌, ◌≡◌, Bool, not, ◌&&◌, List, [], ◌∷◌, length, count_if, arith,
}
use orthrus.Membership.{Membership, num_nodes, all_node_ids, faults, weak_quorum, quorum}

-- Inclusion and exclusion.
pub count_if-and :
    {A : Type 0} (p q : A → Bool) (xs : List A)
    → count_if p xs + count_if q xs ≤ length xs + count_if (λ x. p x && q x) xs
count_if-and p q [] = omega arith
count_if-and p q (x ∷ xs) = ground (arith, count_if-and p q xs)

pub count_if-not :
    {A : Type 0} (p : A → Bool) (xs : List A)
    → count_if p xs + count_if (λ x. not (p x)) xs ≡ length xs
count_if-not p [] = omega arith
count_if-not p (x ∷ xs) = ground (arith, count_if-not p xs)

-- Two quorums of a system of 3f + 1 nodes have at least f + 1 nodes in common.
pub quorum_overlap :
    (m : Membership) (p q : ℕ → Bool)
    → length (all_node_ids m) ≡ num_nodes m
    → num_nodes m % 3 ≡ 1
    → quorum (num_nodes m) ≤ count_if p (all_node_ids m)
    → quorum (num_nodes m) ≤ count_if q (all_node_ids m)
    → weak_quorum (num_nodes m) ≤ count_if (λ x. p x && q x) (all_node_ids m)
unfolding quorum weak_quorum
quorum_overlap m p q len size hp hq = omega (arith, count_if-and p q (all_node_ids m))

-- A weak quorum contains a node that is not faulty, if at most `Faults()` nodes are.
pub weak_quorum_honest :
    (m : Membership) (p faulty : ℕ → Bool)
    → count_if faulty (all_node_ids m) ≤ faults (num_nodes m)
    → weak_quorum (num_nodes m) ≤ count_if p (all_node_ids m)
    → 0 < count_if (λ x. p x && not (faulty x)) (all_node_ids m)
unfolding weak_quorum
weak_quorum_honest m p faulty few hp = omega (
  arith,
  count_if-and p (λ x. not (faulty x)) (all_node_ids m),
  count_if-not faulty (all_node_ids m),
)

-- The nodes that are not faulty are enough for a quorum.
pub quorum_reachable :
    (m : Membership) (faulty : ℕ → Bool)
    → length (all_node_ids m) ≡ num_nodes m
    → 0 < num_nodes m
    → count_if faulty (all_node_ids m) ≤ faults (num_nodes m)
    → quorum (num_nodes m) ≤ count_if (λ x. not (faulty x)) (all_node_ids m)
unfolding quorum faults
quorum_reachable m faulty len some_node few = omega (arith, count_if-not faulty (all_node_ids m))
