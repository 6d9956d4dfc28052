-- ===== src/Membership/Tests.antt =====
-- Tests of the membership, and its theorems at concrete inputs.
use orthrus.Prelude.{
  ◌≤◌, ◌≡◌, refl, ◌&&◌, some, List, [], ◌∷◌, arith, count_if, leb, lt32, IsDistinct,
}
use orthrus.Membership.{
  Identity, Membership, Faulty, init_node_identities, num_nodes, all_node_ids, weak_quorum, quorum,
  ids_of,
}
use orthrus.Membership.Quorums.{quorum_overlap}

abbrev identities : List Identity
identities =
    record { node_id = 3 }
    ∷ record { node_id = 0 }
    ∷ record { node_id = 2 }
    ∷ record { node_id = 1 }
    ∷ []

abbrev one_failure : Faulty
one_failure = record { failures = 1; straggler_cnt = 0 }

abbrev four_nodes : Membership
four_nodes = record {
  own_id = 2;
  node_identities =
      (3, record { node_id = 3 })
      ∷ (0, record { node_id = 0 })
      ∷ (2, record { node_id = 2 })
      ∷ (1, record { node_id = 1 })
      ∷ [];
  node_ids = 0 ∷ 1 ∷ 2 ∷ 3 ∷ [];
  simulated_crashes = 0 ∷ [];
  simulated_equivocation = 0 ∷ [];
  simulated_straggler = [];
}

init_example : init_node_identities (λ xs. xs) one_failure 2 identities ≡ some four_nodes
unfolding init_node_identities lt32
init_example = refl

quorum_overlap_example : weak_quorum 4 ≤ count_if (λ x. leb x 2 && leb 1 x) (0 ∷ 1 ∷ 2 ∷ 3 ∷ [])
unfolding num_nodes all_node_ids quorum
quorum_overlap_example =
    quorum_overlap four_nodes (λ x. leb x 2) (λ x. leb 1 x) refl refl (omega arith) (omega arith)

identities-IsDistinct : IsDistinct (ids_of identities)
unfolding ids_of
identities-IsDistinct a = ground arith
