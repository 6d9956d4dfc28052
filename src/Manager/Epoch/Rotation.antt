-- ===== src/Manager/Epoch/Rotation.antt =====
-- The leaders of a segment are all nodes, beginning with the one that it was made for.
use orthrus.Prelude.{
  ℕ, zero, suc, ◌+◌, ◌≡◌, true, some, List, [], ◌∷◌, ◌++◌, arith, get_elem?, contains, count,
  count-append, take, drop,
}
use orthrus.Manager.Epoch.{leader_offset, rotated}

count-take-drop : (a n : ℕ) (xs : List ℕ) → count a (take n xs) + count a (drop n xs) ≡ count a xs
count-take-drop a zero xs = omega arith
count-take-drop a (suc n) [] = omega arith
count-take-drop a (suc n) (x ∷ xs) = omega (arith, count-take-drop a n xs)

-- The rotated list has the same nodes, each as often.
pub count-rotated : (a leader : ℕ) (ids : List ℕ) → count a (rotated leader ids) ≡ count a ids
unfolding rotated
count-rotated a leader ids = omega (
  arith,
  count-append a (drop (leader_offset leader ids) ids) (take (leader_offset leader ids) ids),
  count-take-drop a (leader_offset leader ids) ids,
)

head_of_drop :
    (leader : ℕ) (ids rest : List ℕ)
    → contains leader ids ≡ true
    → get_elem? (drop (leader_offset leader ids) ids ++ rest) 0 ≡ some leader
unfolding leader_offset
head_of_drop leader [] rest h = cc
head_of_drop leader (x ∷ []) rest h = ground arith
head_of_drop leader (x ∷ y ∷ ys) rest h = ground (arith, head_of_drop leader (y ∷ ys) rest)

-- The first leader of the rotation is the node that it was made for, if that is a node.
pub rotated-head :
    (leader : ℕ) (ids : List ℕ)
    → contains leader ids ≡ true
    → get_elem? (rotated leader ids) 0 ≡ some leader
unfolding rotated
rotated-head leader ids h = head_of_drop leader ids (take (leader_offset leader ids) ids) h
