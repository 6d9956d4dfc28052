-- ===== src/Manager/Epoch/Buckets.antt =====
-- manager/mirmanager.go, `assignBuckets`: which leader proposes requests from which bucket.
pub mod Sums
pub mod Once
use orthrus.Prelude.{
  ℕ, zero, suc, ◌+◌, ◌%◌, Bool, true, false, not, if◌then◌else◌, Option, none, some, List, [], ◌∷◌,
  ◌++◌, lookup, insert, get_elem?, length, contains, ltb, lt32, sort,
}

-- A key that is not in the map reads as an empty list.
unfoldable pub bucket_list : ℕ → List (ℕ × List ℕ) → List ℕ
bucket_list id m = elim (lookup id m) [ none ↦ [] | some bs ↦ bs ]

-- `for b := start; b < num_buckets; b += num_nodes`, on fuel.
unfoldable pub bucket_loop : ℕ → ℕ → ℕ → ℕ → List ℕ
bucket_loop zero b step num = []
bucket_loop (suc fuel) b step num = elim (ltb b num) [
  | true ↦ b ∷ bucket_loop fuel (b + step) step num
  | false ↦ []
]

-- The buckets of the `idx`-th node before those of the others are shared out.
unfoldable pub initial_buckets : ℕ → ℕ → ℕ → ℕ → List ℕ
unfolding bucket_loop
initial_buckets num_nodes num epoch idx =
    bucket_loop (suc num) ((idx + epoch) % num_nodes) num_nodes num

-- The map of initial buckets, for the nodes from the `idx`-th on.
unfoldable pub init_loop : ℕ → ℕ → ℕ → ℕ → List ℕ → List (ℕ × List ℕ) → List (ℕ × List ℕ)
unfolding initial_buckets
init_loop num_nodes num epoch idx [] m = m
init_loop num_nodes num epoch idx (i ∷ is) m =
    init_loop num_nodes num epoch (suc idx) is
      (insert i (initial_buckets num_nodes num epoch idx) m)

-- The buckets of the nodes that lead no segment.
unfoldable pub extra_buckets : List ℕ → List ℕ → List (ℕ × List ℕ) → List ℕ
unfolding bucket_list
extra_buckets [] leaders m = []
extra_buckets (i ∷ is) leaders m =
    if contains i leaders
    then extra_buckets is leaders m
    else bucket_list i m ++ extra_buckets is leaders m

unfoldable pub own_buckets : List ℕ → List (ℕ × List ℕ) → List (ℕ × List ℕ) → List (ℕ × List ℕ)
unfolding bucket_list
own_buckets [] m final = final
own_buckets (l ∷ ls) m final = own_buckets ls m (insert l (bucket_list l m) final)

-- `sortedLeaders[(b+epoch)%len(sortedLeaders)]`; the index is in range if there is a leader.
unfoldable pub extra_leader : ℕ → List ℕ → ℕ → ℕ
extra_leader epoch sorted b = elim (get_elem? sorted ((b + epoch) % length sorted)) [
  | none ↦ 0
  | some l ↦ l
]

unfoldable pub share_extra : ℕ → List ℕ → List ℕ → List (ℕ × List ℕ) → List (ℕ × List ℕ)
unfolding extra_leader bucket_list
share_extra epoch sorted [] final = final
share_extra epoch sorted (b ∷ bs) final =
    let l = extra_leader epoch sorted b in
    share_extra epoch sorted bs (insert l (bucket_list l final ++ b ∷ []) final)

-- `assignBuckets`. The number of nodes is that of the node ids.
unfoldable pub assign_buckets : List ℕ → ℕ → ℕ → List ℕ → List (ℕ × List ℕ)
unfolding init_loop extra_buckets own_buckets share_extra
assign_buckets ids num epoch leaders =
    let sorted = sort lt32 leaders in
    let initial = init_loop (length ids) num epoch 0 ids [] in
    share_extra epoch sorted (extra_buckets ids leaders initial) (own_buckets sorted initial [])
