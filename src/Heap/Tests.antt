-- ===== src/Heap/Tests.antt =====
-- Two pools: blocks of 64 and 160 bytes, and one of 96 bytes.
use omocha_os.Base.{
  ℕ, ◌%◌, ◌+◌, ◌<◌, ◌≤◌, ◌≡◌, ◌≢◌, refl, ◌⊎◌, inl, inr, arith, ◌==◌, if◌then◌else◌, [], ◌∷◌,
}
use omocha_os.Core.Run.{ok}
use omocha_os.Heap.{block_size, search_pools}
use omocha_os.Heap.Pools.{AllHold, Chosen, search_pools-block_size}
use omocha_os.Rbtree.{Node}
use omocha_os.Rbtree.Shape.{Tree, leaf, node, In}

abbrev blocks : ℕ → Node
blocks c =
    if c == 64
    then record { key = 64; parent = 0; color = 0; left = 0; right = 256 }
    else if c == 256
    then record { key = 160; parent = 64; color = 1; left = 0; right = 0 }
    else if c == 512
    then record { key = 96; parent = 0; color = 0; left = 0; right = 0 }
    else record { key = 25; parent = 0; color = 0; left = 0; right = 0 }

abbrev first_pool : Tree
first_pool = node leaf 64 (node leaf 256 leaf)

abbrev second_pool : Tree
second_pool = node leaf 512 leaf

blocks-AllHold : AllHold 3 blocks (first_pool ∷ second_pool ∷ []) (64 ∷ 512 ∷ [])
blocks-AllHold = (
  omega arith,
  (refl, omega arith, refl, refl, (refl, omega arith, refl, refl, refl)),
  ((λ c i. absurd i), right, tt, ((λ c i. absurd i), (λ c i. absurd i), tt, tt)),
  (
    omega arith,
    (refl, omega arith, refl, refl, refl),
    ((λ c i. absurd i), (λ c i. absurd i), tt, tt),
    tt,
  ),
)
  where
    right : (c : ℕ) → In c (node leaf 256 leaf) → 64 < (blocks c).key
    right c (inl e) = ground (arith, e)
    right c (inr (inl i)) = absurd i
    right c (inr (inr i)) = absurd i

other : (blocks 0).key ≢ block_size 70
unfolding block_size
other e = omega (arith, e)

search_pools-block_size_example :
    (block_size 70 % 16 ≡ 0)
    × (70 + 12 ≤ block_size 70)
    × (block_size 70 < 70 + 28)
    × ((pool : ℕ) × (r : ℕ) × (search_pools 3 blocks (64 ∷ 512 ∷ []) 0 (block_size 70)
          ≡ ok (pool, r))
        × Chosen blocks (first_pool ∷ second_pool ∷ []) (block_size 70) 0 pool r
        × ((r ≡ 0) ⊎ (70 + 12 ≤ (blocks r).key)))
search_pools-block_size_example =
    search_pools-block_size (first_pool ∷ second_pool ∷ []) (64 ∷ 512 ∷ []) 3 blocks 70
      blocks-AllHold (omega arith) other
