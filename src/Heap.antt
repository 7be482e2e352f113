-- ===== src/Heap.antt =====
-- kernel/modules/memory/kmem.c: the search of the kernel heap for a free block. The blocks of a pool
-- are the nodes of a red-black tree; their key is their size with their head.
pub mod Rounds
pub mod Fit
pub mod Pools
mod Tests
use omocha_os.Base.{
  ℕ, zero, suc, ◌+◌, ◌-◌, ◌*◌, ◌/◌, ◌%◌, ◌^◌, ◌==◌, ◌||◌, ltb, List, [], ◌∷◌, if◌then◌else◌,
}
use omocha_os.Core.Run.{Run, ok, out_of_fuel, ◌>>=◌}
use omocha_os.Rbtree.{Node}

-- From `x` on, with the closest block so far, or NULL. One unit of fuel for each level, and one for
-- the end, where the code looks at the key of NULL too.
unfoldable pub rb_search_upper : ℕ → (ℕ → Node) → (x key closet : ℕ) → Run ℕ
rb_search_upper zero nodes x key closet = out_of_fuel
rb_search_upper (suc fuel) nodes x key closet =
    let size = (nodes x).key in
    let lower = ltb key size in
    let closer = if (closet == 0) || ltb size (nodes closet).key then x else closet in
    let rest =
      rb_search_upper fuel nodes (if lower then (nodes x).left else (nodes x).right) key
        (if lower then closer else closet) in
    if x == 0 then ok (if size == key then 0 else closet) else if size == key then ok x else rest

-- The size of the block for a request, with its head of 12 bytes, in units of 16 bytes.
unfoldable pub block_size : (size : ℕ) → ℕ
block_size size = ((size + 12) % 2 ^ 32 + 15) % 2 ^ 32 / 16 * 16

-- The pools one after the other, each given by the root of its tree: the number of the pool that has
-- a block, and the block, or NULL.
unfoldable pub search_pools : ℕ → (ℕ → Node) → List ℕ → (pool key : ℕ) → Run (ℕ × ℕ)
search_pools fuel nodes [] pool key = ok (pool, 0)
search_pools fuel nodes (root ∷ roots) pool key = do
  node ← rb_search_upper fuel nodes root key 0
  let later = search_pools fuel nodes roots (pool + 1) key
  if node == 0 then later else ok (pool, node)
