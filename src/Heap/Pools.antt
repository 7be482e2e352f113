-- ===== src/Heap/Pools.antt =====
-- The pools of kernel/modules/memory/kmem.c: the block that a request gets.
use omocha_os.Base.{
  ℕ, ◌+◌, ◌%◌, ◌^◌, ◌<◌, ◌≤◌, ◌≡◌, ◌≢◌, refl, ◌⊎◌, inl, inr, true, false, ◌==◌, arith, List, [],
  ◌∷◌,
}
use omocha_os.Core.Run.{ok}
use omocha_os.Heap.{block_size, search_pools}
use omocha_os.Heap.Fit.{rb_search_upper-BestFit}
use omocha_os.Rbtree.{Node}
use omocha_os.Rbtree.Shape.{Tree, height, In, Holds, Ordered, In-pos}

-- The memory has an ordered tree, lower than `fuel`, at each of the roots.
abbrev pub AllHold : ℕ → (ℕ → Node) → List Tree → List ℕ → Type 0
AllHold fuel nodes [] [] = Unit
AllHold fuel nodes [] (x ∷ xs) = ⊥
AllHold fuel nodes (t ∷ ts) [] = ⊥
AllHold fuel nodes (t ∷ ts) (x ∷ xs) =
    (height t < fuel) × Holds nodes x 0 t × Ordered nodes t × AllHold fuel nodes ts xs

-- `r` is the smallest block of `key` bytes or more in the first pool that has one, or NULL without
-- such a pool; the pools count from `i` on.
abbrev pub Chosen : (ℕ → Node) → List Tree → (key i pool r : ℕ) → Type 0
Chosen nodes [] key i pool r = r ≡ 0
Chosen nodes (t ∷ ts) key i pool r =
    ((pool ≡ i)
      × In r t
      × (key ≤ (nodes r).key)
      × ((d : ℕ) → In d t → key ≤ (nodes d).key → (nodes r).key ≤ (nodes d).key))
    ⊎ (((d : ℕ) → In d t → (nodes d).key < key) × Chosen nodes ts key (i + 1) pool r)

search_pools_lem :
    (ts : List Tree) (xs : List ℕ) (fuel : ℕ) (nodes : ℕ → Node) (i key : ℕ)
    → AllHold fuel nodes ts xs
    → (nodes 0).key ≢ key
    → (pool : ℕ) × (r : ℕ) × (search_pools fuel nodes xs i key ≡ ok (pool, r))
      × Chosen nodes ts key i pool r
unfolding search_pools
search_pools_lem [] [] fuel nodes i key h null = (i, 0, refl, refl)
search_pools_lem [] (x ∷ xs) fuel nodes i key h null = absurd h
search_pools_lem (t ∷ ts) [] fuel nodes i key h null = absurd h
search_pools_lem (t ∷ ts) (x ∷ xs) fuel nodes i key (f, holds, o, others) null =
    let (s, run, best) = rb_search_upper-BestFit t fuel nodes x 0 key f holds o null in
    elim best [
      | inl (here, large, least) ↦
          let pos : (s == 0) ≡ false = ground (arith, In-pos nodes x 0 s t holds here) in
          (i, s, rw run (rw pos refl), inl (refl, here, large, least))
      | inr (none, small) ↦
          let (pool, r, later, chosen) =
            search_pools_lem ts xs fuel nodes (i + 1) key others null in
          let test : (s == 0) ≡ true = ground arith in
          (pool, r, rw run (rw test later), inr (small, chosen))
    ]

block_size_lem :
    (size : ℕ)
    → size + 28 ≤ 2 ^ 32
    → (size + 12 ≤ block_size size) × (block_size size < size + 28) × (block_size size % 16 ≡ 0)
unfolding block_size
block_size_lem size h = (omega arith, omega arith, omega arith)

Chosen-large :
    (nodes : ℕ → Node) (ts : List Tree) (key i pool r : ℕ)
    → Chosen nodes ts key i pool r
    → (r ≡ 0) ⊎ (key ≤ (nodes r).key)
Chosen-large nodes [] key i pool r null = inl null
Chosen-large nodes (t ∷ ts) key i pool r (inl (place, here, large, least)) = inr large
Chosen-large nodes (t ∷ ts) key i pool r (inr (small, later)) =
    Chosen-large nodes ts key (i + 1) pool r later

-- For pools whose trees are ordered and lower than the fuel, a request that is not near 2^32, and where
-- the word that the code reads as the key of NULL is not the size looked for: that size is the least
-- multiple of 16 with room for the bytes and the head, and the search ends with the smallest block
-- of this size or more of the first pool with such a block, which thus has room for both, or with
-- NULL where no pool has one.
pub search_pools-block_size :
    (ts : List Tree) (xs : List ℕ) (fuel : ℕ) (nodes : ℕ → Node) (size : ℕ)
    → AllHold fuel nodes ts xs
    → size + 28 ≤ 2 ^ 32
    → (nodes 0).key ≢ block_size size
    → (block_size size % 16 ≡ 0)
      × (size + 12 ≤ block_size size)
      × (block_size size < size + 28)
      × ((pool : ℕ) × (r : ℕ) × (search_pools fuel nodes xs 0 (block_size size) ≡ ok (pool, r))
          × Chosen nodes ts (block_size size) 0 pool r
          × ((r ≡ 0) ⊎ (size + 12 ≤ (nodes r).key)))
search_pools-block_size ts xs fuel nodes size h small null =
    let key = block_size size in
    let (pool, r, run, chosen) = search_pools_lem ts xs fuel nodes 0 key h null in
    let (whole, below, even) = block_size_lem size small in
    (
      even,
      whole,
      below,
      (
        pool,
        r,
        run,
        chosen,
        elim (Chosen-large nodes ts key 0 pool r chosen) [
          | inl none ↦ inl none
          | inr large ↦ inr (omega (arith, whole, large))
        ],
      ),
    )
