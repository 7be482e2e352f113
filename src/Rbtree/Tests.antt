-- ===== src/Rbtree/Tests.antt =====
-- Trees of up to four nodes, with the keys 10, 20, 30 and 40.
use omocha_os.Base.{ℕ, ◌<◌, ◌≡◌, ◌≢◌, refl, inl, inr, arith, ◌==◌, if◌then◌else◌}
use omocha_os.Core.Run.{ok}
use omocha_os.Rbtree.{Node, RbTree, rb_search, rb_left_rotate, link_below}
use omocha_os.Rbtree.Shape.{Tree, leaf, node, In, Holds, Ordered}
use omocha_os.Rbtree.Search.{Found, rb_search-Found}
use omocha_os.Rbtree.Rotate.{Replaced}
use omocha_os.Rbtree.Turned.{rb_left_rotate-Holds}
use omocha_os.Rbtree.Link.{Result, link_below-Result}

abbrev three : ℕ → Node
three c =
    if c == 16
    then record { key = 10; parent = 0; color = 0; left = 0; right = 48 }
    else if c == 48
    then record { key = 30; parent = 16; color = 0; left = 32; right = 0 }
    else if c == 32
    then record { key = 20; parent = 48; color = 1; left = 0; right = 0 }
    else record { key = 25; parent = 0; color = 0; left = 0; right = 0 }

abbrev three_tree : Tree
three_tree = node leaf 16 (node (node leaf 32 leaf) 48 leaf)

three-Holds : Holds three 16 0 three_tree
three-Holds = (
  refl,
  omega arith,
  refl,
  refl,
  (refl, omega arith, refl, (refl, omega arith, refl, refl, refl), refl),
)

three-Ordered : Ordered three three_tree
three-Ordered = (
  (λ c i. absurd i),
  right,
  tt,
  (middle, (λ c i. absurd i), ((λ c i. absurd i), (λ c i. absurd i), tt, tt), tt),
)
  where
    middle : (c : ℕ) → In c (node leaf 32 leaf) → (three c).key < 30
    middle c (inl e) = ground (arith, e)
    middle c (inr (inl i)) = absurd i
    middle c (inr (inr i)) = absurd i

    right : (c : ℕ) → In c (node (node leaf 32 leaf) 48 leaf) → 10 < (three c).key
    right c (inl e) = ground (arith, e)
    right c (inr (inl (inl e))) = ground (arith, e)
    right c (inr (inl (inr (inl i)))) = absurd i
    right c (inr (inl (inr (inr i)))) = absurd i
    right c (inr (inr i)) = absurd i

rb_search-Found_example : (s : ℕ) × (rb_search 4 three 16 20 ≡ ok s) × Found three three_tree 20 s
rb_search-Found_example =
    rb_search-Found three_tree 4 three 16 0 20 (omega arith) three-Holds three-Ordered

abbrev one_root : RbTree
one_root = record { root = 16; nodes = three }

-- None of the tree's nodes is `c`.
none_of : (c : ℕ) → c ≢ 16 → c ≢ 32 → c ≢ 48 → ¬ In c three_tree
none_of c a b d (inl e) = a e
none_of c a b d (inr (inr (inl e))) = d e
none_of c a b d (inr (inr (inr (inl (inl e))))) = b e
none_of c a b d (inr (inr (inr (inl (inr (inl i)))))) = i
none_of c a b d (inr (inr (inr (inl (inr (inr i)))))) = i
none_of c a b d (inr (inr (inr (inr i)))) = i
none_of c a b d (inr (inl i)) = i

rb_left_rotate-Holds_example :
    Holds (rb_left_rotate one_root 16).nodes 48 0 (node (node leaf 16 (node leaf 32 leaf)) 48 leaf)
    × Ordered (rb_left_rotate one_root 16).nodes (node (node leaf 16 (node leaf 32 leaf)) 48 leaf)
    × Replaced one_root (rb_left_rotate one_root 16) 16 0 48
    × ((rb_left_rotate one_root 16).nodes 64 ≡ three 64)
rb_left_rotate-Holds_example =
    rb_left_rotate-Holds one_root 16 0 48 64 leaf (node leaf 32 leaf) leaf
      (record {
        holds = three-Holds;
        ordered = three-Ordered;
        outside = λ c i e. none_of c (λ k. omega arith) (λ k. omega arith) (λ k. omega arith) i;
        child = inl refl;
      })
      (none_of 64 (λ e. omega arith) (λ e. omega arith) (λ e. omega arith)) (λ e. omega arith)

-- The node at 64, with key 25.
link_below-Result_example : Result three 16 0 64 three_tree (link_below 4 three 64 16)
link_below-Result_example =
    link_below-Result three_tree 4 three 16 0 64 (omega arith) (omega arith) three-Holds
      three-Ordered
      (record {
        pos = omega arith;
        left = refl;
        right = refl;
        apart = λ c i e. none_of c (λ k. omega arith) (λ k. omega arith) (λ k. omega arith) i;
      })
