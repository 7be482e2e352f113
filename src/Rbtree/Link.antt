-- ===== src/Rbtree/Link.antt =====
-- The loop of `rb_insert` of kernel/lib/rbtree.c: where it links a new node.
use omocha_os.Base.{
  ℕ, zero, suc, ◌<◌, ◌≡◌, refl, sym, ◌⊎◌, inl, inr, arith, dec_lt, ℕ_discrete, subst,
}
use omocha_os.Core.Run.{Run, ok}
use omocha_os.Rbtree.{Node, set_parent, set_left, set_right, link_below}
use omocha_os.Rbtree.Shape.{Tree, leaf, node, height, In, Holds, Ordered}
use omocha_os.Rbtree.Put.{IsFresh}
use omocha_os.Rbtree.Grow.{
  Loose, Linked, Loose-left, Loose-right, grow_left, grow_right, IsFresh-left, IsFresh-right,
  put_left_end, put_right_end, empty, IsFresh-empty,
}

-- What comes of the loop: the key is there, or `n` is linked below `q`.
abbrev pub Result : (nodes : ℕ → Node) → (x p n : ℕ) → Tree → Run ((ℕ → Node) × ℕ) → Type 0
Result nodes x p n t run =
    ((c : ℕ) × In c t × ((nodes c).key ≡ (nodes n).key) × (run ≡ ok (nodes, 0)))
    ⊎ ((linked : ℕ → Node) × (q : ℕ) × (run ≡ ok (linked, q))
        × (0 < q)
        × IsFresh nodes n t
        × Linked nodes (set_parent linked n q) x p n t)

link_below-same :
    (fuel : ℕ) (nodes : ℕ → Node) (n a : ℕ)
    → (nodes a).key ≡ (nodes n).key
    → link_below (suc fuel) nodes n a ≡ ok (nodes, 0)
unfolding link_below
link_below-same fuel nodes n a e = ground (arith, e)

link_below-left :
    (fuel : ℕ) (nodes : ℕ → Node) (n a : ℕ)
    → (nodes n).key < (nodes a).key
    → 0 < (nodes a).left
    → link_below (suc fuel) nodes n a ≡ link_below fuel nodes n (nodes a).left
unfolding link_below
link_below-left fuel nodes n a less some = ground arith

link_below-right :
    (fuel : ℕ) (nodes : ℕ → Node) (n a : ℕ)
    → (nodes a).key < (nodes n).key
    → 0 < (nodes a).right
    → link_below (suc fuel) nodes n a ≡ link_below fuel nodes n (nodes a).right
unfolding link_below
link_below-right fuel nodes n a more some = ground arith

link_below-left_end :
    (fuel : ℕ) (nodes : ℕ → Node) (n a : ℕ)
    → (nodes n).key < (nodes a).key
    → (nodes a).left ≡ 0
    → link_below (suc fuel) nodes n a ≡ ok (set_left nodes a n, a)
unfolding link_below
link_below-left_end fuel nodes n a less none = ground (arith, none)

link_below-right_end :
    (fuel : ℕ) (nodes : ℕ → Node) (n a : ℕ)
    → (nodes a).key < (nodes n).key
    → (nodes a).right ≡ 0
    → link_below (suc fuel) nodes n a ≡ ok (set_right nodes a n, a)
unfolding link_below
link_below-right_end fuel nodes n a more none = ground (arith, none)

Result-left :
    (nodes : ℕ → Node) (x p n a : ℕ) (l r : Tree) (run : Run ((ℕ → Node) × ℕ))
    → Holds nodes x p (node l a r)
    → Ordered nodes (node l a r)
    → Loose nodes n (node l a r)
    → (nodes n).key < (nodes a).key
    → Result nodes (nodes a).left a n l run
    → Result nodes x p n (node l a r) run
Result-left nodes x p n a l r run h o w less (inl (c, i, e, k)) = inl (c, inr (inl i), e, k)
Result-left nodes x p n a l r run h o w less (inr (linked, q, e, pos, fresh, k)) = inr (
  linked,
  q,
  e,
  pos,
  IsFresh-left nodes (set_parent linked n q) x p n a l r h o w less fresh,
  grow_left nodes (set_parent linked n q) x p n a l r h o w less k,
)

Result-right :
    (nodes : ℕ → Node) (x p n a : ℕ) (l r : Tree) (run : Run ((ℕ → Node) × ℕ))
    → Holds nodes x p (node l a r)
    → Ordered nodes (node l a r)
    → Loose nodes n (node l a r)
    → (nodes a).key < (nodes n).key
    → Result nodes (nodes a).right a n r run
    → Result nodes x p n (node l a r) run
Result-right nodes x p n a l r run h o w more (inl (c, i, e, k)) = inl (c, inr (inr i), e, k)
Result-right nodes x p n a l r run h o w more (inr (linked, q, e, pos, fresh, k)) = inr (
  linked,
  q,
  e,
  pos,
  IsFresh-right nodes (set_parent linked n q) x p n a l r h o w more fresh,
  grow_right nodes (set_parent linked n q) x p n a l r h o w more k,
)

-- The loop of `rb_insert` from a node `x` on, where the memory below `x` holds an ordered tree and
-- `n` is a node outside it without children, with fuel for each level of the tree: it ends; either
-- the tree has a node with the key of `n` and the memory stays as it was, or no node has its key
-- and `n` is linked below a node `q`. With `q` as the parent of `n` the memory then holds the tree
-- with `n` put in as a leaf where its key belongs, every node outside the tree is as it was, and
-- no key is another.
pub link_below-Result :
    (t : Tree) (fuel : ℕ) (nodes : ℕ → Node) (x p n : ℕ)
    → height t < fuel
    → 0 < x
    → Holds nodes x p t
    → Ordered nodes t
    → Loose nodes n t
    → Result nodes x p n t (link_below fuel nodes n x)
link_below-Result leaf fuel nodes x p n f some h o w = absurd (omega (arith, h))
link_below-Result (node l a r) zero nodes x p n f some h o w = absurd (omega arith)
link_below-Result (node l a r) (suc fuel) nodes x p n f some h o w =
    let from : Result nodes x p n (node l a r) (link_below (suc fuel) nodes n a)
        → Result nodes x p n (node l a r) (link_below (suc fuel) nodes n x) =
      subst (λ (y : ℕ). Result nodes x p n (node l a r) (link_below (suc fuel) nodes n y))
        (sym h.0) in
    from (elim (ℕ_discrete (nodes a).key (nodes n).key) [
      | yes same ↦ inl (a, inl refl, same, link_below-same fuel nodes n a same)
      | no other ↦ elim (dec_lt (nodes n).key (nodes a).key) [
        | yes less ↦ elim (dec_lt 0 (nodes a).left) [
          | yes down ↦
              subst (Result nodes x p n (node l a r))
                (sym (link_below-left fuel nodes n a less down))
                (Result-left nodes x p n a l r _ h o w less (
                  link_below-Result l fuel nodes (nodes a).left a n (omega arith) down h.3 o.2
                    (Loose-left nodes n a l r w)))
          | no end ↦
              let none : (nodes a).left ≡ 0 = omega arith in
              let no_l = empty nodes (nodes a).left a l h.3 none in
              inr (
                set_left nodes a n,
                a,
                link_below-left_end fuel nodes n a less none,
                h.1,
                IsFresh-left nodes nodes x p n a l r h o w less (IsFresh-empty nodes n l no_l),
                put_left_end nodes (set_parent (set_left nodes a n) n a) x p n a l r h o w less no_l
                    refl,
              )
        ]
        | no more ↦
            let above : (nodes a).key < (nodes n).key = omega arith in
            elim (dec_lt 0 (nodes a).right) [
              | yes down ↦
                  subst (Result nodes x p n (node l a r))
                    (sym (link_below-right fuel nodes n a above down))
                    (Result-right nodes x p n a l r _ h o w above (
                      link_below-Result r fuel nodes (nodes a).right a n (omega arith) down h.4 o.3
                        (Loose-right nodes n a l r w)))
              | no end ↦
                  let none : (nodes a).right ≡ 0 = omega arith in
                  let no_r = empty nodes (nodes a).right a r h.4 none in
                  inr (
                    set_right nodes a n,
                    a,
                    link_below-right_end fuel nodes n a above none,
                    h.1,
                    IsFresh-right nodes nodes x p n a l r h o w above
                        (IsFresh-empty nodes n r no_r),
                    put_right_end nodes (set_parent (set_right nodes a n) n a) x p n a l r h o w
                        above no_r refl,
                  )
            ]
      ]
    ])
