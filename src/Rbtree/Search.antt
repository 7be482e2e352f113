-- ===== src/Rbtree/Search.antt =====
-- `rb_search` of kernel/lib/rbtree.c, against the keys of the tree.
use omocha_os.Base.{
  ℕ, zero, suc, ◌<◌, ◌≡◌, ◌≢◌, refl, sym, ap, ◌∙◌, ◌⊎◌, inl, inr, arith, dec_lt, ℕ_discrete,
}
use omocha_os.Core.Run.{ok}
use omocha_os.Rbtree.{Node, rb_search}
use omocha_os.Rbtree.Shape.{Tree, leaf, node, height, In, Holds, Ordered}

-- `r` is the node of the tree with the key, or 0 where it has none.
abbrev pub Found : (ℕ → Node) → Tree → (key r : ℕ) → Type 0
Found nodes t key r =
    (In r t × ((nodes r).key ≡ key)) ⊎ ((r ≡ 0) × ((c : ℕ) → In c t → (nodes c).key ≢ key))

rb_search-null : (fuel : ℕ) (nodes : ℕ → Node) (key : ℕ) → rb_search (suc fuel) nodes 0 key ≡ ok 0
unfolding rb_search
rb_search-null fuel nodes key = ground arith

rb_search-here :
    (fuel : ℕ) (nodes : ℕ → Node) (a : ℕ)
    → 0 < a
    → rb_search (suc fuel) nodes a (nodes a).key ≡ ok a
unfolding rb_search
rb_search-here fuel nodes a pos = ground arith

rb_search-left :
    (fuel : ℕ) (nodes : ℕ → Node) (a key : ℕ)
    → 0 < a
    → key < (nodes a).key
    → rb_search (suc fuel) nodes a key ≡ rb_search fuel nodes (nodes a).left key
unfolding rb_search
rb_search-left fuel nodes a key pos less = ground arith

rb_search-right :
    (fuel : ℕ) (nodes : ℕ → Node) (a key : ℕ)
    → 0 < a
    → (nodes a).key < key
    → rb_search (suc fuel) nodes a key ≡ rb_search fuel nodes (nodes a).right key
unfolding rb_search
rb_search-right fuel nodes a key pos more = ground arith

Found-left :
    (nodes : ℕ → Node) (l r : Tree) (a key s : ℕ)
    → Ordered nodes (node l a r)
    → key < (nodes a).key
    → Found nodes l key s
    → Found nodes (node l a r) key s
Found-left nodes l r a key s o less (inl (i, e)) = inl (inr (inl i), e)
Found-left nodes l r a key s o less (inr (e, none)) = inr (e, absent)
  where
    absent : (c : ℕ) → In c (node l a r) → (nodes c).key ≢ key
    absent c (inl c_a) same = omega (arith, ap (λ (n : ℕ). (nodes n).key) c_a)
    absent c (inr (inl i)) same = none c i same
    absent c (inr (inr i)) same = omega (arith, o.1 c i)

Found-right :
    (nodes : ℕ → Node) (l r : Tree) (a key s : ℕ)
    → Ordered nodes (node l a r)
    → (nodes a).key < key
    → Found nodes r key s
    → Found nodes (node l a r) key s
Found-right nodes l r a key s o more (inl (i, e)) = inl (inr (inr i), e)
Found-right nodes l r a key s o more (inr (e, none)) = inr (e, absent)
  where
    absent : (c : ℕ) → In c (node l a r) → (nodes c).key ≢ key
    absent c (inl c_a) same = omega (arith, ap (λ (n : ℕ). (nodes n).key) c_a)
    absent c (inr (inl i)) same = omega (arith, o.0 c i)
    absent c (inr (inr i)) same = none c i same

-- `rb_search` in memory that holds an ordered tree, with more fuel than the tree is high, ends,
-- and its result is a node of the tree with the key, or NULL where no node of the tree has the key.
pub rb_search-Found :
    (t : Tree) (fuel : ℕ) (nodes : ℕ → Node) (x p key : ℕ)
    → height t < fuel
    → Holds nodes x p t
    → Ordered nodes t
    → (s : ℕ) × (rb_search fuel nodes x key ≡ ok s) × Found nodes t key s
rb_search-Found leaf zero nodes x p key f h o = absurd (omega arith)
rb_search-Found leaf (suc fuel) nodes x p key f h o = (
  0,
  ap (λ (y : ℕ). rb_search (suc fuel) nodes y key) h ∙ rb_search-null fuel nodes key,
  inr (refl, λ c i e. i),
)
rb_search-Found (node l a r) zero nodes x p key f h o = absurd (omega arith)
rb_search-Found (node l a r) (suc fuel) nodes x p key f (e, pos, up, hl, hr) o =
    let start = ap (λ (y : ℕ). rb_search (suc fuel) nodes y key) e in
    elim (ℕ_discrete (nodes a).key key) [
      | yes same ↦ (
        a,
        start ∙ ap (rb_search (suc fuel) nodes a) (sym same) ∙ rb_search-here fuel nodes a pos,
        inl (inl refl, same),
      )
      | no other ↦ elim (dec_lt key (nodes a).key) [
        | yes less ↦
            let (s, run, found) =
              rb_search-Found l fuel nodes (nodes a).left a key (omega arith) hl o.2 in
            (
              s,
              start ∙ rb_search-left fuel nodes a key pos less ∙ run,
              Found-left nodes l r a key s o less found,
            )
        | no more ↦
            let above : (nodes a).key < key = omega arith in
            let (s, run, found) =
              rb_search-Found r fuel nodes (nodes a).right a key (omega arith) hr o.3 in
            (
              s,
              start ∙ rb_search-right fuel nodes a key pos above ∙ run,
              Found-right nodes l r a key s o above found,
            )
      ]
    ]
