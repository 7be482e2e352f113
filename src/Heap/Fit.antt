-- ===== src/Heap/Fit.antt =====
-- What the search of kernel/modules/memory/kmem.c finds in an ordered tree.
use omocha_os.Base.{
  ℕ, zero, suc, ◌<◌, ◌≤◌, ◌≡◌, ◌≢◌, refl, sym, ap, subst, ◌∙◌, ◌⊎◌, inl, inr, arith, dec_lt,
  ℕ_discrete,
}
use omocha_os.Core.Run.{ok}
use omocha_os.Heap.{rb_search_upper}
use omocha_os.Rbtree.{Node}
use omocha_os.Rbtree.Shape.{Tree, leaf, node, height, In, Holds, Ordered}
use omocha_os.Heap.Rounds.{
  closer, closer_lem, rb_search_upper-null, rb_search_upper-here, rb_search_upper-left,
  rb_search_upper-right,
}

-- Of the blocks `P`, `r` is a smallest one that is large enough, or NULL where there is none.
abbrev pub BestFit : (ℕ → Node) → (P : ℕ → Type 0) → (key r : ℕ) → Type 0
BestFit nodes P key r =
    (P r
      × (key ≤ (nodes r).key)
      × ((d : ℕ) → P d → key ≤ (nodes d).key → (nodes r).key ≤ (nodes d).key))
    ⊎ ((r ≡ 0) × ((d : ℕ) → P d → (nodes d).key < key))

-- The nodes of the tree, and the block `c` from before.
abbrev Or : Tree → (c d : ℕ) → Type 0
Or t c d = In d t ⊎ ((0 < c) × (d ≡ c))

-- Further blocks that are too small, or no smaller than one of the others which fits.
BestFit-more :
    (nodes : ℕ → Node) (P Q : ℕ → Type 0) (key r : ℕ)
    → ((d : ℕ) → P d → Q d)
    → ((d : ℕ)
        → Q d
        → P d
          ⊎ (((nodes d).key < key)
              ⊎ ((e : ℕ) × P e × (key ≤ (nodes e).key) × ((nodes e).key ≤ (nodes d).key))))
    → BestFit nodes P key r
    → BestFit nodes Q key r
BestFit-more nodes P Q key r up down (inl (here, large, least)) = inl (up r here, large, smallest)
  where
    smallest : (d : ℕ) → Q d → key ≤ (nodes d).key → (nodes r).key ≤ (nodes d).key
    smallest d q h = elim (down d q) [
      | inl p ↦ least d p h
      | inr (inl small) ↦ absurd (omega arith)
      | inr (inr (e, p, fits, below)) ↦ omega (arith, least e p fits)
    ]
BestFit-more nodes P Q key r up down (inr (null, none)) = inr (null, too_small)
  where
    too_small : (d : ℕ) → Q d → (nodes d).key < key
    too_small d q = elim (down d q) [
      | inl p ↦ none d p
      | inr (inl small) ↦ small
      | inr (inr (e, p, fits, below)) ↦ absurd (omega (arith, none e p))
    ]

BestFit-left :
    (nodes : ℕ → Node) (l r : Tree) (a key c s : ℕ)
    → 0 < a
    → Ordered nodes (node l a r)
    → key < (nodes a).key
    → (0 < c → key ≤ (nodes c).key)
    → BestFit nodes (Or l (closer nodes c a)) key s
    → BestFit nodes (Or (node l a r) c) key s
BestFit-left nodes l r a key c s pos o less before =
    BestFit-more nodes (Or l (closer nodes c a)) (Or (node l a r) c) key s up down
  where
    up : (d : ℕ) → Or l (closer nodes c a) d → Or (node l a r) c d
    up d (inl i) = inl (inr (inl i))
    up d (inr (p, e)) = elim ((closer_lem nodes key c a pos less before).4) [
      | inl is_a ↦ inl (inl (e ∙ is_a))
      | inr (there, is_c) ↦ inr (there, e ∙ is_c)
    ]

    near :
        (d : ℕ)
        → (nodes (closer nodes c a)).key ≤ (nodes d).key
        → (e : ℕ) × Or l (closer nodes c a) e
          × (key ≤ (nodes e).key)
          × ((nodes e).key ≤ (nodes d).key)
    near d h =
        let (there, large, below, nearer, origin) = closer_lem nodes key c a pos less before in
        (closer nodes c a, inr (there, refl), large, h)

    down :
        (d : ℕ)
        → Or (node l a r) c d
        → Or l (closer nodes c a) d
          ⊎ (((nodes d).key < key)
              ⊎ ((e : ℕ) × Or l (closer nodes c a) e
                  × (key ≤ (nodes e).key)
                  × ((nodes e).key ≤ (nodes d).key)))
    down d (inl (inl e)) = inr (
        inr (
          near d (
            subst (λ (x : ℕ). (nodes (closer nodes c a)).key ≤ (nodes x).key) (sym e)
              (closer_lem nodes key c a pos less before).2)))
    down d (inl (inr (inl i))) = inl (inl i)
    down d (inl (inr (inr i))) =
        let (there, large, below, nearer, origin) = closer_lem nodes key c a pos less before in
        inr (inr (near d (omega (arith, o.1 d i, below))))
    down d (inr (there, e)) = inr (
        inr (
          near d (
            subst (λ (x : ℕ). (nodes (closer nodes c a)).key ≤ (nodes x).key) (sym e)
              ((closer_lem nodes key c a pos less before).3 there))))

BestFit-right :
    (nodes : ℕ → Node) (l r : Tree) (a key c s : ℕ)
    → Ordered nodes (node l a r)
    → (nodes a).key < key
    → BestFit nodes (Or r c) key s
    → BestFit nodes (Or (node l a r) c) key s
BestFit-right nodes l r a key c s o more =
    BestFit-more nodes (Or r c) (Or (node l a r) c) key s up down
  where
    up : (d : ℕ) → Or r c d → Or (node l a r) c d
    up d (inl i) = inl (inr (inr i))
    up d (inr e) = inr e

    down :
        (d : ℕ)
        → Or (node l a r) c d
        → Or r c d
          ⊎ (((nodes d).key < key)
              ⊎ ((e : ℕ) × Or r c e × (key ≤ (nodes e).key) × ((nodes e).key ≤ (nodes d).key)))
    down d (inl (inl e)) = inr (inl (subst (λ (x : ℕ). (nodes x).key < key) (sym e) more))
    down d (inl (inr (inl i))) = inr (inl (omega (arith, o.0 d i)))
    down d (inl (inr (inr i))) = inl (inl i)
    down d (inr e) = inl (inr e)

BestFit-here :
    (nodes : ℕ → Node) (l r : Tree) (a key c : ℕ)
    → (nodes a).key ≡ key
    → BestFit nodes (Or (node l a r) c) key a
BestFit-here nodes l r a key c same =
    inl (inl (inl refl), omega (arith, same), λ d p h. omega (arith, same))

BestFit-leaf :
    (nodes : ℕ → Node) (key c : ℕ) → (0 < c → key ≤ (nodes c).key) → BestFit nodes (Or leaf c) key c
BestFit-leaf nodes key c before = elim (ℕ_discrete c 0) [
  | yes none ↦ inr (none, λ d p. absurd (elim p [ inl i ↦ i | inr (h, e) ↦ omega arith ]))
  | no there ↦ inl (
    inr (omega arith, refl),
    before (omega arith),
    λ d p h. elim p [
      | inl i ↦ absurd i
      | inr (pos, e) ↦ omega (arith, ap (λ (x : ℕ). (nodes x).key) e)
    ],
  )
]

rb_search_upper_lem :
    (t : Tree) (fuel : ℕ) (nodes : ℕ → Node) (x p key c : ℕ)
    → height t < fuel
    → Holds nodes x p t
    → Ordered nodes t
    → (nodes 0).key ≢ key
    → (0 < c → key ≤ (nodes c).key)
    → (s : ℕ) × (rb_search_upper fuel nodes x key c ≡ ok s) × BestFit nodes (Or t c) key s
rb_search_upper_lem leaf zero nodes x p key c f h o null before = absurd (omega arith)
rb_search_upper_lem leaf (suc fuel) nodes x p key c f h o null before = (
  c,
  ap (λ (y : ℕ). rb_search_upper (suc fuel) nodes y key c) h
      ∙ rb_search_upper-null fuel nodes key c null,
  BestFit-leaf nodes key c before,
)
rb_search_upper_lem (node l a r) zero nodes x p key c f h o null before = absurd (omega arith)
rb_search_upper_lem (node l a r) (suc fuel) nodes x p key c f (e, pos, up, hl, hr) o null before =
    let start = ap (λ (y : ℕ). rb_search_upper (suc fuel) nodes y key c) e in
    elim (ℕ_discrete (nodes a).key key) [
      | yes same ↦ (
        a,
        start
            ∙ ap (λ (k : ℕ). rb_search_upper (suc fuel) nodes a k c) (sym same)
            ∙ rb_search_upper-here fuel nodes a c pos,
        BestFit-here nodes l r a key c same,
      )
      | no other ↦ elim (dec_lt key (nodes a).key) [
        | yes less ↦
            let (there, large, below, nearer, origin) = closer_lem nodes key c a pos less before in
            let (s, run, best) =
              rb_search_upper_lem l fuel nodes (nodes a).left a key (closer nodes c a) (omega arith)
                hl o.2 null (λ h. large) in
            (
              s,
              start ∙ rb_search_upper-left fuel nodes a key c pos less ∙ run,
              BestFit-left nodes l r a key c s pos o less before best,
            )
        | no more ↦
            let above : (nodes a).key < key = omega arith in
            let (s, run, best) =
              rb_search_upper_lem r fuel nodes (nodes a).right a key c (omega arith) hr o.3 null
                before in
            (
              s,
              start ∙ rb_search_upper-right fuel nodes a key c pos above ∙ run,
              BestFit-right nodes l r a key c s o above best,
            )
      ]
    ]

-- The search from the root of an ordered tree, with more fuel than the tree is high, where the word
-- that the code reads as the key of NULL is not the size asked for: it ends, and its result is the
-- smallest node of the tree that is large enough, or NULL where every node is smaller.
pub rb_search_upper-BestFit :
    (t : Tree) (fuel : ℕ) (nodes : ℕ → Node) (x p key : ℕ)
    → height t < fuel
    → Holds nodes x p t
    → Ordered nodes t
    → (nodes 0).key ≢ key
    → (s : ℕ) × (rb_search_upper fuel nodes x key 0 ≡ ok s) × BestFit nodes (λ d. In d t) key s
rb_search_upper-BestFit t fuel nodes x p key f h o null =
    let (s, run, best) =
      rb_search_upper_lem t fuel nodes x p key 0 f h o null (λ z. absurd (omega arith)) in
    (
      s,
      run,
      BestFit-more nodes (Or t 0) (λ d. In d t) key s
          (λ d q. elim q [ inl i ↦ i | inr (z, e) ↦ absurd (omega arith) ]) (λ d i. inl (inl i))
          best,
    )
