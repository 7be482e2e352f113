-- ===== src/Rbtree/Put.antt =====
-- Insertion into a search tree as it is meant, for `rb_insert` of kernel/lib/rbtree.c.
use omocha_os.Base.{
  ℕ, ◌<◌, ◌≡◌, ◌≢◌, refl, sym, ap, ◌⊎◌, inl, inr, arith, ltb, if◌then◌else◌, dec_lt, subst,
}
use omocha_os.Rbtree.{Node}
use omocha_os.Rbtree.Shape.{Tree, leaf, node, In, Ordered}

-- `n` as a leaf, where its key belongs.
unfoldable pub put : (ℕ → Node) → ℕ → Tree → Tree
put nodes n leaf = node leaf n leaf
put nodes n (node l a r) =
    if ltb (nodes n).key (nodes a).key then node (put nodes n l) a r else node l a (put nodes n r)

-- No node of the tree has the key of `n`.
abbrev pub IsFresh : (ℕ → Node) → ℕ → Tree → Type 0
IsFresh nodes n t = (c : ℕ) → In c t → (nodes c).key ≢ (nodes n).key

pub put-left :
    (nodes : ℕ → Node) (n a : ℕ) (l r : Tree)
    → (nodes n).key < (nodes a).key
    → put nodes n (node l a r) ≡ node (put nodes n l) a r
unfolding put
put-left nodes n a l r less = ground arith

pub put-right :
    (nodes : ℕ → Node) (n a : ℕ) (l r : Tree)
    → (nodes a).key < (nodes n).key
    → put nodes n (node l a r) ≡ node l a (put nodes n r)
unfolding put
put-right nodes n a l r more = ground arith

pub In-put :
    (nodes : ℕ → Node) (n c : ℕ) (t : Tree)
    → IsFresh nodes n t
    → In c (put nodes n t)
    → (c ≡ n) ⊎ In c t
unfolding put
In-put nodes n c leaf fresh (inl e) = inl e
In-put nodes n c leaf fresh (inr (inl i)) = absurd i
In-put nodes n c leaf fresh (inr (inr i)) = absurd i
In-put nodes n c (node l a r) fresh i = elim (dec_lt (nodes n).key (nodes a).key) [
  | yes less ↦
      on_left (In-put nodes n c l (λ d k. fresh d (inr (inl k))))
        (subst (In c) (put-left nodes n a l r less) i)
  | no more ↦
      let above : (nodes a).key < (nodes n).key = omega (arith, fresh a (inl refl)) in
      on_right (In-put nodes n c r (λ d k. fresh d (inr (inr k))))
        (subst (In c) (put-right nodes n a l r above) i)
]
  where
    on_left :
        (In c (put nodes n l) → (c ≡ n) ⊎ In c l)
        → In c (node (put nodes n l) a r)
        → (c ≡ n) ⊎ In c (node l a r)
    on_left down (inl e) = inr (inl e)
    on_left down (inr (inl j)) = elim (down j) [ inl e ↦ inl e | inr k ↦ inr (inr (inl k)) ]
    on_left down (inr (inr j)) = inr (inr (inr j))

    on_right :
        (In c (put nodes n r) → (c ≡ n) ⊎ In c r)
        → In c (node l a (put nodes n r))
        → (c ≡ n) ⊎ In c (node l a r)
    on_right down (inl e) = inr (inl e)
    on_right down (inr (inl j)) = inr (inr (inl j))
    on_right down (inr (inr j)) = elim (down j) [ inl e ↦ inl e | inr k ↦ inr (inr (inr k)) ]

pub put-Ordered :
    (nodes : ℕ → Node) (n : ℕ) (t : Tree)
    → IsFresh nodes n t
    → Ordered nodes t
    → Ordered nodes (put nodes n t)
unfolding put
put-Ordered nodes n leaf fresh o = ((λ c i. absurd i), (λ c i. absurd i), tt, tt)
put-Ordered nodes n (node l a r) fresh o = elim (dec_lt (nodes n).key (nodes a).key) [
  | yes less ↦ subst (Ordered nodes) (sym (put-left nodes n a l r less)) (
    (λ c i. on_left less c (In-put nodes n c l fresh_l i)),
    o.1,
    put-Ordered nodes n l fresh_l o.2,
    o.3,
  )
  | no more ↦
      let above : (nodes a).key < (nodes n).key = omega (arith, fresh a (inl refl)) in
      subst (Ordered nodes) (sym (put-right nodes n a l r above)) (
        o.0,
        (λ c i. on_right above c (In-put nodes n c r fresh_r i)),
        o.2,
        put-Ordered nodes n r fresh_r o.3,
      )
]
  where
    fresh_l : IsFresh nodes n l
    fresh_l c i = fresh c (inr (inl i))

    fresh_r : IsFresh nodes n r
    fresh_r c i = fresh c (inr (inr i))

    on_left :
        (nodes n).key < (nodes a).key → (c : ℕ) → (c ≡ n) ⊎ In c l → (nodes c).key < (nodes a).key
    on_left less c (inl e) = omega (arith, ap (λ (y : ℕ). (nodes y).key) e)
    on_left less c (inr i) = o.0 c i

    on_right :
        (nodes a).key < (nodes n).key → (c : ℕ) → (c ≡ n) ⊎ In c r → (nodes a).key < (nodes c).key
    on_right more c (inl e) = omega (arith, ap (λ (y : ℕ). (nodes y).key) e)
    on_right more c (inr i) = o.1 c i
