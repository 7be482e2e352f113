-- ===== src/Rbtree/Shape.antt =====
-- The nodes of kernel/lib/rbtree.c as a binary tree of addresses.
use omocha_os.Base.{
  ℕ, ◌+◌, ◌<◌, ◌≡◌, ◌≢◌, refl, sym, ap, ◌∙◌, ◌⊎◌, inl, inr, max, arith, List, [], ◌∷◌, ◌++◌, subst,
}
use omocha_os.Rbtree.{Node}

pub data Tree : Type 0 where
  leaf : Tree
  node : (l : Tree) (a : ℕ) (r : Tree) → Tree

abbrev pub height : Tree → ℕ
height leaf = 0
height (node l a r) = max (height l) (height r) + 1

abbrev pub In : ℕ → Tree → Type 0
In c leaf = ⊥
In c (node l a r) = (c ≡ a) ⊎ (In c l ⊎ In c r)

abbrev pub in_order : Tree → List ℕ
in_order leaf = []
in_order (node l a r) = in_order l ++ (a ∷ in_order r)

-- The memory holds the tree below address `x`, with parent `p`.
abbrev pub Holds : (nodes : ℕ → Node) → (x p : ℕ) → Tree → Type 0
Holds nodes x p leaf = x ≡ 0
Holds nodes x p (node l a r) =
    (x ≡ a)
    × (0 < a)
    × ((nodes a).parent ≡ p)
    × Holds nodes (nodes a).left a l
    × Holds nodes (nodes a).right a r

-- The keys on the left of a node are below its key, those on the right above it.
abbrev pub Ordered : (ℕ → Node) → Tree → Type 0
Ordered nodes leaf = Unit
Ordered nodes (node l a r) =
    ((c : ℕ) → In c l → (nodes c).key < (nodes a).key)
    × ((c : ℕ) → In c r → (nodes a).key < (nodes c).key)
    × Ordered nodes l
    × Ordered nodes r

-- Memories with the same nodes at the addresses of the tree.
pub Holds-cong :
    (nodes nodes' : ℕ → Node) (x p : ℕ) (t : Tree)
    → ((c : ℕ) → In c t → nodes' c ≡ nodes c)
    → Holds nodes x p t
    → Holds nodes' x p t
Holds-cong nodes nodes' x p leaf same h = h
Holds-cong nodes nodes' x p (node l a r) same (e, pos, up, hl, hr) =
    let here = same a (inl refl) in
    (
      e,
      pos,
      ap (λ (n : Node). n.parent) here ∙ up,
      subst (λ (b : ℕ). Holds nodes' b a l) (sym (ap (λ (n : Node). n.left) here))
          (Holds-cong nodes nodes' (nodes a).left a l (λ c i. same c (inr (inl i))) hl),
      subst (λ (b : ℕ). Holds nodes' b a r) (sym (ap (λ (n : Node). n.right) here))
          (Holds-cong nodes nodes' (nodes a).right a r (λ c i. same c (inr (inr i))) hr),
    )

pub Ordered-cong :
    (nodes nodes' : ℕ → Node) (t : Tree)
    → ((c : ℕ) → (nodes' c).key ≡ (nodes c).key)
    → Ordered nodes t
    → Ordered nodes' t
Ordered-cong nodes nodes' leaf same o = tt
Ordered-cong nodes nodes' (node l a r) same (ol, or, l_ordered, r_ordered) = (
  (λ c i. omega (arith, ol c i, same c, same a)),
  (λ c i. omega (arith, or c i, same c, same a)),
  Ordered-cong nodes nodes' l same l_ordered,
  Ordered-cong nodes nodes' r same r_ordered,
)

pub In-pos : (nodes : ℕ → Node) (x p c : ℕ) (t : Tree) → Holds nodes x p t → In c t → 0 < c
In-pos nodes x p c leaf h i = absurd i
In-pos nodes x p c (node l a r) (e, pos, up, hl, hr) (inl c_a) = omega (arith, c_a)
In-pos nodes x p c (node l a r) (e, pos, up, hl, hr) (inr (inl i)) =
    In-pos nodes (nodes a).left a c l hl i
In-pos nodes x p c (node l a r) (e, pos, up, hl, hr) (inr (inr i)) =
    In-pos nodes (nodes a).right a c r hr i

-- The root of a tree.
abbrev pub IsTop : (ℕ → Node) → (x p : ℕ) → Tree → Type 0
IsTop nodes x p t = (x ≡ 0) ⊎ ((0 < x) × ((nodes x).parent ≡ p) × In x t)

pub Holds-IsTop : (nodes : ℕ → Node) (x p : ℕ) (t : Tree) → Holds nodes x p t → IsTop nodes x p t
Holds-IsTop nodes x p leaf h = inl h
Holds-IsTop nodes x p (node l a r) (e, pos, up, hl, hr) =
    inr (omega arith, ap (λ (y : ℕ). (nodes y).parent) e ∙ up, inl e)

-- Different keys, different nodes.
pub key-apart : (nodes : ℕ → Node) (c d : ℕ) → (nodes c).key < (nodes d).key → c ≢ d
key-apart nodes c d less e = omega (arith, ap (λ (n : ℕ). (nodes n).key) e)

-- The root of the tree gets another parent.
pub Holds-reparent :
    (nodes nodes' : ℕ → Node) (b a x : ℕ) (t : Tree)
    → Holds nodes b a t
    → Ordered nodes t
    → ((c : ℕ) → In c t → c ≢ b → nodes' c ≡ nodes c)
    → (0 < b → nodes' b ≡ record (nodes b) { parent = x })
    → Holds nodes' b x t
Holds-reparent nodes nodes' b a x leaf h o same top = h
Holds-reparent nodes nodes' b a x (node l c r) (e, pos, up, hl, hr) o same top =
    let here : nodes' c ≡ record (nodes c) { parent = x } =
      subst (λ (y : ℕ). nodes' y ≡ record (nodes y) { parent = x }) e (top (omega arith)) in
    let on_left : (d : ℕ) → In d l → nodes' d ≡ nodes d =
      λ d i. same d (inr (inl i)) (λ d_b. key-apart nodes d c (o.0 d i) (d_b ∙ e)) in
    let on_right : (d : ℕ) → In d r → nodes' d ≡ nodes d =
      λ d i. same d (inr (inr i)) (λ d_b. key-apart nodes c d (o.1 d i) (sym (d_b ∙ e))) in
    (
      e,
      pos,
      ap (λ (n : Node). n.parent) here,
      subst (λ (y : ℕ). Holds nodes' y c l) (sym (ap (λ (n : Node). n.left) here))
          (Holds-cong nodes nodes' (nodes c).left c l on_left hl),
      subst (λ (y : ℕ). Holds nodes' y c r) (sym (ap (λ (n : Node). n.right) here))
          (Holds-cong nodes nodes' (nodes c).right c r on_right hr),
    )
