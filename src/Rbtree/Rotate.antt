-- ===== src/Rbtree/Rotate.antt =====
-- The rotations of kernel/lib/rbtree.c.
use omocha_os.Base.{
  ℕ, ◌<◌, ◌≡◌, ◌≢◌, sym, ap, ◌∙◌, ◌⊎◌, inl, inr, arith, ◌==◌, if◌then◌else◌, ℕ_discrete,
}
use omocha_os.Rbtree.{
  Node, RbTree, set_left, set_right, set_parent, rb_detach, rb_transplant, rb_left_rotate,
  hang_left,
}

-- `a` is the right child of `x`, `b` is what it takes over, and `p` is the parent.
pub record Turn (t : RbTree) (x p a b : ℕ) : Type 0 where
  pub right : (t.nodes x).right ≡ a
  pub left : (t.nodes a).left ≡ b
  pub up_a : (t.nodes a).parent ≡ x
  pub up_x : (t.nodes x).parent ≡ p
  pub other : (t.nodes x).left ≢ a
  pub pos_x : 0 < x
  pub pos_a : 0 < a
  pub x_a : x ≢ a
  pub b_x : b ≢ x
  pub b_a : b ≢ a
  pub p_x : p ≢ x
  pub p_a : p ≢ a

detach_lem :
    (t : RbTree) (x p a b : ℕ)
    → Turn t x p a b
    → rb_detach t.nodes a ≡ set_parent (set_right t.nodes x 0) a 0
unfolding rb_detach
detach_lem t x p a b w = rw w.up_a (ground (arith, w.other, w.pos_x))

-- `p` holds `x`, or `x` is the root.
abbrev pub Child : RbTree → (x p : ℕ) → Type 0
Child t x p =
    (t.root ≡ x)
    ⊎ ((t.root ≢ x)
        × (((t.nodes p).right ≡ x) ⊎ (((t.nodes p).right ≢ x) × ((t.nodes p).left ≡ x))))

-- The place of `x` is given to `a`.
abbrev pub relinked : RbTree → (x p a : ℕ) → RbTree
relinked t x p a =
    if t.root == x
    then record t { root = a }
    else if (t.nodes p).right == x
    then record t { nodes = set_right t.nodes p a }
    else record t { nodes = set_left t.nodes p a }

abbrev pub detached : RbTree → (x a : ℕ) → RbTree
detached t x a = record t { nodes = set_parent (set_right t.nodes x 0) a 0 }

abbrev pub moved : RbTree → (x p a : ℕ) → RbTree
moved t x p a =
    let d = relinked (detached t x a) x p a in record d { nodes = set_parent d.nodes a p }

transplant_lem :
    (t : RbTree) (x p a b : ℕ)
    → Turn t x p a b
    → Child t x p
    → rb_transplant (detached t x a) x a ≡ moved t x p a
unfolding rb_transplant
transplant_lem t x p a b w (inl root) = ground (arith, root, w.up_x, w.x_a)
transplant_lem t x p a b w (inr (root, inl right)) =
    ground (arith, root, right, w.up_x, w.x_a, w.p_x, w.p_a)
transplant_lem t x p a b w (inr (root, inr (right, left))) =
    ground (arith, root, right, left, w.up_x, w.x_a, w.p_x, w.p_a)

pub moved-x :
    (t : RbTree) (x p a b : ℕ)
    → Turn t x p a b
    → (moved t x p a).nodes x ≡ record (t.nodes x) { right = 0 }
moved-x t x p a b w = ground (arith, w.x_a, w.p_x, w.p_a)

pub moved-a :
    (t : RbTree) (x p a b : ℕ)
    → Turn t x p a b
    → (moved t x p a).nodes a ≡ record (t.nodes a) { parent = p }
moved-a t x p a b w = ground (arith, w.x_a, w.p_x, w.p_a)

pub moved-other :
    (t : RbTree) (x p a c : ℕ) → c ≢ x → c ≢ a → c ≢ p → (moved t x p a).nodes c ≡ t.nodes c
moved-other t x p a c c_x c_a c_p = ground arith

-- `x` below `a`, with `b` below `x`.
abbrev pub hung : (ℕ → Node) → (x a b : ℕ) → ℕ → Node
hung nodes x a b =
    if b == 0
    then set_parent (set_left nodes a x) x a
    else set_parent
        (set_right (set_parent (set_left (set_parent (set_left nodes a 0) b 0) a x) x a) x b) b x

abbrev pub rotated : RbTree → (x p a b : ℕ) → RbTree
rotated t x p a b = let t1 = moved t x p a in record t1 { nodes = hung t1.nodes x a b }

-- `b` is a child of `a` or NULL.
abbrev pub Inner : RbTree → (p a b : ℕ) → Type 0
Inner t p a b = (b ≡ 0) ⊎ ((0 < b) × ((t.nodes b).parent ≡ a) × (b ≢ p))

moved_lem :
    (t : RbTree) (x p a b : ℕ)
    → Turn t x p a b
    → Child t x p
    → rb_transplant (record t { nodes = rb_detach t.nodes a }) x a ≡ moved t x p a
moved_lem t x p a b w child =
    ap (λ (nodes : ℕ → Node). rb_transplant (record t { nodes = nodes }) x a)
      (detach_lem t x p a b w)
    ∙ transplant_lem t x p a b w child

detach_inner :
    (nodes : ℕ → Node) (a b : ℕ)
    → (nodes b).parent ≡ a
    → (nodes a).left ≡ b
    → 0 < a
    → rb_detach nodes b ≡ set_parent (set_left nodes a 0) b 0
unfolding rb_detach
detach_inner nodes a b up left pos = rw up (ground (arith, left, pos))

choose {ℓ} : {A : Type ℓ} (a : ℕ) (x y : A) → 0 < a → (if a == 0 then x else y) ≡ y
choose a x y pos = ground arith

choose_null {ℓ} : {A : Type ℓ} (a : ℕ) (x y : A) → a ≡ 0 → (if a == 0 then x else y) ≡ x
choose_null a x y none = ground arith

rb_left_rotate-moved :
    (t : RbTree) (x p a b : ℕ)
    → Turn t x p a b
    → Child t x p
    → rb_left_rotate t x ≡ hang_left (moved t x p a) x a
unfolding rb_left_rotate
rb_left_rotate-moved t x p a b w child =
    let turned : ℕ → RbTree = λ c. rb_transplant (record t { nodes = rb_detach t.nodes c }) x c in
    ap (λ (c : ℕ). if c == 0 then t else hang_left (turned c) x c) w.right
    ∙ choose a t (hang_left (turned a) x a) w.pos_a
    ∙ ap (λ (t1 : RbTree). hang_left t1 x a) (moved_lem t x p a b w child)

abbrev without_inner : (ℕ → Node) → (x a : ℕ) → ℕ → Node
without_inner nodes x a = set_parent (set_left nodes a x) x a

abbrev with_inner : (ℕ → Node) → (x a b : ℕ) → ℕ → Node
with_inner nodes x a b = set_parent (set_right (without_inner nodes x a) x b) b x

hang_left_lem :
    (t : RbTree) (x a b : ℕ)
    → 0 < a
    → (t.nodes a).left ≡ b
    → (b ≡ 0) ⊎ ((0 < b) × ((t.nodes b).parent ≡ a))
    → hang_left t x a ≡ record t { nodes = hung t.nodes x a b }
unfolding hang_left
hang_left_lem t x a b pos left inner =
    ap
      (λ (c : ℕ). record t {
        nodes =
            if c == 0 then without_inner t.nodes x a else with_inner (rb_detach t.nodes c) x a c;
      })
      left
    ∙ ap (λ (nodes : ℕ → Node). record t { nodes = nodes }) (hang inner)
  where
    hang :
        (b ≡ 0) ⊎ ((0 < b) × ((t.nodes b).parent ≡ a))
        → (if b == 0 then without_inner t.nodes x a else with_inner (rb_detach t.nodes b) x a b)
          ≡ hung t.nodes x a b
    hang (inl none) = choose_null b _ _ none ∙ sym (choose_null b _ _ none)
    hang (inr (b_pos, up)) =
        choose b _ _ b_pos
        ∙ ap (λ (nodes : ℕ → Node). with_inner nodes x a b) (detach_inner t.nodes a b up left pos)
        ∙ sym (choose b _ _ b_pos)

pub rb_left_rotate_lem :
    (t : RbTree) (x p a b : ℕ)
    → Turn t x p a b
    → Child t x p
    → Inner t p a b
    → rb_left_rotate t x ≡ rotated t x p a b
rb_left_rotate_lem t x p a b w child inner =
    let first : ((moved t x p a).nodes a).left ≡ b =
      ap (λ (n : Node). n.left) (moved-a t x p a b w) ∙ w.left in
    rb_left_rotate-moved t x p a b w child
    ∙ hang_left_lem (moved t x p a) x a b w.pos_a first (kept inner)
  where
    kept : Inner t p a b → (b ≡ 0) ⊎ ((0 < b) × (((moved t x p a).nodes b).parent ≡ a))
    kept (inl none) = inl none
    kept (inr (pos, up, b_p)) =
        inr (pos, ap (λ (n : Node). n.parent) (moved-other t x p a b w.b_x w.b_a b_p) ∙ up)

pub hung-x :
    (nodes : ℕ → Node) (x a b : ℕ)
    → x ≢ a
    → b ≢ x
    → (nodes x).right ≡ 0
    → hung nodes x a b x ≡ record (nodes x) { parent = a; right = b }
hung-x nodes x a b x_a b_x none = ground arith

pub hung-a :
    (nodes : ℕ → Node) (x a b : ℕ)
    → x ≢ a
    → b ≢ a
    → hung nodes x a b a ≡ record (nodes a) { left = x }
hung-a nodes x a b x_a b_a = ground arith

pub hung-b :
    (nodes : ℕ → Node) (x a b : ℕ)
    → b ≢ x
    → b ≢ a
    → 0 < b
    → hung nodes x a b b ≡ record (nodes b) { parent = x }
hung-b nodes x a b b_x b_a pos = ground arith

pub hung-other :
    (nodes : ℕ → Node) (x a b c : ℕ) → c ≢ x → c ≢ a → c ≢ b → hung nodes x a b c ≡ nodes c
hung-other nodes x a b c c_x c_a c_b = ground arith

pub hung-outside :
    (nodes : ℕ → Node) (x a b c : ℕ)
    → c ≢ x
    → c ≢ a
    → (0 < b → c ≢ b)
    → hung nodes x a b c ≡ nodes c
hung-outside nodes x a b c c_x c_a c_b = elim (ℕ_discrete b 0) [
  | yes none ↦ ground arith
  | no some ↦ hung-other nodes x a b c c_x c_a (c_b (omega arith))
]

-- From `t` to `t'`, `a` has taken the place of `x`, and nothing else of `p` has changed: the root,
-- or the one child of `p` that `x` was.
abbrev pub Replaced : (t t' : RbTree) → (x p a : ℕ) → Type 0
Replaced t t' x p a =
    ((t.root ≡ x) × (t'.root ≡ a) × (t'.nodes p ≡ t.nodes p))
    ⊎ ((t.root ≢ x)
        × (t'.root ≡ t.root)
        × ((((t.nodes p).right ≡ x) × (t'.nodes p ≡ record (t.nodes p) { right = a }))
            ⊎ (((t.nodes p).right ≢ x)
                × ((t.nodes p).left ≡ x)
                × (t'.nodes p ≡ record (t.nodes p) { left = a }))))

pub moved-Replaced :
    (t : RbTree) (x p a b : ℕ) → Turn t x p a b → Child t x p → Replaced t (moved t x p a) x p a
moved-Replaced t x p a b w (inl root) =
    inl (root, ground (arith, root), ground (arith, root, w.p_x, w.p_a))
moved-Replaced t x p a b w (inr (root, inl right)) =
    inr (root, ground (arith, root, right), inl (right, ground (arith, root, right, w.p_x, w.p_a)))
moved-Replaced t x p a b w (inr (root, inr (right, left))) = inr (
  root,
  ground (arith, root, right),
  inr (right, left, ground (arith, root, right, left, w.p_x, w.p_a)),
)
