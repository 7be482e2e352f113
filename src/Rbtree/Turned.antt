-- ===== src/Rbtree/Turned.antt =====
-- What a left rotation of kernel/lib/rbtree.c makes of an ordered tree.
use omocha_os.Base.{ℕ, ◌<◌, ◌≡◌, ◌≢◌, refl, sym, ap, ◌∙◌, inl, inr, arith, subst}
use omocha_os.Rbtree.{Node, RbTree, rb_left_rotate}
use omocha_os.Rbtree.Shape.{
  Tree, node, In, Holds, Ordered, IsTop, Holds-IsTop, Holds-cong, Holds-reparent, Ordered-cong,
  In-pos, key-apart,
}
use omocha_os.Rbtree.Rotate.{
  Turn, Child, Inner, hung, moved, moved-x, moved-a, moved-other, hung-x, hung-a, hung-b,
  hung-other, hung-outside, Replaced, moved-Replaced, rotated, rb_left_rotate_lem,
}

-- The tree below `x`, whose right child is `a`, with what the code needs of it.
pub record Turnable (t : RbTree) (x p a : ℕ) (l m r : Tree) : Type 0 where
  pub holds : Holds t.nodes x p (node l x (node m a r))
  pub ordered : Ordered t.nodes (node l x (node m a r))
  pub outside : (c : ℕ) → In c (node l x (node m a r)) → p ≢ c
  pub child : Child t x p

module _ (t : RbTree) (x p a : ℕ) (l m r : Tree) (w : Turnable t x p a l m r) where
  abbrev inner_of : ℕ
  inner_of = (t.nodes a).left

  right_a : (t.nodes x).right ≡ a
  right_a = w.holds.4.0

  Holds-m : Holds t.nodes inner_of a m
  Holds-m = w.holds.4.3

  IsTop-m : IsTop t.nodes inner_of a m
  IsTop-m = Holds-IsTop t.nodes inner_of a m Holds-m

  below_a : (t.nodes x).key < (t.nodes a).key
  below_a = w.ordered.1 a (inl refl)

  keys_m :
      (c : ℕ) → In c m → ((t.nodes x).key < (t.nodes c).key) × ((t.nodes c).key < (t.nodes a).key)
  keys_m c i = (w.ordered.1 c (inr (inl i)), w.ordered.3.0 c i)

  apart_inner : (c : ℕ) → 0 < c → (In c m → c ≢ inner_of) → ¬ In c m → c ≢ inner_of
  apart_inner c pos i n e = elim IsTop-m [
    | inl none ↦ omega (arith, e, none)
    | inr (b_pos, up, b_m) ↦ n (subst (λ (y : ℕ). In y m) (sym e) b_m)
  ]

  not_left : (c : ℕ) → In c l → ¬ In c m
  not_left c il im = omega (arith, w.ordered.0 c il, keys_m c im)

  not_right : (c : ℕ) → In c r → ¬ In c m
  not_right c ir im = omega (arith, w.ordered.3.1 c ir, keys_m c im)

  apart_x : inner_of ≢ x
  apart_x = elim IsTop-m [
    | inl none ↦ λ e. omega (arith, e, none, w.holds.1)
    | inr (b_pos, up, b_m) ↦ λ e. key-apart t.nodes x inner_of (keys_m inner_of b_m).0 (sym e)
  ]

  apart_a : inner_of ≢ a
  apart_a = elim IsTop-m [
    | inl none ↦ λ e. omega (arith, e, none, w.holds.4.1)
    | inr (b_pos, up, b_m) ↦ key-apart t.nodes inner_of a (keys_m inner_of b_m).1
  ]

  left_other : (t.nodes x).left ≢ a
  left_other = elim (Holds-IsTop t.nodes (t.nodes x).left x l w.holds.3) [
    | inl none ↦ λ e. omega (arith, e, none, w.holds.4.1)
    | inr (pos, up, i) ↦ λ e.
        omega (arith, w.ordered.0 (t.nodes x).left i, below_a, ap (λ (y : ℕ). (t.nodes y).key) e)
  ]

  turn : Turn t x p a inner_of
  turn = record {
    right = right_a;
    left = refl;
    up_a = w.holds.4.2;
    up_x = w.holds.2;
    other = left_other;
    pos_x = w.holds.1;
    pos_a = w.holds.4.1;
    x_a = key-apart t.nodes x a below_a;
    b_x = apart_x;
    b_a = apart_a;
    p_x = w.outside x (inl refl);
    p_a = w.outside a (inr (inr (inl refl)));
  }

  inner : Inner t p a inner_of
  inner = elim IsTop-m [
    | inl none ↦ inl none
    | inr (b_pos, up, b_m) ↦
        inr (b_pos, up, λ e. w.outside inner_of (inr (inr (inr (inl b_m)))) (sym e))
  ]

  abbrev after : ℕ → Node
  after = (rotated t x p a inner_of).nodes

  after-x : after x ≡ record (t.nodes x) { parent = a; right = inner_of }
  after-x =
      let at_x = moved-x t x p a inner_of turn in
      hung-x (moved t x p a).nodes x a inner_of turn.x_a turn.b_x (ap (λ (n : Node). n.right) at_x)
      ∙ ap (λ (n : Node). record n { parent = a; right = inner_of }) at_x

  after-a : after a ≡ record (t.nodes a) { parent = p; left = x }
  after-a =
      hung-a (moved t x p a).nodes x a inner_of turn.x_a turn.b_a
      ∙ ap (λ (n : Node). record n { left = x }) (moved-a t x p a inner_of turn)

  after-other : (c : ℕ) → c ≢ x → c ≢ a → c ≢ p → c ≢ inner_of → after c ≡ t.nodes c
  after-other c c_x c_a c_p c_b =
      hung-other (moved t x p a).nodes x a inner_of c c_x c_a c_b
      ∙ moved-other t x p a c c_x c_a c_p

  after-inner : 0 < inner_of → after inner_of ≡ record (t.nodes inner_of) { parent = x }
  after-inner pos =
      hung-b (moved t x p a).nodes x a inner_of turn.b_x turn.b_a pos
      ∙ ap (λ (n : Node). record n { parent = x })
          (moved-other t x p a inner_of turn.b_x turn.b_a not_p)
    where
      not_p : inner_of ≢ p
      not_p = elim inner [ inl none ↦ λ e. omega (arith, none, pos) | inr (b_pos, up, b_p) ↦ b_p ]

  left_same : (c : ℕ) → In c l → after c ≡ t.nodes c
  left_same c i =
      after-other c (key-apart t.nodes c x (w.ordered.0 c i))
        (λ e. omega (arith, w.ordered.0 c i, below_a, ap (λ (y : ℕ). (t.nodes y).key) e))
        (λ e. w.outside c (inr (inl i)) (sym e))
        (apart_inner c (In-pos t.nodes (t.nodes x).left x c l w.holds.3 i)
          (λ im. absurd (not_left c i im)) (not_left c i))

  right_same : (c : ℕ) → In c r → after c ≡ t.nodes c
  right_same c i =
      after-other c
        (λ e. omega (arith, w.ordered.3.1 c i, below_a, ap (λ (y : ℕ). (t.nodes y).key) e))
        (λ e. key-apart t.nodes a c (w.ordered.3.1 c i) (sym e))
        (λ e. w.outside c (inr (inr (inr (inr i)))) (sym e))
        (apart_inner c (In-pos t.nodes (t.nodes a).right a c r w.holds.4.4 i)
          (λ im. absurd (not_right c i im)) (not_right c i))

  middle_same : (c : ℕ) → In c m → c ≢ inner_of → after c ≡ t.nodes c
  middle_same c i n =
      after-other c (λ e. key-apart t.nodes x c (keys_m c i).0 (sym e))
        (key-apart t.nodes c a (keys_m c i).1) (λ e. w.outside c (inr (inr (inr (inl i)))) (sym e))
        n

  after-Holds : Holds after a p (node (node l x m) a r)
  after-Holds =
      let holds_x : Holds after x a (node l x m) = (
        refl,
        w.holds.1,
        ap (λ (n : Node). n.parent) after-x,
        subst (λ (y : ℕ). Holds after y x l) (sym (ap (λ (n : Node). n.left) after-x))
            (Holds-cong t.nodes after (t.nodes x).left x l left_same w.holds.3),
        subst (λ (y : ℕ). Holds after y x m) (sym (ap (λ (n : Node). n.right) after-x))
            (Holds-reparent t.nodes after inner_of a x m Holds-m w.ordered.3.2 middle_same
              after-inner),
      ) in
      (
        refl,
        w.holds.4.1,
        ap (λ (n : Node). n.parent) after-a,
        subst (λ (y : ℕ). Holds after y a (node l x m)) (sym (ap (λ (n : Node). n.left) after-a))
            holds_x,
        subst (λ (y : ℕ). Holds after y a r) (sym (ap (λ (n : Node). n.right) after-a))
            (Holds-cong t.nodes after (t.nodes a).right a r right_same w.holds.4.4),
      )

  turned_order : Ordered t.nodes (node (node l x m) a r)
  turned_order = (
    below,
    w.ordered.3.1,
    (w.ordered.0, (λ c i. (keys_m c i).0), w.ordered.2, w.ordered.3.2),
    w.ordered.3.3,
  )
    where
      below : (c : ℕ) → In c (node l x m) → (t.nodes c).key < (t.nodes a).key
      below c (inl e) = omega (arith, ap (λ (y : ℕ). (t.nodes y).key) e, below_a)
      below c (inr (inl i)) = omega (arith, w.ordered.0 c i, below_a)
      below c (inr (inr i)) = (keys_m c i).1

  hung_key : (nodes : ℕ → Node) (b c : ℕ) → (hung nodes x a b c).key ≡ (nodes c).key
  hung_key nodes b c = ground arith

  moved_key : (c : ℕ) → ((moved t x p a).nodes c).key ≡ (t.nodes c).key
  moved_key c = ground arith

  after-Ordered : Ordered after (node (node l x m) a r)
  after-Ordered =
      Ordered-cong t.nodes after (node (node l x m) a r)
        (λ c. hung_key (moved t x p a).nodes inner_of c ∙ moved_key c) turned_order

  after-p : after p ≡ (moved t x p a).nodes p
  after-p = hung-outside (moved t x p a).nodes x a inner_of p turn.p_x turn.p_a (λ pos. elim inner [
    | inl none ↦ λ e. omega (arith, none, pos)
    | inr (b_pos, up, b_p) ↦ λ e. b_p (sym e)
  ])

  after-Replaced : Replaced t (rotated t x p a inner_of) x p a
  after-Replaced = elim (moved-Replaced t x p a inner_of turn w.child) [
    | inl (was, root, same) ↦ inl (was, root, after-p ∙ same)
    | inr (was, root, inl (right, new)) ↦ inr (was, root, inl (right, after-p ∙ new))
    | inr (was, root, inr (right, left, new)) ↦ inr (was, root, inr (right, left, after-p ∙ new))
  ]

  elsewhere : (c : ℕ) → ¬ In c (node l x (node m a r)) → c ≢ p → after c ≡ t.nodes c
  elsewhere c n c_p =
      hung-outside (moved t x p a).nodes x a inner_of c (λ e. n (inl e))
        (λ e. n (inr (inr (inl e))))
        (λ pos. elim IsTop-m [
          | inl none ↦ λ e. omega (arith, none, pos)
          | inr (b_pos, up, b_m) ↦
              λ e. n (inr (inr (inr (inl (subst (λ (y : ℕ). In y m) (sym e) b_m)))))
        ])
      ∙ moved-other t x p a c (λ e. n (inl e)) (λ e. n (inr (inr (inl e)))) c_p

-- `rb_left_rotate` at the node `x` with right child `a`, where the memory holds an ordered tree
-- below `x`, the parent `p` is none of its nodes, and `x` is the root or a child of `p`: `a` is
-- where `x` was, as the root or as that child of `p`, and the root and the fields of `p` are otherwise
-- as they were; the memory below `a` holds the rotated tree, with the same nodes and all parent links
-- right, this tree is ordered, and a node `c` that is neither in the tree nor `p` is as it was.
pub rb_left_rotate-Holds :
    (t : RbTree) (x p a c : ℕ) (l m r : Tree)
    → Turnable t x p a l m r
    → ¬ In c (node l x (node m a r))
    → c ≢ p
    → Holds (rb_left_rotate t x).nodes a p (node (node l x m) a r)
      × Ordered (rb_left_rotate t x).nodes (node (node l x m) a r)
      × Replaced t (rb_left_rotate t x) x p a
      × ((rb_left_rotate t x).nodes c ≡ t.nodes c)
rb_left_rotate-Holds t x p a c l m r w n c_p =
    let is =
      rb_left_rotate_lem t x p a (inner_of t x p a l m r w) (turn t x p a l m r w) w.child
        (inner t x p a l m r w) in
    subst
      (λ (s : RbTree).
        Holds s.nodes a p (node (node l x m) a r)
        × Ordered s.nodes (node (node l x m) a r)
        × Replaced t s x p a
        × (s.nodes c ≡ t.nodes c))
      (sym is)
      (
        after-Holds t x p a l m r w,
        after-Ordered t x p a l m r w,
        after-Replaced t x p a l m r w,
        elsewhere t x p a l m r w c n c_p,
      )
