-- ===== src/Rbtree/Grow.antt =====
-- A node put into a tree of kernel/lib/rbtree.c, seen from each node above it.
use omocha_os.Base.{ℕ, ◌<◌, ◌≡◌, ◌≢◌, refl, sym, ap, ◌∙◌, inl, inr, arith, subst}
use omocha_os.Rbtree.{Node, set_parent, set_left, set_right}
use omocha_os.Rbtree.Shape.{Tree, leaf, node, In, Holds, Ordered, Holds-cong, key-apart}
use omocha_os.Rbtree.Put.{put, put-left, put-right, IsFresh}

-- A node of no tree, without children.
pub record Loose (nodes : ℕ → Node) (n : ℕ) (t : Tree) : Type 0 where
  pub pos : 0 < n
  pub left : (nodes n).left ≡ 0
  pub right : (nodes n).right ≡ 0
  pub apart : (c : ℕ) → In c t → c ≢ n

-- The memory `after` holds the tree with `n` put in, and else only parent and child links changed.
pub record Linked (nodes after : ℕ → Node) (x p n : ℕ) (t : Tree) : Type 0 where
  pub holds : Holds after x p (put nodes n t)
  pub outside : (c : ℕ) → ¬ In c t → c ≢ n → after c ≡ nodes c
  pub keys : (c : ℕ) → (after c).key ≡ (nodes c).key

pub Loose-left :
    (nodes : ℕ → Node) (n a : ℕ) (l r : Tree) → Loose nodes n (node l a r) → Loose nodes n l
Loose-left nodes n a l r w = record {
  pos = w.pos;
  left = w.left;
  right = w.right;
  apart = λ c i. w.apart c (inr (inl i));
}

pub Loose-right :
    (nodes : ℕ → Node) (n a : ℕ) (l r : Tree) → Loose nodes n (node l a r) → Loose nodes n r
Loose-right nodes n a l r w = record {
  pos = w.pos;
  left = w.left;
  right = w.right;
  apart = λ c i. w.apart c (inr (inr i));
}

module _ (nodes after : ℕ → Node) (x p n a : ℕ) (l r : Tree) (holds : Holds nodes x p (node l a r))
    (ordered : Ordered nodes (node l a r)) (loose : Loose nodes n (node l a r)) where
  pub grow_left :
      (nodes n).key < (nodes a).key
      → Linked nodes after (nodes a).left a n l
      → Linked nodes after x p n (node l a r)
  grow_left less k =
      let a_l : ¬ In a l = λ i. key-apart nodes a a (ordered.0 a i) refl in
      let same_a = k.outside a a_l (loose.apart a (inl refl)) in
      let same_r : (c : ℕ) → In c r → after c ≡ nodes c = λ c i.
        k.outside c (λ il. omega (arith, ordered.0 c il, ordered.1 c i))
          (loose.apart c (inr (inr i))) in
      record {
        holds = subst (Holds after x p) (sym (put-left nodes n a l r less)) (
          holds.0,
          holds.1,
          ap (λ (m : Node). m.parent) same_a ∙ holds.2,
          subst (λ (y : ℕ). Holds after y a (put nodes n l))
              (sym (ap (λ (m : Node). m.left) same_a)) k.holds,
          subst (λ (y : ℕ). Holds after y a r) (sym (ap (λ (m : Node). m.right) same_a))
              (Holds-cong nodes after (nodes a).right a r same_r holds.4),
        );
        outside = λ c i c_n. k.outside c (λ il. i (inr (inl il))) c_n;
        keys = k.keys;
      }

  pub grow_right :
      (nodes a).key < (nodes n).key
      → Linked nodes after (nodes a).right a n r
      → Linked nodes after x p n (node l a r)
  grow_right more k =
      let a_r : ¬ In a r = λ i. key-apart nodes a a (ordered.1 a i) refl in
      let same_a = k.outside a a_r (loose.apart a (inl refl)) in
      let same_l : (c : ℕ) → In c l → after c ≡ nodes c = λ c i.
        k.outside c (λ ir. omega (arith, ordered.0 c i, ordered.1 c ir))
          (loose.apart c (inr (inl i))) in
      record {
        holds = subst (Holds after x p) (sym (put-right nodes n a l r more)) (
          holds.0,
          holds.1,
          ap (λ (m : Node). m.parent) same_a ∙ holds.2,
          subst (λ (y : ℕ). Holds after y a l) (sym (ap (λ (m : Node). m.left) same_a))
              (Holds-cong nodes after (nodes a).left a l same_l holds.3),
          subst (λ (y : ℕ). Holds after y a (put nodes n r))
              (sym (ap (λ (m : Node). m.right) same_a)) k.holds,
        );
        outside = λ c i c_n. k.outside c (λ ir. i (inr (inr ir))) c_n;
        keys = k.keys;
      }

  IsFresh-here :
      (nodes a).key ≢ (nodes n).key
      → IsFresh nodes n l
      → IsFresh nodes n r
      → IsFresh nodes n (node l a r)
  IsFresh-here here on_l on_r c (inl e) = λ k. here (ap (λ (y : ℕ). (nodes y).key) (sym e) ∙ k)
  IsFresh-here here on_l on_r c (inr (inl i)) = on_l c i
  IsFresh-here here on_l on_r c (inr (inr i)) = on_r c i

  pub IsFresh-left :
      (nodes n).key < (nodes a).key → IsFresh nodes n l → IsFresh nodes n (node l a r)
  IsFresh-left less on_l =
      IsFresh-here (λ e. omega (arith, e)) on_l (λ c i e. omega (arith, ordered.1 c i))

  pub IsFresh-right :
      (nodes a).key < (nodes n).key → IsFresh nodes n r → IsFresh nodes n (node l a r)
  IsFresh-right more on_r =
      IsFresh-here (λ e. omega (arith, e)) (λ c i e. omega (arith, ordered.0 c i)) on_r

  pub put_left_end :
      (nodes n).key < (nodes a).key
      → l ≡ leaf
      → after ≡ set_parent (set_left nodes a n) n a
      → Linked nodes after x p n (node l a r)
  unfolding put
  put_left_end less none is =
      let n_a : n ≢ a = λ e. loose.apart a (inl refl) (sym e) in
      let at_a : after a ≡ record (nodes a) { left = n } =
        ap (λ (f : ℕ → Node). f a) is ∙ ground (arith, n_a) in
      let at_n : after n ≡ record (nodes n) { parent = a } =
        ap (λ (f : ℕ → Node). f n) is ∙ ground (arith, n_a) in
      let else_same : (c : ℕ) → c ≢ n → c ≢ a → after c ≡ nodes c =
        λ c c_n c_a. ap (λ (f : ℕ → Node). f c) is ∙ ground (arith, c_n, c_a) in
      record {
        holds = subst (Holds after x p) (sym (put-left nodes n a l r less)) (
          holds.0,
          holds.1,
          ap (λ (m : Node). m.parent) at_a ∙ holds.2,
          subst (λ (s : Tree). Holds after (after a).left a (put nodes n s)) (sym none)
              (
                ap (λ (m : Node). m.left) at_a,
                loose.pos,
                ap (λ (m : Node). m.parent) at_n,
                ap (λ (m : Node). m.left) at_n ∙ loose.left,
                ap (λ (m : Node). m.right) at_n ∙ loose.right,
              ),
          subst (λ (y : ℕ). Holds after y a r) (sym (ap (λ (m : Node). m.right) at_a))
              (Holds-cong nodes after (nodes a).right a r
                (λ c i.
                  else_same c (loose.apart c (inr (inr i)))
                    (λ e. key-apart nodes a c (ordered.1 c i) (sym e)))
                holds.4),
        );
        outside = λ c i c_n. else_same c c_n (λ e. i (inl e));
        keys = λ c. ap (λ (f : ℕ → Node). (f c).key) is ∙ ground arith;
      }

  pub put_right_end :
      (nodes a).key < (nodes n).key
      → r ≡ leaf
      → after ≡ set_parent (set_right nodes a n) n a
      → Linked nodes after x p n (node l a r)
  unfolding put
  put_right_end more none is =
      let n_a : n ≢ a = λ e. loose.apart a (inl refl) (sym e) in
      let at_a : after a ≡ record (nodes a) { right = n } =
        ap (λ (f : ℕ → Node). f a) is ∙ ground (arith, n_a) in
      let at_n : after n ≡ record (nodes n) { parent = a } =
        ap (λ (f : ℕ → Node). f n) is ∙ ground (arith, n_a) in
      let else_same : (c : ℕ) → c ≢ n → c ≢ a → after c ≡ nodes c =
        λ c c_n c_a. ap (λ (f : ℕ → Node). f c) is ∙ ground (arith, c_n, c_a) in
      record {
        holds = subst (Holds after x p) (sym (put-right nodes n a l r more)) (
          holds.0,
          holds.1,
          ap (λ (m : Node). m.parent) at_a ∙ holds.2,
          subst (λ (y : ℕ). Holds after y a l) (sym (ap (λ (m : Node). m.left) at_a))
              (Holds-cong nodes after (nodes a).left a l
                (λ c i.
                  else_same c (loose.apart c (inr (inl i))) (key-apart nodes c a (ordered.0 c i)))
                holds.3),
          subst (λ (s : Tree). Holds after (after a).right a (put nodes n s)) (sym none)
              (
                ap (λ (m : Node). m.right) at_a,
                loose.pos,
                ap (λ (m : Node). m.parent) at_n,
                ap (λ (m : Node). m.left) at_n ∙ loose.left,
                ap (λ (m : Node). m.right) at_n ∙ loose.right,
              ),
        );
        outside = λ c i c_n. else_same c c_n (λ e. i (inl e));
        keys = λ c. ap (λ (f : ℕ → Node). (f c).key) is ∙ ground arith;
      }

pub empty : (nodes : ℕ → Node) (x p : ℕ) (t : Tree) → Holds nodes x p t → x ≡ 0 → t ≡ leaf
empty nodes x p leaf h none = refl
empty nodes x p (node l a r) h none = absurd (omega (arith, h.0, h.1, none))

pub IsFresh-empty : (nodes : ℕ → Node) (n : ℕ) (t : Tree) → t ≡ leaf → IsFresh nodes n t
IsFresh-empty nodes n t e = subst (IsFresh nodes n) (sym e) (λ c i. absurd i)
