-- ===== src/Rbtree/Remove.antt =====
-- `rb_remove` and `rb_remove_fixup` of kernel/lib/rbtree.c.
use omocha_os.Base.{ℕ, zero, suc, Bool, not, ◌==◌, ◌&&◌, ◌||◌, if◌then◌else◌}
use omocha_os.Core.Run.{Run, ok, out_of_fuel, ◌>>=◌}
use omocha_os.Rbtree.{
  RbTree, rb_black, rb_red, colored, set_parent, set_left, set_right, rb_transplant, rb_left_rotate,
  rb_right_rotate, rb_succ,
}

abbrev color_of : RbTree → ℕ → ℕ
color_of t n = (t.nodes n).color

-- `!n || GET_COLOR(n) == RB_BLACK`
abbrev is_black : RbTree → ℕ → Bool
is_black t n = (n == 0) || (color_of t n == rb_black)

-- The sibling of a left child; a red one is rotated up first.
unfoldable right_sibling : RbTree → (parent : ℕ) → RbTree × ℕ
right_sibling t parent =
    let other = (t.nodes parent).right in
    let turned = rb_left_rotate (colored (colored t other rb_black) parent rb_red) parent in
    if color_of t other == rb_red then (turned, (turned.nodes parent).right) else (t, other)

unfoldable left_sibling : RbTree → (parent : ℕ) → RbTree × ℕ
left_sibling t parent =
    let other = (t.nodes parent).left in
    let turned = rb_right_rotate (colored (colored t other rb_black) parent rb_red) parent in
    if color_of t other == rb_red then (turned, (turned.nodes parent).left) else (t, other)

-- A sibling on the right with a red child: the last rotations.
unfoldable close_right : RbTree → (parent other : ℕ) → RbTree
close_right t parent other =
    let inner = colored (colored t (t.nodes other).left rb_black) other rb_red in
    let tilted = rb_right_rotate inner other in
    let (t1, o1) =
      if is_black t (t.nodes other).right
      then (tilted, (tilted.nodes parent).right)
      else (t, other) in
    let t2 = colored (colored t1 o1 (color_of t1 parent)) parent rb_black in
    rb_left_rotate (colored t2 (t2.nodes o1).right rb_black) parent

unfoldable close_left : RbTree → (parent other : ℕ) → RbTree
close_left t parent other =
    let inner = colored (colored t (t.nodes other).right rb_black) other rb_red in
    let tilted = rb_left_rotate inner other in
    let (t1, o1) =
      if is_black t (t.nodes other).left
      then (tilted, (tilted.nodes parent).left)
      else (t, other) in
    let t2 = colored (colored t1 o1 (color_of t1 parent)) parent rb_black in
    rb_right_rotate (colored t2 (t2.nodes o1).left rb_black) parent

-- `if (n) SET_COLOR(n, RB_BLACK)`
abbrev blackened : RbTree → ℕ → RbTree
blackened t n = if n == 0 then t else colored t n rb_black

-- One unit of fuel for each level on the way up.
unfoldable pub rb_remove_fixup : ℕ → RbTree → (n parent : ℕ) → Run RbTree
unfolding right_sibling left_sibling close_right close_left
rb_remove_fixup zero t n parent = out_of_fuel
rb_remove_fixup (suc fuel) t n parent =
    let is_left = (t.nodes parent).left == n in
    let (t1, other) = if is_left then right_sibling t parent else left_sibling t parent in
    let upper = colored t1 other rb_red in
    let further = rb_remove_fixup fuel upper parent (upper.nodes parent).parent in
    let closed = if is_left then close_right t1 parent other else close_left t1 parent other in
    if not (is_black t n && not (n == t.root))
    then ok (blackened t n)
    else if is_black t1 (t1.nodes other).left && is_black t1 (t1.nodes other).right
    then further
    else ok (blackened closed closed.root)

-- `r`, the successor of `n`, out of its place: with the right part of `n` below it.
unfoldable lift_successor : RbTree → (n r : ℕ) → RbTree
lift_successor t n r =
    let child = (t.nodes r).right in
    let t1 = rb_transplant t r child in
    let t2 : RbTree = record t1 { nodes = set_right t1.nodes r (t1.nodes n).right } in
    let next_right : RbTree =
      if child == 0 then t else record t { nodes = set_parent t.nodes child r } in
    if (t.nodes r).parent == n
    then next_right
    else record t2 { nodes = set_parent t2.nodes (t2.nodes r).right r }

-- `r` in the place of `n`.
unfoldable replace_by_successor : RbTree → (n r : ℕ) → RbTree
unfolding lift_successor
replace_by_successor t n r =
    let t1 = rb_transplant (lift_successor t n r) n r in
    let nodes = set_left t1.nodes r (t1.nodes n).left in
    let t2 : RbTree = record t1 { nodes = set_parent nodes (nodes r).left r } in
    colored t2 r (color_of t2 n)

unfoldable pub rb_remove : ℕ → RbTree → ℕ → Run RbTree
unfolding replace_by_successor
rb_remove fuel t n =
    let node = t.nodes n in
    let child = if node.left == 0 then node.right else node.left in
    let spliced = rb_transplant t n child in
    let simple = rb_remove_fixup fuel spliced child n in
    let inner = (do
      r ← rb_succ fuel t.nodes n
      let replaced = replace_by_successor t n r
      let fixed = rb_remove_fixup fuel replaced (t.nodes r).right r
      if color_of t r == rb_black then fixed else ok replaced) in
    if (node.left == 0) || (node.right == 0)
    then (if node.color == rb_black then simple else ok spliced)
    else inner
