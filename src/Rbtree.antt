-- ===== src/Rbtree.antt =====
-- kernel/lib/rbtree.c: red-black trees of nodes in memory. `nodes` gives them by address, and
-- address 0 is NULL; what the code writes through NULL goes to the memory at 0. A node is aligned
-- to 16 bytes, so `parent_and_color` holds two values that do not overlap: its two fields here.
pub mod Remove
pub mod Shape
pub mod Search
pub mod Rotate
pub mod Turned
pub mod Put
pub mod Grow
pub mod Link
mod Tests
use omocha_os.Base.{ℕ, zero, suc, Bool, true, false, not, ◌==◌, ◌&&◌, ◌||◌, ltb, if◌then◌else◌}
use omocha_os.Core.Process.{update}
use omocha_os.Core.Run.{Run, ok, out_of_fuel, ◌>>=◌}

abbrev pub rb_black : ℕ
rb_black = 0

abbrev pub rb_red : ℕ
rb_red = 1

-- `rb_node`
pub record Node : Type 0 where
  pub key : ℕ
  pub parent : ℕ
  pub color : ℕ
  pub left : ℕ
  pub right : ℕ

-- `rb_tree`, and the memory of its nodes.
pub record RbTree : Type 0 where
  pub root : ℕ
  pub nodes : ℕ → Node

abbrev pub set_parent : (ℕ → Node) → (n p : ℕ) → ℕ → Node
set_parent nodes n p = update nodes n (record (nodes n) { parent = p })

abbrev pub set_color : (ℕ → Node) → (n c : ℕ) → ℕ → Node
set_color nodes n c = update nodes n (record (nodes n) { color = c })

abbrev pub set_left : (ℕ → Node) → (n child : ℕ) → ℕ → Node
set_left nodes n child = update nodes n (record (nodes n) { left = child })

abbrev pub set_right : (ℕ → Node) → (n child : ℕ) → ℕ → Node
set_right nodes n child = update nodes n (record (nodes n) { right = child })

-- One unit of fuel for each level, and one for the end.
unfoldable pub rb_search : ℕ → (ℕ → Node) → (x key : ℕ) → Run ℕ
rb_search zero nodes x key = out_of_fuel
rb_search (suc fuel) nodes x key =
    let rest =
      rb_search fuel nodes (if ltb key (nodes x).key then (nodes x).left else (nodes x).right)
        key in
    if x == 0 then ok 0 else if (nodes x).key == key then ok x else rest

unfoldable pub rb_detach : (ℕ → Node) → ℕ → ℕ → Node
rb_detach nodes x =
    let p = (nodes x).parent in
    let cut =
      if p == 0
      then nodes
      else if (nodes p).left == x
      then set_left nodes p 0
      else set_right nodes p 0 in
    set_parent cut x 0

unfoldable pub rb_transplant : RbTree → (dst src : ℕ) → RbTree
rb_transplant t dst src =
    let p = (t.nodes dst).parent in
    let linked : RbTree =
      if t.root == dst
      then record t { root = src }
      else if dst == (t.nodes p).right
      then record t { nodes = set_right t.nodes p src }
      else if dst == (t.nodes p).left
      then record t { nodes = set_left t.nodes p src }
      else t in
    record linked { nodes = set_parent linked.nodes src (linked.nodes dst).parent }

-- The second half of a rotation: `x` goes below `a`, and takes over a child of `a`.
unfoldable pub hang_left : RbTree → (x a : ℕ) → RbTree
unfolding rb_detach
hang_left t x a =
    let b = (t.nodes a).left in
    let with_b =
      set_parent (set_right (set_parent (set_left (rb_detach t.nodes b) a x) x a) x b) b x in
    let without_b = set_parent (set_left t.nodes a x) x a in
    record t { nodes = if b == 0 then without_b else with_b }

unfoldable pub rb_left_rotate : RbTree → ℕ → RbTree
unfolding hang_left
rb_left_rotate t x =
    let a = (t.nodes x).right in
    let t1 = rb_transplant (record t { nodes = rb_detach t.nodes a }) x a in
    if a == 0 then t else hang_left t1 x a

unfoldable pub hang_right : RbTree → (x a : ℕ) → RbTree
unfolding rb_detach
hang_right t x a =
    let b = (t.nodes a).right in
    let with_b =
      set_parent (set_left (set_parent (set_right (rb_detach t.nodes b) a x) x a) x b) b x in
    let without_b = set_parent (set_right t.nodes a x) x a in
    record t { nodes = if b == 0 then without_b else with_b }

unfoldable pub rb_right_rotate : RbTree → ℕ → RbTree
unfolding hang_right
rb_right_rotate t x =
    let a = (t.nodes x).left in
    let t1 = rb_transplant (record t { nodes = rb_detach t.nodes a }) x a in
    if a == 0 then t else hang_right t1 x a

abbrev pub colored : RbTree → (n c : ℕ) → RbTree
colored t n c = record t { nodes = set_color t.nodes n c }

-- A red parent with a black uncle or none.
unfoldable rotate_up : RbTree → (n parent grand : ℕ) → RbTree
unfolding rb_left_rotate rb_right_rotate
rotate_up t n parent grand =
    let outer = colored (colored t parent rb_black) grand rb_red in
    let inner = colored (colored t n rb_black) grand rb_red in
    if (t.nodes grand).left == parent
    then rb_right_rotate (if (t.nodes parent).left == n then outer else rb_left_rotate inner parent)
        grand
    else rb_left_rotate
        (if (t.nodes parent).right == n then outer else rb_right_rotate inner parent) grand

-- One unit of fuel for each two levels.
unfoldable pub rb_insert_fixup : ℕ → RbTree → ℕ → Run RbTree
unfolding rotate_up
rb_insert_fixup zero t n = out_of_fuel
rb_insert_fixup (suc fuel) t n =
    let parent = (t.nodes n).parent in
    let grand = (t.nodes parent).parent in
    let uncle =
      if (t.nodes grand).right == parent then (t.nodes grand).left else (t.nodes grand).right in
    let recolored = colored (colored (colored t parent rb_black) uncle rb_black) grand rb_red in
    let further = rb_insert_fixup fuel recolored grand in
    if parent == 0
    then ok (colored t n rb_black)
    else if (t.nodes parent).color == rb_black
    then ok t
    else if not (uncle == 0) && ((t.nodes uncle).color == rb_red)
    then further
    else ok (rotate_up t n parent grand)

-- The loop of `rb_insert` from `x` on: the parent that `n` is linked to, or 0 where its key is
-- there already.
unfoldable pub link_below : ℕ → (ℕ → Node) → (n x : ℕ) → Run ((ℕ → Node) × ℕ)
link_below zero nodes n x = out_of_fuel
link_below (suc fuel) nodes n x =
    let node = nodes x in
    let go_left = link_below fuel nodes n node.left in
    let go_right = link_below fuel nodes n node.right in
    if node.key == (nodes n).key
    then ok (nodes, 0)
    else if ltb (nodes n).key node.key
    then (if node.left == 0 then ok (set_left nodes x n, x) else go_left)
    else (if node.right == 0 then ok (set_right nodes x n, x) else go_right)

-- What follows the loop of `rb_insert`.
unfoldable pub finish_insert : ℕ → RbTree → (n x : ℕ) → Run (RbTree × ℕ)
finish_insert fuel t n x = do
  t1 ← rb_insert_fixup fuel (record t { nodes = set_parent t.nodes n x }) n
  ok (colored t1 t1.root rb_black, 0)

-- The result is 1 where the key is there already.
unfoldable pub rb_insert : ℕ → RbTree → ℕ → Run (RbTree × ℕ)
rb_insert fuel t n =
    let nodes = set_color t.nodes n rb_red in
    let below = (do
      (linked, x) ← link_below fuel nodes n t.root
      let done = finish_insert fuel (record t { nodes = linked }) n x
      if x == 0 then ok (record t { nodes = linked }, 1) else done) in
    if t.root == 0 then finish_insert fuel (record { root = n; nodes = nodes }) n 0 else below

-- `while (x->L) x = x->L`
unfoldable pub leftmost : ℕ → (ℕ → Node) → ℕ → Run ℕ
leftmost zero nodes x = out_of_fuel
leftmost (suc fuel) nodes x =
    let rest = leftmost fuel nodes (nodes x).left in if (nodes x).left == 0 then ok x else rest

unfoldable pub rightmost : ℕ → (ℕ → Node) → ℕ → Run ℕ
rightmost zero nodes x = out_of_fuel
rightmost (suc fuel) nodes x =
    let rest = rightmost fuel nodes (nodes x).right in if (nodes x).right == 0 then ok x else rest

-- The first node above `n` that `n` does not lie right of.
unfoldable pub up_from_right : ℕ → (ℕ → Node) → ℕ → Run ℕ
up_from_right zero nodes n = out_of_fuel
up_from_right (suc fuel) nodes n =
    let p = (nodes n).parent in
    let rest = up_from_right fuel nodes p in
    if not (p == 0) && (n == (nodes p).right) then rest else ok p

unfoldable pub up_from_left : ℕ → (ℕ → Node) → ℕ → Run ℕ
up_from_left zero nodes n = out_of_fuel
up_from_left (suc fuel) nodes n =
    let p = (nodes n).parent in
    let rest = up_from_left fuel nodes p in
    if not (p == 0) && (n == (nodes p).left) then rest else ok p

unfoldable pub rb_succ : ℕ → (ℕ → Node) → ℕ → Run ℕ
unfolding leftmost up_from_right
rb_succ fuel nodes n =
    if (nodes n).right == 0 then up_from_right fuel nodes n else leftmost fuel nodes (nodes n).right

unfoldable pub rb_pred : ℕ → (ℕ → Node) → ℕ → Run ℕ
unfolding rightmost up_from_left
rb_pred fuel nodes n =
    if (nodes n).left == 0 then up_from_left fuel nodes n else rightmost fuel nodes (nodes n).left
