-- ===== src/RbTree/Removal.antt =====
-- mini_rtos/src/rbtree.c: `rb_delete` with `rb_delete_fixup`, `rb_successor` and `rb_predecessor`. A node
-- to start from is its colour, children, key and task, with the frames above it; `x` is a subtree
-- with the frames above it, so the `parent` of the sentinel in its place is the first frame. A call
-- of `rb_transplant` puts a subtree into the hole of such frames.
pub mod Settle
pub mod Fixup
pub mod Repair
pub mod Delete
pub mod Valid
pub mod Locate
mod Tests
use self_mini_os.Common.{
  ◌>>=◌, ℕ, ◌≡◌, ◌&&◌, Bool, true, false, not, Option, none, some, List, [], ◌∷◌, if◌then◌else◌,
  sub32,
}
use self_mini_os.RbTree.{
  Color, black, red, Tree, nil, node, Frame, left_of, right_of, RbTree, is_red, color, paint,
  zip_up, left_rotate, right_rotate, minimum, maximum,
}

module _ {T : Type 0} where
  -- `w->left->color == RB_BLACK && w->right->color == RB_BLACK`; `none` where `w` is the sentinel
  pub children_black : Tree T → Option Bool
  children_black nil = none
  children_black (node c l k t r) = some (not (is_red (color l)) && not (is_red (color r)))

  -- the rotation at `w` where its outer child is black, with `w` the right sibling of `x`, and with
  -- the left one
  pub turn_inner_left : Tree T → Option (Tree T)
  turn_inner_left nil = none
  turn_inner_left (node c l k t r) =
      if is_red (color r)
      then some (node c l k t r)
      else right_rotate (node red (paint black l) k t r)

  pub turn_inner_right : Tree T → Option (Tree T)
  turn_inner_right nil = none
  turn_inner_right (node c l k t r) =
      if is_red (color l)
      then some (node c l k t r)
      else left_rotate (node red l k t (paint black r))

  -- the colours that `w` and its outer child take before the last rotation
  pub recolor_left : Color → Tree T → Tree T
  recolor_left c nil = nil
  recolor_left c (node _ l k t r) = node c l k t (paint black r)

  pub recolor_right : Color → Tree T → Tree T
  recolor_right c nil = nil
  recolor_right c (node _ l k t r) = node c (paint black l) k t r

  -- the branch of `rb_delete_fixup` where `w` has a red child, at `x` the left child of a parent of
  -- colour `c`, and at `x` the right one
  pub settle_left : Tree T → Color → ℕ → T → Tree T → Option (Tree T)
  settle_left x c k t w = do
    w' ← turn_inner_left w
    left_rotate (node black x k t (recolor_left c w'))

  pub settle_right : Tree T → Color → ℕ → T → Tree T → Option (Tree T)
  settle_right x c k t w = do
    w' ← turn_inner_right w
    right_rotate (node black (recolor_right c w') k t x)

  -- the loop of `rb_delete_fixup` and the write after it. After the rotation at a red sibling the
  -- parent is red, so the loop ends with this round, by its test or at the root.
  pub delete_fixup : Tree T → List (Frame T) → Option (Tree T)
  delete_fixup x [] = some (paint black x)
  delete_fixup x (left_of c k t nil ∷ path) =
      if is_red (color x) then some (zip_up (paint black x) (left_of c k t nil ∷ path)) else none
  delete_fixup x (left_of c k t (node red l k' t' r) ∷ path) =
      let above = left_of black k' t' r ∷ path in
      if is_red (color x)
      then some (zip_up (paint black x) (left_of c k t (node red l k' t' r) ∷ path))
      else children_black l >>= (λ calm.
        if calm
        then some (zip_up (paint black (node red x k t (paint red l))) above)
        else settle_left x red k t l >>= (λ g. some (paint black (zip_up g above))))
  delete_fixup x (left_of c k t (node black l k' t' r) ∷ path) =
      let w = node black l k' t' r in
      let up = delete_fixup (node c x k t (paint red w)) path in
      if is_red (color x)
      then some (zip_up (paint black x) (left_of c k t w ∷ path))
      else children_black w >>= (λ calm.
        if calm then up else settle_left x c k t w >>= (λ g. some (paint black (zip_up g path))))
  delete_fixup x (right_of c nil k t ∷ path) =
      if is_red (color x) then some (zip_up (paint black x) (right_of c nil k t ∷ path)) else none
  delete_fixup x (right_of c (node red l k' t' r) k t ∷ path) =
      let above = right_of black l k' t' ∷ path in
      if is_red (color x)
      then some (zip_up (paint black x) (right_of c (node red l k' t' r) k t ∷ path))
      else children_black r >>= (λ calm.
        if calm
        then some (zip_up (paint black (node red (paint red r) k t x)) above)
        else settle_right x red k t r >>= (λ g. some (paint black (zip_up g above))))
  delete_fixup x (right_of c (node black l k' t' r) k t ∷ path) =
      let w = node black l k' t' r in
      let up = delete_fixup (node c (paint red w) k t x) path in
      if is_red (color x)
      then some (zip_up (paint black x) (right_of c w k t ∷ path))
      else children_black w >>= (λ calm.
        if calm then up else settle_right x c k t w >>= (λ g. some (paint black (zip_up g path))))

  -- the walk to `y`: its colour, its right child and the frames above it
  pub leftmost : Tree T → List (Frame T) → Option (Color × Tree T × List (Frame T))
  leftmost nil path = none
  leftmost (node c nil k t r) path = some (c, r, path)
  leftmost (node c (node c' a k' t' b) k t r) path =
      leftmost (node c' a k' t' b) (left_of c k t r ∷ path)

  -- the fixup that `rb_delete` makes if the node that left its place was black
  pub mend : Color → Tree T → List (Frame T) → Option (Tree T)
  mend red x path = some (zip_up x path)
  mend black x path = delete_fixup x path

  -- `rb_delete`, at a node with these frames above it: with two children, the least node to the
  -- right takes its place and its colour
  pub unlink_node : Color → Tree T → Tree T → List (Frame T) → Option (Tree T)
  unfolding mend
  unlink_node c nil r path = mend c r path
  unlink_node c (node c' a k' t' b) nil path = mend c (node c' a k' t' b) path
  unlink_node c (node c' a k' t' b) (node c'' a' k'' t'' b') path = do
    (k, t) ← minimum (node c'' a' k'' t'' b')
    (y_color, x, up) ← leftmost (node c'' a' k'' t'' b') (right_of c (node c' a k' t' b) k t ∷ path)
    mend y_color x up

  pub delete : RbTree T → Color → Tree T → Tree T → List (Frame T) → Option (RbTree T)
  delete tree c l r path =
      unlink_node c l r path >>= (λ root. some (record { root = root; size = sub32 tree.size 1 }))

  -- the loops of `rb_successor` and `rb_predecessor`; `none` is the sentinel
  pub climb_right : List (Frame T) → Option (ℕ × T)
  climb_right [] = none
  climb_right (left_of c k t r ∷ path) = some (k, t)
  climb_right (right_of c l k t ∷ path) = climb_right path

  pub climb_left : List (Frame T) → Option (ℕ × T)
  climb_left [] = none
  climb_left (right_of c l k t ∷ path) = some (k, t)
  climb_left (left_of c k t r ∷ path) = climb_left path

  -- at a node with the right child `r`, and with the left child `l`
  pub successor : Tree T → List (Frame T) → Option (ℕ × T)
  successor nil path = climb_right path
  successor (node c a k t b) path = minimum (node c a k t b)

  pub predecessor : Tree T → List (Frame T) → Option (ℕ × T)
  predecessor nil path = climb_left path
  predecessor (node c a k t b) path = maximum (node c a k t b)
