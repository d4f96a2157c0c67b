-- ===== src/RbTree.antt =====
-- mini_rtos/src/rbtree.c and mini_rtos/include/rbtree.h: the red-black tree of the scheduler.
-- A node is known together with its `parent` pointers as a subtree and the list of frames above it
-- (a zipper): the first frame is the parent, with the other child, and the empty list is the
-- sentinel `tree->nil` above the root. `tree->nil` below is `nil`. `none` stands for the read through
-- the null `left` of the sentinel. `tree->get_key` is the parameter `get_key`, and whether `malloc`
-- succeeds is an argument.
pub mod Shape
pub mod Contents
pub mod Insert
pub mod Query
pub mod Removal
mod Tests
use self_mini_os.Common.{
  ◌>>=◌, ℕ, ◌+◌, ◌≡◌, Bool, true, false, Option, none, some, List, [], ◌∷◌, ◌++◌, ltb, ◌==◌,
  if◌then◌else◌, add32,
}

-- `rb_color_t`
pub data Color : Type 0 where
  black red : Color

pub data Tree (T : Type 0) : Type 0 where
  nil : Tree T
  node : Color → Tree T → ℕ → T → Tree T → Tree T

-- a parent of which the subtree is the left child, or the right one
pub data Frame (T : Type 0) : Type 0 where
  left_of : Color → ℕ → T → Tree T → Frame T
  right_of : Color → Tree T → ℕ → T → Frame T

-- `rb_tree_t`, less `nil` and `get_key`
pub record RbTree (T : Type 0) : Type 0 where
  pub root : Tree T
  pub size : ℕ

abbrev pub is_red : Color → Bool
is_red black = false
is_red red = true

module _ {T : Type 0} where
  -- `x->color`; the sentinel is black
  abbrev pub color : Tree T → Color
  color nil = black
  color (node c l k t r) = c

  abbrev pub frame_color : Frame T → Color
  frame_color (left_of c k t r) = c
  frame_color (right_of c l k t) = c

  -- `x->color = c`
  abbrev pub paint : Color → Tree T → Tree T
  paint c nil = nil
  paint c (node _ l k t r) = node c l k t r

  -- the parent with this child
  abbrev pub close : Frame T → Tree T → Tree T
  close (left_of c k t r) x = node c x k t r
  close (right_of c l k t) x = node c l k t x

  -- the whole tree
  abbrev pub zip_up : Tree T → List (Frame T) → Tree T
  zip_up x [] = x
  zip_up x (f ∷ path) = zip_up (close f x) path

  -- `rb_left_rotate`, on the subtree at `x`
  abbrev pub left_rotate : Tree T → Option (Tree T)
  left_rotate (node c a k t (node c' b k' t' d)) = some (node c' (node c a k t b) k' t' d)
  left_rotate _ = none

  -- `rb_right_rotate`, on the subtree at `y`
  abbrev pub right_rotate : Tree T → Option (Tree T)
  right_rotate (node c (node c' a k' t' b) k t d) = some (node c' a k' t' (node c b k t d))
  right_rotate _ = none

  -- the two steps of `rb_insert_fixup` at a black uncle, `z->parent` being the left child
  pub rotate_left_side : Tree T → Frame T → ℕ → T → Tree T → Option (Tree T)
  rotate_left_side z (left_of c k t s) kg tg uncle =
      right_rotate (node red (paint black (node c z k t s)) kg tg uncle)
  rotate_left_side z (right_of c s k t) kg tg uncle = do
    p ← left_rotate (node c s k t z)
    right_rotate (node red (paint black p) kg tg uncle)

  -- the same with `z->parent` the right child
  pub rotate_right_side : Tree T → Frame T → Tree T → ℕ → T → Option (Tree T)
  rotate_right_side z (right_of c s k t) uncle kg tg =
      left_rotate (node red uncle kg tg (paint black (node c s k t z)))
  rotate_right_side z (left_of c k t s) uncle kg tg = do
    p ← right_rotate (node c z k t s)
    left_rotate (node red uncle kg tg (paint black p))

  -- the loop of `rb_insert_fixup` at `z`, up to the root; after a rotation `z->parent` is black and
  -- the loop ends
  pub fixup : Tree T → List (Frame T) → Option (Tree T)
  unfolding rotate_left_side rotate_right_side
  fixup z [] = some z
  fixup z (f ∷ []) = if is_red (frame_color f) then none else some (close f z)
  fixup z (f ∷ left_of c kg tg uncle ∷ path) =
      let up = fixup (node red (paint black (close f z)) kg tg (paint black uncle)) path in
      if is_red (frame_color f)
      then if is_red (color uncle)
        then up
        else rotate_left_side z f kg tg uncle >>= (λ g. some (zip_up g path))
      else some (zip_up z (f ∷ left_of c kg tg uncle ∷ path))
  fixup z (f ∷ right_of c uncle kg tg ∷ path) =
      let up = fixup (node red (paint black uncle) kg tg (paint black (close f z))) path in
      if is_red (frame_color f)
      then if is_red (color uncle)
        then up
        else rotate_right_side z f uncle kg tg >>= (λ g. some (zip_up g path))
      else some (zip_up z (f ∷ right_of c uncle kg tg ∷ path))

  -- the descent of `rb_insert`
  pub descend : ℕ → Tree T → List (Frame T) → List (Frame T)
  descend key nil path = path
  descend key (node c l k t r) path = elim (ltb key k) [
    | true ↦ descend key l (left_of c k t r ∷ path)
    | false ↦ descend key r (right_of c l k t ∷ path)
  ]

  -- `rb_minimum` and `rb_maximum`; at the sentinel they follow its null child
  pub minimum : Tree T → Option (ℕ × T)
  minimum nil = none
  minimum (node c nil k t r) = some (k, t)
  minimum (node c (node c' a k' t' b) k t r) = minimum (node c' a k' t' b)

  pub maximum : Tree T → Option (ℕ × T)
  maximum nil = none
  maximum (node c l k t nil) = some (k, t)
  maximum (node c l k t (node c' a k' t' b)) = maximum (node c' a k' t' b)

  -- `rb_search`
  pub search_key : ℕ → Tree T → Option (ℕ × T)
  search_key key nil = none
  search_key key (node c l k t r) = elim (key == k) [
    | true ↦ some (k, t)
    | false ↦ elim (ltb key k) [ true ↦ search_key key l | false ↦ search_key key r ]
  ]

  -- `rb_find_task`, with the comparison of task pointers
  pub find_task : (T → T → Bool) → T → ℕ → Tree T → Option (ℕ × T)
  find_task same task key nil = none
  find_task same task key (node c l k t r) = elim (same task t) [
    | true ↦ some (k, t)
    | false ↦ elim (ltb key k) [
      | true ↦ find_task same task key l
      | false ↦ find_task same task key r
    ]
  ]

  -- the calls of `visit` in `rb_inorder_walk`, and in `rb_preorder_walk`
  abbrev pub inorder : Tree T → List (ℕ × T)
  inorder nil = []
  inorder (node c l k t r) = inorder l ++ (k, t) ∷ inorder r

  pub preorder : Tree T → List (ℕ × T)
  preorder nil = []
  preorder (node c l k t r) = (k, t) ∷ (preorder l ++ preorder r)

  pub init : RbTree T
  init = record { root = nil; size = 0 }

  pub size : RbTree T → ℕ
  size tree = tree.size

  pub is_empty : RbTree T → Bool
  is_empty tree = elim tree.root [ nil ↦ true | node c l k t r ↦ false ]

  pub clear : RbTree T → RbTree T
  clear tree = record { root = nil; size = 0 }

  module _ (get_key : T → ℕ) where
    -- `rb_insert`
    pub insert : RbTree T → T → Bool → Option (RbTree T)
    insert tree task false = some tree
    insert tree task true = do
      root ← fixup (node red nil (get_key task) task nil) (descend (get_key task) tree.root [])
      some (record { root = paint black root; size = add32 tree.size 1 })
