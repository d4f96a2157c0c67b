-- ===== src/RbTree/Removal/Tests.antt =====
-- `rb_delete`, `rb_successor` and `rb_predecessor` of mini_rtos/src/rbtree.c on a tree of four tasks, each
-- its own key.
use self_mini_os.Common.{ℕ, ◌≡◌, refl, arith, some, none, [], ◌∷◌, List}
use self_mini_os.RbTree.{
  black, red, Tree, nil, node, Frame, left_of, RbTree, inorder, zip_up, minimum,
}
use self_mini_os.RbTree.Insert.{IsValid}
use self_mini_os.RbTree.Removal.{
  delete, unlink_node, mend, leftmost, delete_fixup, settle_left, turn_inner_left, recolor_left,
  children_black, successor, predecessor,
}
use self_mini_os.RbTree.Tests.{leaf, four, four-IsValid}
use self_mini_os.RbTree.Removal.Valid.{delete_lem, neighbours_lem}

abbrev right_side : Tree ℕ
right_side = node black nil 6 6 (leaf red 8)

abbrev above_two : List (Frame ℕ)
above_two = left_of black 4 4 right_side ∷ []

-- the black leaf 2 goes, and the tree is turned to the left
delete_runs :
    delete four black nil nil above_two
    ≡ some (record { root = node black (leaf black 4) 6 6 (leaf black 8); size = 3 })
unfolding delete unlink_node mend delete_fixup settle_left turn_inner_left recolor_left
    children_black
delete_runs = refl

-- the root goes, and 6 takes its place
delete_root_runs :
    delete four black (leaf black 2) right_side []
    ≡ some (record { root = node black (leaf black 2) 6 6 (leaf black 8); size = 3 })
unfolding delete unlink_node mend leftmost minimum delete_fixup
delete_root_runs = refl

delete_lem_example :
    (tree : RbTree ℕ) × (delete four black (leaf black 2) right_side [] ≡ some tree)
    × IsValid tree
    × (inorder four.root ≡ (2, 2) ∷ (4, 4) ∷ (6, 6) ∷ (8, 8) ∷ [])
    × (inorder tree.root ≡ (2, 2) ∷ (6, 6) ∷ (8, 8) ∷ [])
delete_lem_example =
    delete_lem four black (leaf black 2) 4 4 right_side [] four-IsValid (omega arith) refl

neighbours_lem_example :
    (inorder (zip_up (leaf black 2) above_two) ≡ (2, 2) ∷ (4, 4) ∷ (6, 6) ∷ (8, 8) ∷ [])
    × (successor nil above_two ≡ some (4, 4))
    × (predecessor nil above_two ≡ none)
neighbours_lem_example = neighbours_lem black nil 2 2 nil above_two
