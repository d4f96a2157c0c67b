-- ===== src/RbTree/Tests.antt =====
-- The tree of mini_rtos/src/rbtree.c on small trees. A task is a number, and is its own key.
use self_mini_os.Common.{◌>>=◌, ℕ, ◌≡◌, refl, true, ◌==◌, arith, some, none}
use self_mini_os.RbTree.{
  Color, black, red, Tree, nil, node, RbTree, inorder, search_key, find_task, insert, fixup,
  descend, rotate_left_side, rotate_right_side, init,
}
use self_mini_os.RbTree.Contents.{insert_after}
use self_mini_os.RbTree.Insert.{IsValid, insert_lem}
use self_mini_os.RbTree.Query.{Finds, search_key_lem}

abbrev pub leaf : Color → ℕ → Tree ℕ
leaf c n = node c nil n n nil

-- 2, 4, 6, 8
abbrev pub four : RbTree ℕ
four = record { root = node black (leaf black 2) 4 4 (node black nil 6 6 (leaf red 8)); size = 4 }

pub four-IsValid : IsValid four
four-IsValid = record {
  shape = ((tt, tt, refl, tt), (tt, (tt, tt, refl, (refl, refl)), refl, tt), refl, tt);
  root_black = refl;
  sorted = omega arith;
  counted = refl;
}

insert_runs :
    insert (λ n. n) four 9 true
    ≡ some (record {
      root = node black (leaf black 2) 4 4 (node black (leaf red 6) 8 8 (leaf red 9));
      size = 5;
    })
unfolding insert fixup descend rotate_right_side rotate_left_side
insert_runs = refl

insert_lem_example :
    (tree : RbTree ℕ) × (insert (λ n. n) four 5 true ≡ some tree)
    × IsValid tree
    × (inorder tree.root ≡ insert_after (5, 5) (inorder four.root))
insert_lem_example = insert_lem (λ n. n) four 5 four-IsValid (omega arith)

search_key_lem_example : Finds 6 (inorder four.root) (search_key 6 four.root)
search_key_lem_example = search_key_lem 6 four.root (omega arith)

-- Three tasks of one key: after the rotation the first one stands on the left, and the search for it
-- goes right.
equal_keys_lose_a_task :
    (insert (λ n. 7) init 1 true
      >>= (λ a. insert (λ n. 7) a 2 true)
      >>= (λ b. insert (λ n. 7) b 3 true)
      >>= (λ d. some (find_task ◌==◌ 1 7 d.root)))
    ≡ some none
unfolding insert fixup descend rotate_right_side rotate_left_side init find_task
equal_keys_lose_a_task = refl
