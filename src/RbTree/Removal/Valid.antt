-- ===== src/RbTree/Removal/Valid.antt =====
-- mini_rtos/src/rbtree.c: what `rb_delete`, `rb_successor` and `rb_predecessor` do to the nodes from left
-- to right.
use self_mini_os.Common.{
  ◌>>=◌, ℕ, ◌+◌, ◌<◌, ◌≤◌, ◌≡◌, refl, sym, ap, ◌∙◌, List, [], ◌∷◌, ◌++◌, append-nil, append_assoc,
  arith, some, length, All, sub32, u32_mod,
}
use mathlib.Core.Path.{subst}
use self_mini_os.RbTree.Shape.{IsRb}
use self_mini_os.RbTree.{
  Color, black, color, Tree, nil, node, Frame, left_of, right_of, RbTree, zip_up, inorder,
}
use self_mini_os.RbTree.Contents.{before, after, inorder-zip_up, IsSorted}
use self_mini_os.RbTree.Insert.{IsValid}
use self_mini_os.RbTree.Query.{first, last, first-append, last-append, ends_lem}
use self_mini_os.RbTree.Removal.{delete, successor, predecessor, climb_left, climb_right}
use self_mini_os.RbTree.Removal.Fixup.{root_color, color-zip_up}
use self_mini_os.RbTree.Removal.Delete.{unzip, unlink_node-Without}

module _ {T : Type 0} where
  All-drop {κ} :
      (P : ℕ × T → Type κ) (xs : List (ℕ × T)) (y : ℕ × T) (ys : List (ℕ × T))
      → All P (xs ++ y ∷ ys)
      → All P (xs ++ ys)
  All-drop P [] y ys a = a.1
  All-drop P (x ∷ xs) y ys a = (a.0, All-drop P xs y ys a.1)

  IsSorted-drop :
      (xs : List (ℕ × T)) (y : ℕ × T) (ys : List (ℕ × T))
      → IsSorted (xs ++ y ∷ ys)
      → IsSorted (xs ++ ys)
  IsSorted-drop [] y ys s = s.1
  IsSorted-drop (x ∷ xs) y ys s = (All-drop (λ z. x.0 ≤ z.0) xs y ys s.0, IsSorted-drop xs y ys s.1)

  length-drop :
      (xs : List (ℕ × T)) (y : ℕ × T) (ys : List (ℕ × T))
      → length (xs ++ y ∷ ys) ≡ length (xs ++ ys) + 1
  length-drop [] y ys = omega arith
  length-drop (x ∷ xs) y ys = omega (arith, length-drop xs y ys)

  -- `rb_delete`, at any node of a valid tree, never reads through the sentinel's null child, and
  -- leaves a valid tree: red-black, with a black root, sorted and with the right size. That node is
  -- gone, and all the others are as they were, in the same order.
  pub delete_lem :
      (tree : RbTree T) (c : Color) (l : Tree T) (k : ℕ) (t : T) (r : Tree T)
      (path : List (Frame T))
      → IsValid tree
      → tree.size < u32_mod
      → tree.root ≡ zip_up (node c l k t r) path
      → (tree' : RbTree T) × (delete tree c l r path ≡ some tree')
        × IsValid tree'
        × (inorder tree.root ≡ (before path ++ inorder l) ++ (k, t) ∷ (inorder r ++ after path))
        × (inorder tree'.root ≡ (before path ++ inorder l) ++ (inorder r ++ after path))
  unfolding delete
  delete_lem tree c l k t r path v small at =
      let n : Tree T = node c l k t r in
      let pre = before path ++ inorder l in
      let post = inorder r ++ after path in
      let top : root_color c path ≡ black =
        sym (color-zip_up path n) ∙ sym (ap color at) ∙ v.root_black in
      let (w, p, f) = unzip path n (subst IsRb at v.shape) top in
      let (z, run, h) = unlink_node-Without c l k t r path w p f top in
      let was : inorder tree.root ≡ pre ++ (k, t) ∷ post =
        ap inorder at ∙ inorder-zip_up path n ∙ simp append_assoc in
      let now : inorder z ≡ pre ++ post = h.nodes ∙ simp append_assoc in
      (
        record { root = z; size = sub32 tree.size 1 },
        rw (run, ◌>>=◌) refl,
        record {
          shape = h.shape;
          root_black = h.top;
          sorted = rw now (IsSorted-drop pre (k, t) post (subst IsSorted was v.sorted));
          counted =
              rw now (omega (arith, small, v.counted ∙ ap length was, length-drop pre (k, t) post));
        },
        was,
        now,
      )

  climb_right-first : (path : List (Frame T)) → climb_right path ≡ first (after path)
  unfolding climb_right
  climb_right-first [] = refl
  climb_right-first (left_of c k t r ∷ path) = refl
  climb_right-first (right_of c l k t ∷ path) = climb_right-first path

  climb_left-last : (path : List (Frame T)) → climb_left path ≡ last (before path)
  unfolding climb_left
  climb_left-last [] = refl
  climb_left-last (left_of c k t r ∷ path) = climb_left-last path
  climb_left-last (right_of c l k t ∷ path) = sym (
      ap last (sym (append_assoc (before path) (inorder l) ((k, t) ∷ [])))
      ∙ last-append (before path ++ inorder l) (k, t) [])

  successor-first :
      (r : Tree T) (path : List (Frame T)) → successor r path ≡ first (inorder r ++ after path)
  unfolding successor
  successor-first nil path = climb_right-first path
  successor-first (node c a k t b) path =
      (ends_lem (node c a k t b)).0 ∙ sym (first-append (inorder a) (k, t) (inorder b) (after path))

  predecessor-last :
      (l : Tree T) (path : List (Frame T)) → predecessor l path ≡ last (before path ++ inorder l)
  unfolding predecessor
  predecessor-last nil path = climb_left-last path ∙ ap last (sym (append-nil (before path)))
  predecessor-last (node c a k t b) path =
      (ends_lem (node c a k t b)).1
      ∙ last-append (inorder a) (k, t) (inorder b)
      ∙ sym (
          ap last (sym (append_assoc (before path) (inorder a) ((k, t) ∷ inorder b)))
          ∙ last-append (before path ++ inorder a) (k, t) (inorder b))

  -- At a node with the frames `path` above it and the children `l` and `r`, `rb_successor` returns the
  -- node that follows in the order of the keys, and `rb_predecessor` the one before; each returns the
  -- sentinel where there is none.
  pub neighbours_lem :
      (c : Color) (l : Tree T) (k : ℕ) (t : T) (r : Tree T) (path : List (Frame T))
      → (inorder (zip_up (node c l k t r) path)
          ≡ (before path ++ inorder l) ++ (k, t) ∷ (inorder r ++ after path))
        × (successor r path ≡ first (inorder r ++ after path))
        × (predecessor l path ≡ last (before path ++ inorder l))
  neighbours_lem c l k t r path = (
    inorder-zip_up path (node c l k t r) ∙ simp append_assoc,
    successor-first r path,
    predecessor-last l path,
  )
