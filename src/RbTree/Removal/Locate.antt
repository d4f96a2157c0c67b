-- ===== src/RbTree/Removal/Locate.antt =====
-- mini_rtos/src/rbtree.c: `rb_find_task` with the place of the node that it returns, and `rb_delete` there.
use self_mini_os.Common.{
  ℕ, ◌<◌, ◌≡◌, refl, sym, ap, ◌∙◌, ◌↔◌, inl, inr, Bool, true, false, Option, none, some, List, [],
  ◌∷◌, ◌++◌, ltb, arith, Bool-cases, u32_mod,
}
use self_mini_os.RbTree.{Color, Tree, nil, node, Frame, left_of, right_of, RbTree, zip_up, inorder}
use self_mini_os.RbTree.Contents.{before, after}
use self_mini_os.RbTree.Insert.{IsValid}
use self_mini_os.RbTree.Query.{In, In-append, In-left, In-right, IsStrict, IsStrict-at, All-In}
use self_mini_os.RbTree.Removal.{delete}
use self_mini_os.RbTree.Removal.Valid.{delete_lem}

-- a node with its children and the frames above it
pub record Place (T : Type 0) : Type 0 where
  pub color : Color
  pub left : Tree T
  pub key : ℕ
  pub task : T
  pub right : Tree T
  pub path : List (Frame T)

module _ {T : Type 0} where
  -- `rb_find_task`; `none` is null
  unfoldable pub find_place : (T → T → Bool) → T → ℕ → Tree T → List (Frame T) → Option (Place T)
  find_place same task key nil path = none
  find_place same task key (node c l k t r) path = elim (same task t) [
    | true ↦ some (record { color = c; left = l; key = k; task = t; right = r; path = path })
    | false ↦ elim (ltb key k) [
      | true ↦ find_place same task key l (left_of c k t r ∷ path)
      | false ↦ find_place same task key r (right_of c l k t ∷ path)
    ]
  ]

  pub delete_at : RbTree T → Place T → Option (RbTree T)
  delete_at tree p = delete tree p.color p.left p.right p.path

  abbrev pub rebuild : Place T → Tree T
  rebuild p = zip_up (node p.color p.left p.key p.task p.right) p.path

  -- what the search has found
  record Found (task : T) (root : Tree T) (p : Place T) : Type 0 where
    whole : rebuild p ≡ root
    is : p.task ≡ task

  find_place-Found :
      (same : T → T → Bool) (task : T) (key : ℕ) (x : Tree T) (path : List (Frame T))
      → ((a b : T) → (same a b ≡ true) ↔ (a ≡ b))
      → IsStrict (inorder x)
      → In (key, task) (inorder x)
      → (p : Place T) × (find_place same task key x path ≡ some p) × Found task (zip_up x path) p
  unfolding find_place
  find_place-Found same task key nil path iff s m = absurd m
  find_place-Found same task key (node c l k t r) path iff s m =
      let at = IsStrict-at (inorder l) k t (inorder r) s in
      elim (Bool-cases (same task t)) [
        | inl e ↦ (
          record { color = c; left = l; key = k; task = t; right = r; path = path },
          rw (e, find_place) refl,
          record { whole = refl; is = sym ((iff task t).0 e) },
        )
        | inr e ↦ elim (In-append (key, task) (inorder l) (k, t) (inorder r) m) [
          | inl a ↦
              let low : ltb key k ≡ true =
                ground (arith, All-In (λ y. y.0 < k) (key, task) (inorder l) at.low a) in
              let (p, run, f) =
                find_place-Found same task key l (left_of c k t r ∷ path) iff at.left a in
              (p, rw (e, low, find_place) run, record { whole = f.whole; is = f.is })
          | inr (inl b) ↦ cc ((iff task t).1 (ap (λ p. p.1) b))
          | inr (inr d) ↦
              let high : ltb key k ≡ false =
                ground (arith, All-In (λ y. k < y.0) (key, task) (inorder r) at.high d) in
              let (p, run, f) =
                find_place-Found same task key r (right_of c l k t ∷ path) iff at.right d in
              (p, rw (e, high, find_place) run, record { whole = f.whole; is = f.is })
        ]
      ]

  -- nothing is found of a task that is nowhere in the tree
  pub find_place-absent :
      (same : T → T → Bool) (task : T) (key : ℕ) (x : Tree T) (path : List (Frame T))
      → ((a b : T) → (same a b ≡ true) ↔ (a ≡ b))
      → ((k : ℕ) → ¬ (In (k, task) (inorder x)))
      → find_place same task key x path ≡ none
  unfolding find_place
  find_place-absent same task key nil path iff out = refl
  find_place-absent same task key (node c l k t r) path iff out = elim (Bool-cases (same task t)) [
    | inl e ↦ absurd (
        out k (
          In-right (k, task) (inorder l) ((k, t) ∷ inorder r)
            (inl (ap (λ a. (k, a)) ((iff task t).0 e)))))
    | inr e ↦ elim (Bool-cases (ltb key k)) [
      | inl low ↦
          rw (e, low, find_place)
            (find_place-absent same task key l (left_of c k t r ∷ path) iff
              (λ k' m. out k' (In-left (k', task) (inorder l) ((k, t) ∷ inorder r) m)))
      | inr high ↦
          rw (e, high, find_place)
            (find_place-absent same task key r (right_of c l k t ∷ path) iff
              (λ k' m. out k' (In-right (k', task) (inorder l) ((k, t) ∷ inorder r) (inr m))))
    ]
  ]

  -- the nodes of a tree, with the one of a task taken out
  pub record TakenOut (task : T) (tree tree' : RbTree T) : Type 0 where
    pub key : ℕ
    pub pre : List (ℕ × T)
    pub post : List (ℕ × T)
    pub valid : IsValid tree'
    pub was : inorder tree.root ≡ pre ++ (key, task) ∷ post
    pub now : inorder tree'.root ≡ pre ++ post

  -- `rb_find_task` and `rb_delete` together, on a valid tree of distinct keys that has the task under the
  -- key asked for
  pub take_out_lem :
      (same : T → T → Bool) (task : T) (key : ℕ) (tree : RbTree T)
      → ((a b : T) → (same a b ≡ true) ↔ (a ≡ b))
      → IsValid tree
      → tree.size < u32_mod
      → IsStrict (inorder tree.root)
      → In (key, task) (inorder tree.root)
      → (p : Place T) × (tree' : RbTree T) × (find_place same task key tree.root [] ≡ some p)
        × (delete_at tree p ≡ some tree')
        × TakenOut task tree tree'
  unfolding delete_at
  take_out_lem same task key tree iff valid small strict m =
      let (p, run, f) = find_place-Found same task key tree.root [] iff strict m in
      let (tree', run', v, was, now) =
        delete_lem tree p.color p.left p.key p.task p.right p.path valid small (sym f.whole) in
      (
        p,
        tree',
        run,
        run',
        record {
          key = p.key;
          pre = before p.path ++ inorder p.left;
          post = inorder p.right ++ after p.path;
          valid = v;
          was =
              was
              ∙ ap
                  (λ a.
                    (before p.path ++ inorder p.left)
                    ++ (p.key, a) ∷ (inorder p.right ++ after p.path))
                  f.is;
          now = now;
        },
      )
