-- ===== src/RbTree/Contents.antt =====
-- mini_rtos/src/rbtree.c: the nodes of a tree from left to right, around a node, and down a descent.
use self_mini_os.Common.{
  ℕ, ◌+◌, ◌≤◌, ◌<◌, ◌≡◌, refl, sym, ◌∙◌, inl, inr, ltb, List, [], ◌∷◌, ◌++◌, append-nil,
  append_assoc, arith, All, Bool-cases, if◌then◌else◌, leb, length,
}
use self_mini_os.RbTree.{
  Color, Tree, nil, node, Frame, left_of, right_of, paint, close, zip_up, inorder, descend,
}

module _ {T : Type 0} where
  -- the nodes to the left of a hole, and to its right
  abbrev pub before : List (Frame T) → List (ℕ × T)
  before [] = []
  before (left_of c k t r ∷ path) = before path
  before (right_of c l k t ∷ path) = before path ++ (inorder l ++ (k, t) ∷ [])

  abbrev pub after : List (Frame T) → List (ℕ × T)
  after [] = []
  after (left_of c k t r ∷ path) = (k, t) ∷ (inorder r ++ after path)
  after (right_of c l k t ∷ path) = after path

  -- the nodes of the tree with `x` in the hole
  abbrev pub around : List (Frame T) → List (ℕ × T) → List (ℕ × T)
  around path xs = before path ++ (xs ++ after path)

  pub around-close :
      (f : Frame T) (path : List (Frame T)) (x : Tree T)
      → around (f ∷ path) (inorder x) ≡ around path (inorder (close f x))
  around-close (left_of c k t r) path x = simp append_assoc
  around-close (right_of c l k t) path x = simp append_assoc

  pub inorder-zip_up :
      (path : List (Frame T)) (x : Tree T) → inorder (zip_up x path) ≡ around path (inorder x)
  inorder-zip_up [] x = sym (append-nil (inorder x))
  inorder-zip_up (f ∷ path) x = inorder-zip_up path (close f x) ∙ sym (around-close f path x)

  pub inorder-paint : (x : Tree T) (c : Color) → inorder (paint c x) ≡ inorder x
  inorder-paint nil c = refl
  inorder-paint (node _ l k t r) c = refl

  -- the keys of a list of nodes
  abbrev pub Above : ℕ → List (ℕ × T) → Type 0
  Above key xs = All (λ x. key < x.0) xs

  abbrev pub Upto : ℕ → List (ℕ × T) → Type 0
  Upto key xs = All (λ x. x.0 ≤ key) xs

  -- keys do not decrease from left to right
  abbrev pub IsSorted : List (ℕ × T) → Type 0
  IsSorted [] = Unit
  IsSorted (x ∷ xs) = All (λ y. x.0 ≤ y.0) xs × IsSorted xs

  All-append {κ} :
      (P : ℕ × T → Type κ) (xs ys : List (ℕ × T)) → All P xs → All P ys → All P (xs ++ ys)
  All-append P [] ys p q = q
  All-append P (x ∷ xs) ys p q = (p.0, All-append P xs ys p.1 q)

  All-split {κ} :
      (P : ℕ × T → Type κ) (xs ys : List (ℕ × T)) → All P (xs ++ ys) → All P xs × All P ys
  All-split P [] ys p = (tt, p)
  All-split P (x ∷ xs) ys p = let (a, b) = All-split P xs ys p.1 in ((p.0, a), b)

  -- what sortedness says at the root of a tree
  pub record SortedAt (xs : List (ℕ × T)) (k : ℕ) (ys : List (ℕ × T)) : Type 0 where
    pub left : IsSorted xs
    pub low : Upto k xs
    pub high : All (λ y. k ≤ y.0) ys
    pub right : IsSorted ys

  pub IsSorted-at :
      (xs : List (ℕ × T)) (k : ℕ) (t : T) (ys : List (ℕ × T))
      → IsSorted (xs ++ (k, t) ∷ ys)
      → SortedAt xs k ys
  IsSorted-at [] k t ys s = record { left = tt; low = tt; high = s.0; right = s.1 }
  IsSorted-at (x ∷ xs) k t ys s =
      let rest = IsSorted-at xs k t ys s.1 in
      let (a, b) = All-split (λ y. x.0 ≤ y.0) xs ((k, t) ∷ ys) s.0 in
      record { left = (a, rest.left); low = (b.0, rest.low); high = rest.high; right = rest.right }

  Above-trans : (key k : ℕ) (xs : List (ℕ × T)) → key < k → All (λ y. k ≤ y.0) xs → Above key xs
  Above-trans key k [] h a = tt
  Above-trans key k (x ∷ xs) h a = (omega arith, Above-trans key k xs h a.1)

  Upto-trans : (key k : ℕ) (xs : List (ℕ × T)) → k ≤ key → Upto k xs → Upto key xs
  Upto-trans key k [] h a = tt
  Upto-trans key k (x ∷ xs) h a = (omega arith, Upto-trans key k xs h a.1)

  -- a hole of the nodes `xs` with the keys up to `key` before it and the larger ones after it
  pub record SplitsAt (key : ℕ) (xs : List (ℕ × T)) (path : List (Frame T)) : Type 0 where
    pub low : Upto key (before path)
    pub high : Above key (after path)
    pub nodes : before path ++ after path ≡ xs

  pub descend-SplitsAt :
      (key : ℕ) (x : Tree T) (path : List (Frame T))
      → IsSorted (inorder x)
      → Upto key (before path)
      → Above key (after path)
      → SplitsAt key (around path (inorder x)) (descend key x path)
  unfolding descend
  descend-SplitsAt key nil path s low high = record { low = low; high = high; nodes = refl }
  descend-SplitsAt key (node c l k t r) path s low high =
      let at = IsSorted-at (inorder l) k t (inorder r) s in
      elim (Bool-cases (ltb key k)) [
        | inl e ↦
            let f : Frame T = left_of c k t r in
            let lt : key < k = ground arith in
            let deep = descend-SplitsAt key l (f ∷ path) at.left low (
              lt,
              All-append (λ y. key < y.0) (inorder r) (after path)
                  (Above-trans key k (inorder r) lt at.high) high,
            ) in
            rw (e, descend)
              (record {
                low = deep.low;
                high = deep.high;
                nodes = deep.nodes ∙ around-close f path l;
              })
        | inr e ↦
            let f : Frame T = right_of c l k t in
            let le : k ≤ key = ground arith in
            let deep =
              descend-SplitsAt key r (f ∷ path) at.right
                (All-append (λ y. y.0 ≤ key) (before path) (inorder l ++ (k, t) ∷ []) low
                  (All-append (λ y. y.0 ≤ key) (inorder l) ((k, t) ∷ [])
                    (Upto-trans key k (inorder l) le at.low) (le, tt)))
                high in
            rw (e, descend)
              (record {
                low = deep.low;
                high = deep.high;
                nodes = deep.nodes ∙ around-close f path r;
              })
      ]

  -- a node put behind all the nodes of its own key or a smaller one
  unfoldable pub insert_after : ℕ × T → List (ℕ × T) → List (ℕ × T)
  insert_after x [] = x ∷ []
  insert_after x (y ∷ ys) = if leb y.0 x.0 then y ∷ insert_after x ys else x ∷ y ∷ ys

  pub insert_after-append :
      (x : ℕ × T) (xs ys : List (ℕ × T))
      → Upto x.0 xs
      → Above x.0 ys
      → insert_after x (xs ++ ys) ≡ xs ++ x ∷ ys
  unfolding insert_after
  insert_after-append x [] [] p q = refl
  insert_after-append x [] (y ∷ ys) p q = ground arith
  insert_after-append x (z ∷ xs) ys p q = ground (arith, insert_after-append x xs ys p.1 q)

  All-insert_after :
      (m : ℕ) (x : ℕ × T) (xs : List (ℕ × T))
      → m ≤ x.0
      → All (λ y. m ≤ y.0) xs
      → All (λ y. m ≤ y.0) (insert_after x xs)
  unfolding insert_after
  All-insert_after m x [] h a = (h, tt)
  All-insert_after m x (y ∷ ys) h a = elim (Bool-cases (leb y.0 x.0)) [
    | inl e ↦ rw e (a.0, All-insert_after m x ys h a.1)
    | inr e ↦ rw e (h, a)
  ]

  All-weaken : (m n : ℕ) (xs : List (ℕ × T)) → m ≤ n → All (λ y. n ≤ y.0) xs → All (λ y. m ≤ y.0) xs
  All-weaken m n [] h a = tt
  All-weaken m n (x ∷ xs) h a = (omega arith, All-weaken m n xs h a.1)

  pub insert_after-IsSorted :
      (x : ℕ × T) (xs : List (ℕ × T)) → IsSorted xs → IsSorted (insert_after x xs)
  unfolding insert_after
  insert_after-IsSorted x [] s = (tt, tt)
  insert_after-IsSorted x (y ∷ ys) s = elim (Bool-cases (leb y.0 x.0)) [
    | inl e ↦ rw e (All-insert_after y.0 x ys (ground arith) s.0, insert_after-IsSorted x ys s.1)
    | inr e ↦ let lt : x.0 ≤ y.0 = ground arith in rw e ((lt, All-weaken x.0 y.0 ys lt s.0), s)
  ]

  pub length-insert_after :
      (x : ℕ × T) (xs : List (ℕ × T)) → length (insert_after x xs) ≡ length xs + 1
  unfolding insert_after
  length-insert_after x [] = omega arith
  length-insert_after x (y ∷ ys) = ground (arith, length-insert_after x ys)
