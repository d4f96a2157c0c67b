-- ===== src/RbTree/Query.antt =====
-- mini_rtos/src/rbtree.c: `rb_search`, `rb_find_task`, `rb_minimum` and `rb_maximum` against the list of
-- the nodes from left to right.
use self_mini_os.Common.{
  ℕ, ◌<◌, ◌≡◌, ◌≢◌, refl, sym, ap, ◌∙◌, ◌⊎◌, ◌↔◌, Bool, true, false, inl, inr, ltb, List, [], ◌∷◌,
  ◌++◌, ◌==◌, arith, All, Bool-cases, Option, some, none,
}
use self_mini_os.RbTree.{Tree, nil, node, inorder, minimum, maximum, search_key, find_task}

module _ {A : Type 0} where
  abbrev pub In : A → List A → Type 0
  In y [] = ⊥
  In y (x ∷ xs) = (y ≡ x) ⊎ In y xs

  pub In-append :
      (y : A) (xs : List A) (z : A) (ys : List A)
      → In y (xs ++ z ∷ ys)
      → In y xs ⊎ ((y ≡ z) ⊎ In y ys)
  In-append y [] z ys m = inr m
  In-append y (x ∷ xs) z ys (inl e) = inl (inl e)
  In-append y (x ∷ xs) z ys (inr m) = elim (In-append y xs z ys m) [
    | inl a ↦ inl (inr a)
    | inr b ↦ inr b
  ]

  pub In-left : (y : A) (xs ys : List A) → In y xs → In y (xs ++ ys)
  In-left y [] ys m = absurd m
  In-left y (x ∷ xs) ys (inl e) = inl e
  In-left y (x ∷ xs) ys (inr m) = inr (In-left y xs ys m)

  pub In-right : (y : A) (xs ys : List A) → In y ys → In y (xs ++ ys)
  In-right y [] ys m = m
  In-right y (x ∷ xs) ys m = inr (In-right y xs ys m)

  pub All-In {κ} : (P : A → Type κ) (y : A) (xs : List A) → All P xs → In y xs → P y
  All-In P y [] a m = absurd m
  All-In P y (x ∷ xs) a (inl e) = rw e a.0
  All-In P y (x ∷ xs) a (inr m) = All-In P y xs a.1 m

  pub All-prefix {κ} : (P : A → Type κ) (xs ys : List A) → All P (xs ++ ys) → All P xs
  All-prefix P [] ys a = tt
  All-prefix P (x ∷ xs) ys a = (a.0, All-prefix P xs ys a.1)

  abbrev pub first : List A → Option A
  first [] = none
  first (x ∷ xs) = some x

  abbrev pub last : List A → Option A
  last [] = none
  last (x ∷ []) = some x
  last (x ∷ y ∷ ys) = last (y ∷ ys)

  pub last-append : (xs : List A) (y : A) (ys : List A) → last (xs ++ y ∷ ys) ≡ last (y ∷ ys)
  last-append [] y ys = refl
  last-append (x ∷ []) y ys = refl
  last-append (x ∷ x' ∷ xs) y ys = last-append (x' ∷ xs) y ys

module _ {T : Type 0} where
  pub first-append :
      (xs : List (ℕ × T)) (y : ℕ × T) (ys zs : List (ℕ × T))
      → first ((xs ++ y ∷ ys) ++ zs) ≡ first (xs ++ y ∷ ys)
  first-append [] y ys zs = refl
  first-append (x ∷ xs) y ys zs = refl

  minimum-first : (x : Tree T) → minimum x ≡ first (inorder x)
  unfolding minimum
  minimum-first nil = refl
  minimum-first (node c nil k t r) = refl
  minimum-first (node c (node c' a k' t' b) k t r) =
      minimum-first (node c' a k' t' b)
      ∙ sym (first-append (inorder a) (k', t') (inorder b) ((k, t) ∷ inorder r))

  maximum-last : (x : Tree T) → maximum x ≡ last (inorder x)
  unfolding maximum
  maximum-last nil = refl
  maximum-last (node c l k t nil) = sym (last-append (inorder l) (k, t) [])
  maximum-last (node c l k t (node c' a k' t' b)) =
      maximum-last (node c' a k' t' b)
      ∙ last-append (inorder a) (k', t') (inorder b)
      ∙ sym (
          last-append (inorder l) (k, t) (inorder a ++ (k', t') ∷ inorder b)
          ∙ last-append ((k, t) ∷ inorder a) (k', t') (inorder b))

  -- `rb_minimum` and `rb_maximum` return the leftmost and the rightmost node, and on the sentinel they
  -- run into its null child: on an empty tree both give nothing, on any other the ends of the walk.
  pub ends_lem : (x : Tree T) → (minimum x ≡ first (inorder x)) × (maximum x ≡ last (inorder x))
  ends_lem x = (minimum-first x, maximum-last x)

  -- keys grow from left to right
  abbrev pub IsStrict : List (ℕ × T) → Type 0
  IsStrict [] = Unit
  IsStrict (x ∷ xs) = All (λ y. x.0 < y.0) xs × IsStrict xs

  pub record StrictAt (xs : List (ℕ × T)) (k : ℕ) (ys : List (ℕ × T)) : Type 0 where
    pub left : IsStrict xs
    pub low : All (λ y. y.0 < k) xs
    pub high : All (λ y. k < y.0) ys
    pub right : IsStrict ys

  pub IsStrict-at :
      (xs : List (ℕ × T)) (k : ℕ) (t : T) (ys : List (ℕ × T))
      → IsStrict (xs ++ (k, t) ∷ ys)
      → StrictAt xs k ys
  IsStrict-at [] k t ys s = record { left = tt; low = tt; high = s.0; right = s.1 }
  IsStrict-at (x ∷ xs) k t ys s =
      let rest = IsStrict-at xs k t ys s.1 in
      record {
        left = (All-prefix (λ y. x.0 < y.0) xs ((k, t) ∷ ys) s.0, rest.left);
        low = (
          All-In (λ y. x.0 < y.0) (k, t) (xs ++ (k, t) ∷ ys) s.0
              (In-right (k, t) xs ((k, t) ∷ ys) (inl refl)),
          rest.low,
        );
        high = rest.high;
        right = rest.right;
      }

  -- what a search for `key` may return from the nodes `xs`
  abbrev pub Finds : ℕ → List (ℕ × T) → Option (ℕ × T) → Type 0
  Finds key xs none = (y : ℕ × T) → In y xs → y.0 ≢ key
  Finds key xs (some y) = In y xs × (y.0 ≡ key)

  widen_left :
      (key k : ℕ) (t : T) (xs ys : List (ℕ × T)) (r : Option (ℕ × T))
      → key < k
      → StrictAt xs k ys
      → Finds key xs r
      → Finds key (xs ++ (k, t) ∷ ys) r
  widen_left key k t xs ys none lt at f = λ y m e. elim (In-append y xs (k, t) ys m) [
    | inl a ↦ f y a e
    | inr (inl b) ↦ omega (arith, ap (λ p. p.0) b)
    | inr (inr c) ↦ omega (arith, All-In (λ y. k < y.0) y ys at.high c)
  ]
  widen_left key k t xs ys (some y) lt at f = (In-left y xs ((k, t) ∷ ys) f.0, f.1)

  widen_right :
      (key k : ℕ) (t : T) (xs ys : List (ℕ × T)) (r : Option (ℕ × T))
      → k < key
      → StrictAt xs k ys
      → Finds key ys r
      → Finds key (xs ++ (k, t) ∷ ys) r
  widen_right key k t xs ys none lt at f = λ y m e. elim (In-append y xs (k, t) ys m) [
    | inl a ↦ omega (arith, All-In (λ y. y.0 < k) y xs at.low a)
    | inr (inl b) ↦ omega (arith, ap (λ p. p.0) b)
    | inr (inr c) ↦ f y c e
  ]
  widen_right key k t xs ys (some y) lt at f = (In-right y xs ((k, t) ∷ ys) (inr f.0), f.1)

  -- Where the keys are distinct and in order, `rb_search` returns a node of the tree with the key
  -- asked for, and returns null only if no node has it.
  pub search_key_lem :
      (key : ℕ) (x : Tree T) → IsStrict (inorder x) → Finds key (inorder x) (search_key key x)
  unfolding search_key
  search_key_lem key nil s = λ y m e. m
  search_key_lem key (node c l k t r) s =
      let at = IsStrict-at (inorder l) k t (inorder r) s in
      elim (Bool-cases (key == k)) [
        | inl e ↦
            rw (e, search_key)
              (In-right (k, t) (inorder l) ((k, t) ∷ inorder r) (inl refl), ground arith)
        | inr e ↦ elim (Bool-cases (ltb key k)) [
          | inl lt ↦
              rw (e, lt, search_key)
                (widen_left key k t (inorder l) (inorder r) (search_key key l) (ground arith) at
                  (search_key_lem key l at.left))
          | inr ge ↦
              rw (e, ge, search_key)
                (widen_right key k t (inorder l) (inorder r) (search_key key r) (ground arith) at
                  (search_key_lem key r at.right))
        ]
      ]

  -- Where the keys are distinct and in order, and `same` tells tasks apart, `rb_find_task` finds each
  -- task of the tree under its own key.
  pub find_task_lem :
      (same : T → T → Bool) (task : T) (key : ℕ) (x : Tree T)
      → ((a b : T) → (same a b ≡ true) ↔ (a ≡ b))
      → IsStrict (inorder x)
      → In (key, task) (inorder x)
      → (k : ℕ) × (find_task same task key x ≡ some (k, task))
  unfolding find_task
  find_task_lem same task key nil iff s m = absurd m
  find_task_lem same task key (node c l k t r) iff s m =
      let at = IsStrict-at (inorder l) k t (inorder r) s in
      elim (Bool-cases (same task t)) [
        | inl e ↦ (k, rw (e, find_task) (ap (λ a. some (k, a)) (sym ((iff task t).0 e))))
        | inr e ↦ elim (In-append (key, task) (inorder l) (k, t) (inorder r) m) [
          | inl a ↦
              let low : ltb key k ≡ true =
                ground (arith, All-In (λ y. y.0 < k) (key, task) (inorder l) at.low a) in
              let (n, run) = find_task_lem same task key l iff at.left a in
              (n, rw (e, low, find_task) run)
          | inr (inl b) ↦ cc ((iff task t).1 (ap (λ p. p.1) b))
          | inr (inr d) ↦
              let high : ltb key k ≡ false =
                ground (arith, All-In (λ y. k < y.0) (key, task) (inorder r) at.high d) in
              let (n, run) = find_task_lem same task key r iff at.right d in
              (n, rw (e, high, find_task) run)
        ]
      ]
