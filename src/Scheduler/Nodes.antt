-- ===== src/Scheduler/Nodes.antt =====
-- mini_rtos/src/scheduler.c: lists of nodes with distinct keys, as the trees of the scheduler hold them, and
-- what an insertion and a removal do to them.
use self_mini_os.Common.{
  ℕ, ◌<◌, ◌≡◌, ◌≢◌, refl, sym, ap, inl, inr, true, false, List, [], ◌∷◌, ◌++◌, leb, ◌==◌,
  if◌then◌else◌, arith, Bool-cases, All,
}
use mathlib.Core.Path.{subst}
use self_mini_os.RbTree.Contents.{insert_after}
use self_mini_os.RbTree.Query.{In, IsStrict, All-In, In-right}

abbrev pub Nodes : Type 0
Nodes = List (ℕ × ℕ)

abbrev pub Lacks : ℕ → Nodes → Type 0
Lacks k xs = All (λ y. y.0 ≢ k) xs

-- the nodes but those of a key
pub without : ℕ → Nodes → Nodes
without k [] = []
without k (y ∷ ys) = let rest = without k ys in if y.0 == k then rest else y ∷ rest

pub without-Lacks : (k : ℕ) (xs : Nodes) → Lacks k xs → without k xs ≡ xs
unfolding without
without-Lacks k [] out = refl
without-Lacks k (y ∷ ys) out = ground (arith, without-Lacks k ys out.1)

pub Lacks-above : (k : ℕ) (xs : Nodes) → All (λ y. k < y.0) xs → Lacks k xs
Lacks-above k [] a = tt
Lacks-above k (y ∷ ys) a = (omega (arith, a.0), Lacks-above k ys a.1)

pub All-without {κ} : (P : ℕ × ℕ → Type κ) (k : ℕ) (xs : Nodes) → All P xs → All P (without k xs)
unfolding without
All-without P k [] a = tt
All-without P k (y ∷ ys) a = elim (Bool-cases (y.0 == k)) [
  | inl e ↦ rw e (All-without P k ys a.1)
  | inr e ↦ rw e (a.0, All-without P k ys a.1)
]

pub Lacks-without : (k : ℕ) (xs : Nodes) → Lacks k (without k xs)
unfolding without
Lacks-without k [] = tt
Lacks-without k (y ∷ ys) = elim (Bool-cases (y.0 == k)) [
  | inl e ↦ rw e (Lacks-without k ys)
  | inr e ↦ rw e (ground arith, Lacks-without k ys)
]

pub IsStrict-without : (k : ℕ) (xs : Nodes) → IsStrict xs → IsStrict (without k xs)
unfolding without
IsStrict-without k [] s = tt
IsStrict-without k (y ∷ ys) s = elim (Bool-cases (y.0 == k)) [
  | inl e ↦ rw e (IsStrict-without k ys s.1)
  | inr e ↦ rw e (All-without (λ z. y.0 < z.0) k ys s.0, IsStrict-without k ys s.1)
]

pub without-insert_after :
    (k t : ℕ) (xs : Nodes) → without k (insert_after (k, t) xs) ≡ without k xs
unfolding without insert_after
without-insert_after k t [] = ground arith
without-insert_after k t (y ∷ ys) = ground (arith, without-insert_after k t ys)

insert_after-above :
    (k t : ℕ) (xs : Nodes) → All (λ y. k < y.0) xs → insert_after (k, t) xs ≡ (k, t) ∷ xs
unfolding insert_after
insert_after-above k t [] a = refl
insert_after-above k t (y ∷ ys) a = ground arith

pub insert_after-without :
    (k t : ℕ) (xs : Nodes) → IsStrict xs → In (k, t) xs → insert_after (k, t) (without k xs) ≡ xs
unfolding without insert_after
insert_after-without k t [] s m = absurd m
insert_after-without k t ((k', t') ∷ ys) s (inl e) =
    let same : k ≡ k' = ap (λ y. y.0) e in
    let above : All (λ y. k < y.0) ys = subst (λ z. All (λ y. z < y.0) ys) (sym same) s.0 in
    let test : (k' == k) ≡ true = ground arith in
    rw (test, without-Lacks k ys (Lacks-above k ys above), insert_after-above k t ys above, e) refl
insert_after-without k t ((k', t') ∷ ys) s (inr m) =
    let lt : k' < k = All-In (λ y. k' < y.0) (k, t) ys s.0 m in
    let test : (k' == k) ≡ false = ground arith in
    let le : leb k' k ≡ true = ground arith in rw (test, le, insert_after-without k t ys s.1 m) refl

pub All-insert_after {κ} :
    (P : ℕ × ℕ → Type κ) (x : ℕ × ℕ) (xs : Nodes) → P x → All P xs → All P (insert_after x xs)
unfolding insert_after
All-insert_after P x [] p a = (p, tt)
All-insert_after P x (y ∷ ys) p a = elim (Bool-cases (leb y.0 x.0)) [
  | inl e ↦ rw e (a.0, All-insert_after P x ys p a.1)
  | inr e ↦ rw e (p, a)
]

All-weaken : (m n : ℕ) (xs : Nodes) → m < n → All (λ y. n < y.0) xs → All (λ y. m < y.0) xs
All-weaken m n [] h a = tt
All-weaken m n (x ∷ xs) h a = (omega arith, All-weaken m n xs h a.1)

pub IsStrict-insert_after :
    (k t : ℕ) (xs : Nodes) → Lacks k xs → IsStrict xs → IsStrict (insert_after (k, t) xs)
unfolding insert_after
IsStrict-insert_after k t [] out s = (tt, tt)
IsStrict-insert_after k t (y ∷ ys) out s = elim (Bool-cases (leb y.0 k)) [
  | inl e ↦
      let lt : y.0 < k = ground (arith, out.0) in
      rw e
        (All-insert_after (λ z. y.0 < z.0) (k, t) ys lt s.0, IsStrict-insert_after k t ys out.1 s.1)
  | inr e ↦ let lt : k < y.0 = ground arith in rw e ((lt, All-weaken k y.0 ys lt s.0), s)
]

pub In-insert_after : (x : ℕ × ℕ) (xs : Nodes) → In x (insert_after x xs)
unfolding insert_after
In-insert_after x [] = inl refl
In-insert_after x (y ∷ ys) = elim (Bool-cases (leb y.0 x.0)) [
  | inl e ↦ rw e (inr (In-insert_after x ys))
  | inr e ↦ rw e (inl refl)
]

pub without-at :
    (k t : ℕ) (pre post : Nodes)
    → IsStrict (pre ++ (k, t) ∷ post)
    → without k (pre ++ (k, t) ∷ post) ≡ pre ++ post
unfolding without
without-at k t [] post s = ground (arith, without-Lacks k post (Lacks-above k post s.0))
without-at k t (y ∷ pre) post s =
    let lt : y.0 < k =
      All-In (λ z. y.0 < z.0) (k, t) (pre ++ (k, t) ∷ post) s.0
        (In-right (k, t) pre ((k, t) ∷ post) (inl refl)) in
    let test : (y.0 == k) ≡ false = ground arith in rw (test, without-at k t pre post s.1) refl

pub In-without : (y : ℕ × ℕ) (k : ℕ) (xs : Nodes) → In y (without k xs) → In y xs
unfolding without
In-without y k [] m = m
In-without y k (x ∷ xs) m = elim (Bool-cases (x.0 == k)) [
  | inl e ↦ inr (In-without y k xs (rw e at m))
  | inr e ↦ elim (rw e at m) as (λ n. In y (x ∷ xs)) [
    | inl q ↦ inl q
    | inr q ↦ inr (In-without y k xs q)
  ]
]

-- a property that holds of each node
pub All-of {κ} : (P : ℕ × ℕ → Type κ) (xs : Nodes) → ((y : ℕ × ℕ) → In y xs → P y) → All P xs
All-of P [] f = tt
All-of P (x ∷ xs) f = (f x (inl refl), All-of P xs (λ y m. f y (inr m)))
