-- ===== src/Multiqueue/Stable.antt =====
-- mini_rtos/src/multiqueue.c: the insertion loop of `mqueue_enqueue`, over any order of the items.
use self_mini_os.Common.{
  ◌≡◌, refl, ap, inl, inr, Bool, true, false, not, List, [], ◌∷◌, ◌++◌, arith, leb, Bool-cases, All,
  if◌then◌else◌,
}
use self_mini_os.Multiqueue.{QueueItem, link_after}

-- the items that pass a test, in their order
abbrev pub select : (QueueItem → Bool) → List QueueItem → List QueueItem
select keep [] = []
select keep (x ∷ xs) = if keep x then x ∷ select keep xs else select keep xs

select-All :
    (keep : QueueItem → Bool) (xs : List QueueItem)
    → All (λ x. keep x ≡ true) xs
    → select keep xs ≡ xs
select-All keep [] h = refl
select-All keep (x ∷ xs) h = rw h.0 (ap (λ r. x ∷ r) (select-All keep xs h.1))

select-All_not :
    (keep : QueueItem → Bool) (xs : List QueueItem)
    → All (λ x. keep x ≡ false) xs
    → select keep xs ≡ []
select-All_not keep [] h = refl
select-All_not keep (x ∷ xs) h = rw h.0 (select-All_not keep xs h.1)

-- `x` may stand before `y`
abbrev pub by_priority : QueueItem → QueueItem → Bool
by_priority x y = leb y.priority x.priority

abbrev pub by_deadline : QueueItem → QueueItem → Bool
by_deadline x y = leb x.deadline y.deadline

abbrev pub SortedBy : (QueueItem → QueueItem → Bool) → List QueueItem → Type 0
SortedBy leq [] = Unit
SortedBy leq (x ∷ xs) = All (λ y. leq x y ≡ true) xs × SortedBy leq xs

module _ (leq : QueueItem → QueueItem → Bool)
    (leq_trans : (x y z : QueueItem) → leq x y ≡ true → leq y z ≡ true → leq x z ≡ true)
    (leq_total : (x y : QueueItem) → leq x y ≡ false → leq y x ≡ true) where
  All-trans :
      (x y : QueueItem) (zs : List QueueItem)
      → leq x y ≡ true
      → All (λ z. leq y z ≡ true) zs
      → All (λ z. leq x z ≡ true) zs
  All-trans x y [] e h = tt
  All-trans x y (z ∷ zs) e h = (leq_trans x y z e h.0, All-trans x y zs e h.1)

  All-later :
      (x item : QueueItem) (zs : List QueueItem)
      → leq x item ≡ false
      → All (λ z. leq x z ≡ true) zs
      → All (λ z. leq z item ≡ false) zs
  All-later x item [] e h = tt
  All-later x item (z ∷ zs) e h = (ground (arith, leq_trans x z item), All-later x item zs e h.1)

  All-not :
      (item : QueueItem) (zs : List QueueItem)
      → All (λ z. leq z item ≡ false) zs
      → All (λ z. not (leq z item) ≡ true) zs
  All-not item [] h = tt
  All-not item (z ∷ zs) h = (rw h.0, All-not item zs h.1)

  -- The loop puts the item behind all that may stand before it, and before all others.
  pub link_after-stable :
      (item : QueueItem) (xs : List QueueItem)
      → SortedBy leq xs
      → link_after (λ y. leq y item) item xs
        ≡ select (λ y. leq y item) xs ++ item ∷ select (λ y. not (leq y item)) xs
  unfolding link_after
  link_after-stable item [] s = refl
  link_after-stable item (x ∷ xs) s = elim (Bool-cases (leq x item)) [
    | inl e ↦ rw e (ap (λ r. x ∷ r) (link_after-stable item xs s.1))
    | inr e ↦
        let later = All-later x item xs e s.0 in
        rw (e, select-All_not (λ y. leq y item) xs later)
          (rw (select-All (λ y. not (leq y item)) xs (All-not item xs later)))
  ]

  All-link_after :
      (x item : QueueItem) (keep : QueueItem → Bool) (xs : List QueueItem)
      → leq x item ≡ true
      → All (λ y. leq x y ≡ true) xs
      → All (λ y. leq x y ≡ true) (link_after keep item xs)
  unfolding link_after
  All-link_after x item keep [] e h = (e, tt)
  All-link_after x item keep (y ∷ ys) e h = elim (Bool-cases (keep y)) [
    | inl k ↦ rw k (h.0, All-link_after x item keep ys e h.1)
    | inr k ↦ rw k (e, h)
  ]

  pub link_after-SortedBy :
      (item : QueueItem) (xs : List QueueItem)
      → SortedBy leq xs
      → SortedBy leq (link_after (λ y. leq y item) item xs)
  unfolding link_after
  link_after-SortedBy item [] s = (tt, tt)
  link_after-SortedBy item (x ∷ xs) s = elim (Bool-cases (leq x item)) [
    | inl e ↦
        rw e (All-link_after x item (λ y. leq y item) xs e s.0, link_after-SortedBy item xs s.1)
    | inr e ↦ let first = leq_total x item e in rw e ((first, All-trans item x xs first s.0), s)
  ]
