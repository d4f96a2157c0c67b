-- ===== src/Traffic/Chains.antt =====
-- mini_rtos/src/traffic_control.c: the queues of the classes as lists of tasks, all threaded on the
-- `next` field of the tasks, and what a write of one `next` leaves as it was.
use self_mini_os.Common.{
  ℕ, suc, ◌+◌, ◌%◌, ◌≤◌, ◌≡◌, refl, ◌∙◌, true, false, Option, none, some, List, [], ◌∷◌, ◌++◌, ◌==◌,
  if◌then◌else◌, length, arith, u32_mod,
}
use self_mini_os.Traffic.{TcQueue, assign}

-- how often a task stands in a queue, and in all queues
abbrev pub count_in : ℕ → List ℕ → ℕ
count_in t [] = 0
count_in t (x ∷ xs) = if t == x then suc (count_in t xs) else count_in t xs

abbrev pub count_all : ℕ → List (List ℕ) → ℕ
count_all t [] = 0
count_all t (xs ∷ xss) = count_in t xs + count_all t xss

-- the tasks from a head on
abbrev pub Chain : (ℕ → Option ℕ) → Option ℕ → List ℕ → Type 0
Chain next h [] = h ≡ none
Chain next h (x ∷ xs) = (h ≡ some x) × Chain next (next x) xs

abbrev pub last : List ℕ → Option ℕ
last [] = none
last (x ∷ []) = some x
last (x ∷ y ∷ ys) = last (y ∷ ys)

pub record Queues (next : ℕ → Option ℕ) (q : TcQueue) (xs : List ℕ) : Type 0 where
  pub chain : Chain next q.head xs
  pub end : q.tail ≡ last xs
  pub counted : q.count ≡ length xs % u32_mod

abbrev pub AllQueue : (ℕ → Option ℕ) → List TcQueue → List (List ℕ) → Type 0
AllQueue next [] [] = Unit
AllQueue next [] (xs ∷ xss) = ⊥
AllQueue next (q ∷ qs) [] = ⊥
AllQueue next (q ∷ qs) (xs ∷ xss) = Queues next q xs × AllQueue next qs xss

pub count_in-append :
    (t : ℕ) (xs ys : List ℕ) → count_in t (xs ++ ys) ≡ count_in t xs + count_in t ys
count_in-append t [] ys = omega arith
count_in-append t (x ∷ xs) ys = ground (arith, count_in-append t xs ys)

pub assign_ne {ℓ} :
    {A : Type ℓ} (f : ℕ → A) (t u : ℕ) (v : A) → (u == t) ≡ false → assign f t v u ≡ f u
assign_ne f t u v h = rw h

pub assign_self {ℓ} : {A : Type ℓ} (f : ℕ → A) (t : ℕ) (v : A) → assign f t v t ≡ v
assign_self f t v = let e : (t == t) ≡ true = ground arith in rw e

-- a write at a task that is not in the chain
pub Chain-frame :
    (next : ℕ → Option ℕ) (h : Option ℕ) (xs : List ℕ) (t : ℕ) (v : Option ℕ)
    → count_in t xs ≡ 0
    → Chain next h xs
    → Chain (assign next t v) h xs
Chain-frame next h [] t v out c = c
Chain-frame next h (x ∷ xs) t v out c =
    let differs : (x == t) ≡ false = ground arith in
    (c.0, rw differs (Chain-frame next (next x) xs t v (ground arith) c.1))

pub Queues-frame :
    (next : ℕ → Option ℕ) (q : TcQueue) (xs : List ℕ) (t : ℕ) (v : Option ℕ)
    → count_in t xs ≡ 0
    → Queues next q xs
    → Queues (assign next t v) q xs
Queues-frame next q xs t v out c = record {
  chain = Chain-frame next q.head xs t v out c.chain;
  end = c.end;
  counted = c.counted;
}

pub AllQueue-frame :
    (next : ℕ → Option ℕ) (qs : List TcQueue) (xss : List (List ℕ)) (t : ℕ) (v : Option ℕ)
    → count_all t xss ≡ 0
    → AllQueue next qs xss
    → AllQueue (assign next t v) qs xss
AllQueue-frame next [] [] t v out c = tt
AllQueue-frame next [] (xs ∷ xss) t v out c = absurd c
AllQueue-frame next (q ∷ qs) [] t v out c = absurd c
AllQueue-frame next (q ∷ qs) (xs ∷ xss) t v out c =
    (Queues-frame next q xs t v (omega arith) c.0, AllQueue-frame next qs xss t v (omega arith) c.1)

-- the last task of a chain is in it
pub last-in : (x l : ℕ) (xs : List ℕ) → last (x ∷ xs) ≡ some l → 1 ≤ count_in l (x ∷ xs)
last-in x l [] e = ground arith
last-in x l (y ∷ ys) e = ground (arith, last-in y l ys e)

-- a task behind the last one
pub Chain-append :
    (next : ℕ → Option ℕ) (h : Option ℕ) (x : ℕ) (xs : List ℕ) (l t : ℕ)
    → ((u : ℕ) → count_in u (x ∷ xs) ≤ 1)
    → count_in t (x ∷ xs) ≡ 0
    → last (x ∷ xs) ≡ some l
    → Chain next h (x ∷ xs)
    → Chain (assign (assign next l (some t)) t none) h (x ∷ (xs ++ t ∷ []))
Chain-append next h x [] l t once out e c =
    (c.0, (ground arith, assign_self (assign next l (some t)) t none))
Chain-append next h x (y ∷ ys) l t once out e c =
    let here : (x == l) ≡ false = ground (arith, once x, last-in y l ys e) in
    let fresh : (x == t) ≡ false = ground arith in
    let rest =
      Chain-append next (next x) y ys l t (λ u. ground (arith, once u)) (ground arith) e c.1 in
    let kept =
      assign_ne (assign next l (some t)) t x none fresh ∙ assign_ne next l x (some t) here in
    (c.0, (kept ∙ c.1.0, rest.1))

pub last-append : (xs : List ℕ) (t : ℕ) → last (xs ++ t ∷ []) ≡ some t
last-append [] t = refl
last-append (x ∷ []) t = refl
last-append (x ∷ y ∷ ys) t = last-append (y ∷ ys) t
