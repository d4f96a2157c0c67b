-- ===== src/LoadBalancer/Choice.antt =====
-- mini_rtos/src/load_balancer.c: the loops that look for the core with a least value.
use self_mini_os.Common.{
  ℕ, zero, suc, ◌+◌, ◌<◌, ◌≤◌, ◌≡◌, refl, sym, ap, ap₂, ◌∙◌, ◌⊎◌, inl, inr, Option, none, some,
  List, [], ◌∷◌, get_elem?, ltb, arith, Bool-cases,
}
use mathlib.Core.Path.{subst}
use self_mini_os.LoadBalancer.{CoreMetrics, scan}

-- `m` stands at the index `k` of a list whose first index is `i`
abbrev pub At : List CoreMetrics → ℕ → ℕ → CoreMetrics → Type 0
At [] i k m = ⊥
At (x ∷ xs) i k m = ((k ≡ i) × (x ≡ m)) ⊎ At xs (suc i) k m

At-le : (xs : List CoreMetrics) (i k : ℕ) (m : CoreMetrics) → At xs i k m → i ≤ k
At-le [] i k m a = absurd a
At-le (x ∷ xs) i k m (inl e) = omega (arith, e.0)
At-le (x ∷ xs) i k m (inr a) = omega (arith, At-le xs (suc i) k m a)

get_elem?-At :
    (xs : List CoreMetrics) (i k : ℕ) (m : CoreMetrics)
    → get_elem? xs k ≡ some m
    → At xs i (k + i) m
get_elem?-At [] i k m e = cc e
get_elem?-At (x ∷ xs) i zero m e = inl (omega arith, cc e)
get_elem?-At (x ∷ xs) i (suc k) m e =
    inr (subst (λ z. At xs (suc i) z m) (omega arith) (get_elem?-At xs (suc i) k m e))

At-get_elem? :
    (xs : List CoreMetrics) (i k : ℕ) (m : CoreMetrics)
    → At xs i (k + i) m
    → get_elem? xs k ≡ some m
At-get_elem? [] i k m a = absurd a
At-get_elem? (x ∷ xs) i zero m (inl e) = ap some e.1
At-get_elem? (x ∷ xs) i zero m (inr a) = absurd (omega (arith, At-le xs (suc i) (zero + i) m a))
At-get_elem? (x ∷ xs) i (suc k) m (inl e) = absurd (omega (arith, e.0))
At-get_elem? (x ∷ xs) i (suc k) m (inr a) =
    At-get_elem? xs (suc i) k m (subst (λ z. At xs (suc i) z m) (omega arith) a)

same_value : (o : Option ℕ) (v w : ℕ) → o ≡ some v → o ≡ some w → v ≡ w
same_value o v w e e' = cc (e, e')

Option-cases : (o : Option ℕ) → (o ≡ none) ⊎ ((v : ℕ) × (o ≡ some v))
Option-cases none = inl refl
Option-cases (some v) = inr (v, refl)

module _ (value : ℕ → CoreMetrics → Option ℕ) where
  -- the least value of `xs`, at the first index that has it
  record Found (xs : List CoreMetrics) (i r v : ℕ) (m : CoreMetrics) : Type 0 where
    here : At xs i r m
    is : value r m ≡ some v
    least :
        (k : ℕ) (m' : CoreMetrics) (w : ℕ)
        → At xs i k m'
        → value k m' ≡ some w
        → (v ≤ w) × (k < r → v < w)

  -- all the values of `xs` are `limit` or more
  abbrev Over : List CoreMetrics → ℕ → ℕ → Type 0
  Over xs i limit = (k : ℕ) (m : CoreMetrics) (w : ℕ) → At xs i k m → value k m ≡ some w → limit ≤ w

  abbrev Scanned : List CoreMetrics → ℕ → ℕ → ℕ → ℕ → Type 0
  Scanned xs i best limit r =
      (Over xs i limit × (r ≡ best))
      ⊎ ((m : CoreMetrics) × (v : ℕ) × (v < limit) × Found xs i r v m)

  -- a head that is not taken
  skip :
      (x : CoreMetrics) (xs : List CoreMetrics) (i best limit r : ℕ)
      → ((w : ℕ) → value i x ≡ some w → limit ≤ w)
      → Scanned xs (suc i) best limit r
      → Scanned (x ∷ xs) i best limit r
  skip x xs i best limit r over (inl (all, e)) = inl (
    λ k m w a is. elim a [
      | inl (at, same) ↦ over w (ap₂ value (sym at) same ∙ is)
      | inr b ↦ all k m w b is
    ],
    e,
  )
  skip x xs i best limit r over (inr (m, v, lt, h)) = inr (
    m,
    v,
    lt,
    record {
      here = inr h.here;
      is = h.is;
      least = λ k m' w a is. elim a [
        | inl (at, same) ↦
            let le = over w (ap₂ value (sym at) same ∙ is) in (omega arith, λ _. omega arith)
        | inr b ↦ h.least k m' w b is
      ];
    },
  )

  take_head :
      (x : CoreMetrics) (xs : List CoreMetrics) (i best limit v r : ℕ)
      → value i x ≡ some v
      → v < limit
      → Scanned xs (suc i) i v r
      → Scanned (x ∷ xs) i best limit r
  take_head x xs i best limit v r is lt (inl (all, e)) = inr (
    x,
    v,
    lt,
    record {
      here = inl (e, refl);
      is = subst (λ k. value k x ≡ some v) (sym e) is;
      least = λ k m' w a is'. elim a [
        | inl (at, same) ↦
            let eq = same_value (value i x) v w is (ap₂ value (sym at) same ∙ is') in
            (omega arith, λ low. absurd (omega arith))
        | inr b ↦
            let le = all k m' w b is' in
            (le, λ low. absurd (omega (arith, At-le xs (suc i) k m' b)))
      ];
    },
  )
  take_head x xs i best limit v r is lt (inr (m, u, small, h)) = inr (
    m,
    u,
    omega arith,
    record {
      here = inr h.here;
      is = h.is;
      least = λ k m' w a is'. elim a [
        | inl (at, same) ↦
            let eq = same_value (value i x) v w is (ap₂ value (sym at) same ∙ is') in
            (omega arith, λ _. omega arith)
        | inr b ↦ h.least k m' w b is'
      ];
    },
  )

  scan-Scanned :
      (xs : List CoreMetrics) (i best limit : ℕ)
      → Scanned xs i best limit (scan value xs i best limit)
  unfolding scan
  scan-Scanned [] i best limit = inl (λ k m w a is. absurd a, refl)
  scan-Scanned (x ∷ xs) i best limit = elim (Option-cases (value i x)) [
    | inl e ↦
        rw (e, scan) (skip x xs i best limit _ (λ w is. cc) (scan-Scanned xs (suc i) best limit))
    | inr (v, e) ↦ elim (Bool-cases (ltb v limit)) [
      | inl lt ↦
          rw (e, scan, lt)
            (take_head x xs i best limit v _ e (ground arith) (scan-Scanned xs (suc i) i v))
      | inr ge ↦
          rw (e, scan, ge)
            (skip x xs i best limit _
              (λ w is.
                let eq = same_value (value i x) v w e is in
                let le : limit ≤ v = ground arith in omega arith)
              (scan-Scanned xs (suc i) best limit))
    ]
  ]

  -- the core of the least value, the first of them: a least value below `limit`, or `best` where there
  -- is none
  pub record IsLeast (xs : List CoreMetrics) (r v : ℕ) (m : CoreMetrics) : Type 0 where
    pub here : get_elem? xs r ≡ some m
    pub is : value r m ≡ some v
    pub least :
        (k : ℕ) (m' : CoreMetrics) (w : ℕ)
        → get_elem? xs k ≡ some m'
        → value k m' ≡ some w
        → (v ≤ w) × (k < r → v < w)

  abbrev pub Picks : List CoreMetrics → ℕ → ℕ → ℕ → Type 0
  Picks xs best limit r =
      (((k : ℕ) (m : CoreMetrics) (w : ℕ)
          → get_elem? xs k ≡ some m
          → value k m ≡ some w
          → limit ≤ w)
        × (r ≡ best))
      ⊎ ((m : CoreMetrics) × (v : ℕ) × (v < limit) × IsLeast xs r v m)

  -- The loops of the load balancer that look for a least value return the first of the cores that have
  -- it, out of those that the loop does not pass over; if none of these is below the value that the
  -- loop starts with, they return the core that it starts with.
  pub scan-Picks :
      (xs : List CoreMetrics) (best limit : ℕ) → Picks xs best limit (scan value xs 0 best limit)
  scan-Picks xs best limit = elim (scan-Scanned xs 0 best limit) [
    | inl (all, e) ↦ inl (λ k m w a is. all k m w (at k m a) is, e)
    | inr (m, v, lt, h) ↦ inr (
      m,
      v,
      lt,
      record {
        here = At-get_elem? xs 0 _ m (subst (λ z. At xs 0 z m) (omega arith) h.here);
        is = h.is;
        least = λ k m' w a is. h.least k m' w (at k m' a) is;
      },
    )
  ]
    where
      at : (k : ℕ) (m : CoreMetrics) → get_elem? xs k ≡ some m → At xs 0 k m
      at k m a = subst (λ z. At xs 0 z m) (omega arith) (get_elem?-At xs 0 k m a)
