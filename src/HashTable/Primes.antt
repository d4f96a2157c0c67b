-- ===== src/HashTable/Primes.antt =====
-- mini_rtos/src/hashtable.c: `is_prime` and `next_prime`, which choose the sizes of tables.
-- `size_t` is a word of 32 bits. Both loops take fuel, and `none` means that it ran out: the 1000
-- rounds of `is_prime` are enough below 2 ^ 23, and so are the 2 ^ 23 of `next_prime` up to the
-- largest prime there.
use self_mini_os.Common.{
  ℕ, zero, suc, ◌+◌, ◌*◌, ◌%◌, ◌^◌, ◌≤◌, ◌<◌, ◌≡◌, ◌≢◌, refl, ap, ◌∙◌, leb→le, Bool, true, false,
  ◌||◌, Option, none, some, leb, ◌==◌, if◌then◌else◌, mul32, add32, arith, Bool-cases, inl, inr,
}
use native.Mathlib.Decide.{ℕ_discrete}

-- the loop of `is_prime` from the divisor `i`
unfoldable pub trial : ℕ → ℕ → ℕ → Option Bool
trial zero i n = none
trial (suc fuel) i n = elim (leb (mul32 i i) n) [
  | true ↦ elim ((n % i == 0) || (n % (add32 i 2) == 0)) [
    | true ↦ some false
    | false ↦ trial fuel (add32 i 6) n
  ]
  | false ↦ some true
]

unfoldable pub is_prime : ℕ → Option Bool
is_prime n =
    if leb n 1
    then some false
    else if leb n 3
    then some true
    else if (n % 2 == 0) || (n % 3 == 0)
    then some false
    else trial 1000 5 n

-- the loop of `next_prime`, past `prime`
unfoldable pub search_prime : ℕ → ℕ → Option ℕ
search_prime zero prime = none
search_prime (suc fuel) prime = elim (is_prime (add32 prime 1)) [
  | none ↦ none
  | some true ↦ some (add32 prime 1)
  | some false ↦ search_prime fuel (add32 prime 1)
]

abbrev pub prime_fuel : ℕ
prime_fuel = 2 ^ 23

unfoldable pub next_prime : ℕ → Option ℕ
next_prime n = if leb n 1 then some 2 else search_prime prime_fuel n

square_lt : (i n : ℕ) → i * i ≤ n → n < 2 ^ 23 → i < 2897
square_lt i n h k = grind arith

square_small : (i : ℕ) → i < 2903 → mul32 i i ≡ i * i
square_small i h = let low : i * i ≤ 2903 * 2903 = grind arith in omega (arith, low)

-- the loop of `is_prime` ends within its fuel
trial_total :
    (fuel i n : ℕ)
    → n < 2 ^ 23
    → i < 2903
    → 2903 < i + 6 * fuel
    → (b : Bool) × (trial fuel i n ≡ some b)
unfolding trial
trial_total zero i n few low more = absurd (omega arith)
trial_total (suc fuel) i n few low more = elim (Bool-cases (leb (mul32 i i) n)) [
  | inr big ↦ (true, rw (big, trial))
  | inl small ↦
      let sq : i * i ≤ n = omega (arith, leb→le (mul32 i i) n small, square_small i low) in
      let below : i < 2897 = square_lt i n sq few in
      let (b, e) = trial_total fuel (add32 i 6) n few (omega arith) (omega arith) in
      elim (Bool-cases ((n % i == 0) || (n % (add32 i 2) == 0))) [
        | inl divided ↦ (false, rw (small, divided, trial))
        | inr other ↦ (b, rw (small, other, trial) e)
      ]
]

pub is_prime_total : (n : ℕ) → n < 2 ^ 23 → (b : Bool) × (is_prime n ≡ some b)
unfolding is_prime
is_prime_total n few =
    let (b, e) = trial_total 1000 5 n few (omega arith) (omega arith) in
    (
      (if leb n 1
          then false
          else if leb n 3
          then true
          else if (n % 2 == 0) || (n % 3 == 0)
          then false
          else b),
      ground (arith, e),
    )

-- the largest prime below 2 ^ 23
abbrev pub last_prime : ℕ
last_prime = 8388593

is_prime_last : is_prime last_prime ≡ some true
unfolding is_prime trial
is_prime_last = refl

-- what `next_prime n` promises of its result `p`
pub record IsNextPrime (n p : ℕ) : Type 0 where
  pub above : n < p
  pub bound : p ≤ last_prime
  pub prime : is_prime p ≡ some true
  pub least : (q : ℕ) → n < q → q < p → is_prime q ≡ some false

clash : (n : ℕ) → n + 1 ≡ last_prime → is_prime (n + 1) ≡ some false → ⊥
clash n d e = cc (rw d at e, is_prime_last)

between :
    (n p : ℕ)
    → is_prime (n + 1) ≡ some false
    → ((q : ℕ) → n + 1 < q → q < p → is_prime q ≡ some false)
    → (q : ℕ) → n < q
    → q < p
    → is_prime q ≡ some false
between n p e rest q a c = elim (ℕ_discrete q (n + 1)) [
  | yes same ↦ rw same e
  | no other ↦ rest q (omega arith) c
]

search_prime_found :
    (fuel n : ℕ)
    → n + 1 < 2 ^ 32
    → is_prime (n + 1) ≡ some true
    → search_prime (suc fuel) n ≡ some (n + 1)
unfolding search_prime
search_prime_found fuel n low e =
    let same : add32 n 1 ≡ n + 1 = omega arith in rw (same, e, search_prime) (ap some same)

search_prime_missed :
    (fuel n : ℕ)
    → n + 1 < 2 ^ 32
    → is_prime (n + 1) ≡ some false
    → search_prime (suc fuel) n ≡ search_prime fuel (n + 1)
unfolding search_prime
search_prime_missed fuel n low e =
    let same : add32 n 1 ≡ n + 1 = omega arith in
    rw (same, e, search_prime) (ap (search_prime fuel) same)

search_prime_total :
    (fuel n : ℕ)
    → n < last_prime
    → last_prime ≤ n + fuel
    → (p : ℕ) × (search_prime fuel n ≡ some p) × IsNextPrime n p
search_prime_total zero n low more = absurd (omega arith)
search_prime_total (suc fuel) n low more =
    let (b, e) = is_prime_total (n + 1) (omega arith) in
    elim (Bool-cases b) [
      | inl prime ↦
          let e' : is_prime (n + 1) ≡ some true = rw prime at e in
          (
            n + 1,
            search_prime_found fuel n (omega arith) e',
            record {
              above = omega arith;
              bound = omega arith;
              prime = e';
              least = λ q a c. absurd (omega arith);
            },
          )
      | inr other ↦
          let e' : is_prime (n + 1) ≡ some false = rw other at e in
          let short : n + 1 ≢ last_prime = λ d. absurd (clash n d e') in
          let (p, f, next) = search_prime_total fuel (n + 1) (omega (arith, short)) (omega arith) in
          (
            p,
            search_prime_missed fuel n (omega arith) e' ∙ f,
            record {
              above = omega (arith, next.above);
              bound = next.bound;
              prime = next.prime;
              least = between n p e' next.least;
            },
          )
    ]

is_prime_two : is_prime 2 ≡ some true
unfolding is_prime
is_prime_two = refl

is_prime_tiny : (q : ℕ) → q < 2 → is_prime q ≡ some false
unfolding is_prime
is_prime_tiny q c = ground arith

-- Below 8388593, the largest prime of 23 bits, the loops of `next_prime` end within their fuel, and
-- its result is the next number that `is_prime` accepts.
pub next_prime_lem : (n : ℕ) → n < last_prime → (p : ℕ) × (next_prime n ≡ some p) × IsNextPrime n p
unfolding next_prime
next_prime_lem n low = elim (Bool-cases (leb n 1)) [
  | inl tiny ↦ (
    2,
    rw tiny,
    record {
      above = omega (arith, leb→le n 1 tiny);
      bound = omega arith;
      prime = is_prime_two;
      least = λ q a c. is_prime_tiny q c;
    },
  )
  | inr other ↦
      let (p, e, next) = search_prime_total prime_fuel n low (omega arith) in (p, rw other e, next)
]
