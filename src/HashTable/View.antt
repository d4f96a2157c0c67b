-- ===== src/HashTable/View.antt =====
-- mini_rtos/src/hashtable.c: the map that the entries of a table stand for, and the number of them.
use self_mini_os.Common.{
  ℕ, zero, suc, ◌+◌, ◌<◌, ◌≡◌, ◌≢◌, refl, ap, Bool, true, false, Option, none, List, [], ◌∷◌,
  if◌then◌else◌, length, set, replicate, arith,
}
use self_mini_os.HashTable.{Entry, blank, Hashing, is_occupied}
use self_mini_os.HashTable.Probe.{at, matches}

abbrev pub bit : Bool → ℕ
bit true = 1
bit false = 0

-- the occupied entries
unfoldable pub tally : List Entry → ℕ
tally [] = 0
tally (e ∷ es) = bit (is_occupied e) + tally es

pub at-set_self : (es : List Entry) (i : ℕ) (e : Entry) → i < length es → at (set es i e) i ≡ e
at-set_self [] i e low = elim low [ ]
at-set_self (x ∷ es) zero e low = refl
at-set_self (x ∷ es) (suc i) e low = at-set_self es i e (omega arith)

pub at-set_ne : (es : List Entry) (i j : ℕ) (e : Entry) → i ≢ j → at (set es i e) j ≡ at es j
at-set_ne [] i j e ne = refl
at-set_ne (x ∷ es) zero zero e ne = absurd (ne refl)
at-set_ne (x ∷ es) zero (suc j) e ne = refl
at-set_ne (x ∷ es) (suc i) zero e ne = refl
at-set_ne (x ∷ es) (suc i) (suc j) e ne = at-set_ne es i j e (λ same. ne (ap suc same))

pub at-replicate : (n i : ℕ) → at (replicate n blank) i ≡ blank
at-replicate zero i = refl
at-replicate (suc n) zero = refl
at-replicate (suc n) (suc i) = at-replicate n i

-- what a write to one entry does to the number of occupied ones
pub tally-set :
    (es : List Entry) (i : ℕ) (e : Entry)
    → i < length es
    → tally (set es i e) + bit (is_occupied (at es i)) ≡ tally es + bit (is_occupied e)
unfolding tally
tally-set [] i e low = elim low [ ]
tally-set (x ∷ es) zero e low = omega arith
tally-set (x ∷ es) (suc i) e low = omega (arith, tally-set es i e (omega arith))

pub tally-full :
    (es : List Entry)
    → ((i : ℕ) → i < length es → is_occupied (at es i) ≡ true)
    → tally es ≡ length es
unfolding tally
tally-full [] all = refl
tally-full (e ∷ es) all =
    rw (all 0 (omega arith)) (omega (arith, tally-full es (λ i low. all (suc i) (omega arith))))

pub tally-blank : (n : ℕ) → tally (replicate n blank) ≡ 0
unfolding tally is_occupied
tally-blank zero = refl
tally-blank (suc n) = omega (arith, tally-blank n)

module _ (h : Hashing) where
  -- what `ht_get` is to return at a key
  unfoldable pub find_value : List ℕ → List Entry → Option (List ℕ)
  find_value q [] = none
  find_value q (e ∷ es) = if matches h q e then e.value else find_value q es

  -- no entry but the `s`th holds the key
  abbrev pub OnlyAt : List ℕ → List Entry → ℕ → Type 0
  OnlyAt q es s = (i : ℕ) → i < length es → i ≢ s → matches h q (at es i) ≡ false

  pub find_value-at :
      (q : List ℕ) (es : List Entry) (s : ℕ)
      → s < length es
      → OnlyAt q es s
      → matches h q (at es s) ≡ true
      → find_value q es ≡ (at es s).value
  unfolding find_value
  find_value-at q [] s low only m = elim low [ ]
  find_value-at q (e ∷ es) zero low only m = rw m
  find_value-at q (e ∷ es) (suc s) low only m = rw (only 0 (omega arith) (omega arith)) (
      find_value-at q es s (omega arith) (λ i l ne. only (suc i) (omega arith) (omega (arith, ne)))
        m)

  pub find_value-nowhere :
      (q : List ℕ) (es : List Entry)
      → ((i : ℕ) → i < length es → matches h q (at es i) ≡ false)
      → find_value q es ≡ none
  unfolding find_value
  find_value-nowhere q [] all = refl
  find_value-nowhere q (e ∷ es) all =
      rw (all 0 (omega arith)) (find_value-nowhere q es (λ i low. all (suc i) (omega arith)))

  pub find_value-set_other :
      (q : List ℕ) (es : List Entry) (s : ℕ) (e : Entry)
      → matches h q (at es s) ≡ false
      → matches h q e ≡ false
      → find_value q (set es s e) ≡ find_value q es
  unfolding find_value
  find_value-set_other q [] s e m m' = refl
  find_value-set_other q (x ∷ es) zero e m m' = rw (m, m')
  find_value-set_other q (x ∷ es) (suc s) e m m' = rw (find_value-set_other q es s e m m')

  pub find_value-set_self :
      (q : List ℕ) (es : List Entry) (s : ℕ) (e : Entry)
      → s < length es
      → OnlyAt q es s
      → find_value q (set es s e) ≡ (if matches h q e then e.value else none)
  unfolding find_value
  find_value-set_self q [] s e low only = elim low [ ]
  find_value-set_self q (x ∷ es) zero e low only =
      rw (find_value-nowhere q es (λ i l. only (suc i) (omega arith) (omega arith)))
  find_value-set_self q (x ∷ es) (suc s) e low only = rw (only 0 (omega arith) (omega arith)) (
      find_value-set_self q es s e (omega arith)
        (λ i l ne. only (suc i) (omega arith) (omega (arith, ne))))
