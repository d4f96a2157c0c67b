-- ===== src/HashTable/Valid.antt =====
-- mini_rtos/src/hashtable.c: when a table is well formed, and what `find_slot` finds in it.
use self_mini_os.Common.{
  ℕ, ◌+◌, ◌*◌, ◌%◌, ◌≤◌, ◌<◌, ◌≡◌, refl, sym, ap, ◌∙◌, ◌⊎◌, inl, inr, Bool, true, false, ◌&&◌, some,
  List, ◌==◌, length, arith, Bool-cases,
}
use mathlib.Core.Path.{subst}
use native.Mathlib.Decide.{dec_lt}
use native.Mathlib.Nat.{mod-eq_of_lt}
use self_mini_os.HashTable.{Entry, Hashing, HashTable, is_occupied, same_key, find_slot}
use self_mini_os.HashTable.Primes.{last_prime}
use self_mini_os.HashTable.Ring.{wrap-lt, wrap-cover}
use self_mini_os.HashTable.Probe.{
  at, Filled, is_occupied-Filled, matches, matches-is_occupied, Outcome, hit, miss, full,
  probe-Outcome,
}
use self_mini_os.HashTable.View.{tally, tally-full}

-- what the hash and the comparison of keys must satisfy, keys of other sizes being other keys
unfoldable pub equal : Hashing → List ℕ → List ℕ → Bool
equal h a b = (length a == length b) && h.compare a b

pub record IsHashing (h : Hashing) : Type 0 where
  pub equal_refl : (a : List ℕ) → equal h a a ≡ true
  pub equal_symm : (a b : List ℕ) → equal h a b ≡ true → equal h b a ≡ true
  pub equal_trans : (a b c : List ℕ) → equal h a b ≡ true → equal h b c ≡ true → equal h a c ≡ true
  pub hash-equal : (a b : List ℕ) → equal h a b ≡ true → h.hash a ≡ h.hash b

-- the slot is on the way from the home, with no empty slot before it
abbrev pub Reached : List Entry → ℕ → ℕ → ℕ → Type 0
Reached es n home slot =
    (m : ℕ) × (m < n)
    × (slot ≡ (home + m) % n)
    × ((j : ℕ) → j < m → Filled (at es ((home + j) % n)))

pub record IsPlaced (h : Hashing) (es : List Entry) (n : ℕ) : Type 0 where
  pub sized : length es ≡ n
  pub positive : 0 < n
  pub reached :
      (i : ℕ) → i < n → is_occupied (at es i) ≡ true → Reached es n (h.hash (at es i).key % n) i
  -- no key is held twice
  pub once :
      (i j : ℕ)
      → i < n
      → j < n
      → is_occupied (at es i) ≡ true
      → matches h (at es i).key (at es j) ≡ true
      → i ≡ j

pub record IsValid (h : Hashing) (t : HashTable) : Type 0 where
  pub placed : IsPlaced h t.entries t.size
  pub counted : t.count ≡ tally t.entries
  pub load : 4 * t.count ≤ 3 * t.size
  pub small : t.size ≤ last_prime

-- the result of `find_slot`
pub data Located (h : Hashing) (t : HashTable) (key : List ℕ) : ℕ × Bool → Type 0 where
  present :
      {slot : ℕ}
      → slot < t.size
      → matches h key (at t.entries slot) ≡ true
      → Located h t key (slot, true)
  absent :
      {slot : ℕ}
      → slot < t.size
      → is_occupied (at t.entries slot) ≡ false
      → Reached t.entries t.size (h.hash key % t.size) slot
      → ((i : ℕ) → i < t.size → matches h key (at t.entries i) ≡ false)
      → Located h t key (slot, false)

module _ (h : Hashing) (laws : IsHashing h) where
  pub matches-equal : (q : List ℕ) (e : Entry) → matches h q e ≡ true → equal h e.key q ≡ true
  unfolding matches same_key equal
  matches-equal q e m = ground arith

  pub matches_self : (e : Entry) → is_occupied e ≡ true → matches h e.key e ≡ true
  unfolding matches same_key
  matches_self e o = rw o (unfold equal in laws.equal_refl e.key)

  -- equal keys are held by the same entries
  pub matches_congr :
      (q k : List ℕ) (e : Entry) → equal h k q ≡ true → matches h q e ≡ matches h k e
  unfolding matches same_key equal
  matches_congr q k e s =
      ground (arith, laws.equal_trans e.key k q, laws.equal_trans e.key q k, laws.equal_symm k q)

  module _ (t : HashTable) (valid : IsValid h t) (key : List ℕ) where
    home_low : h.hash key % t.size < t.size
    home_low = omega (arith, valid.placed.positive)

    -- an entry that holds the key is on its way
    key-Reached :
        (i : ℕ)
        → i < t.size
        → matches h key (at t.entries i) ≡ true
        → Reached t.entries t.size (h.hash key % t.size) i
    key-Reached i low m =
        subst (λ x. Reached t.entries t.size (x % t.size) i)
          (laws.hash-equal _ _ (matches-equal key (at t.entries i) m))
          (valid.placed.reached i low (matches-is_occupied h key _ m))

    miss_nowhere :
        (k : ℕ)
        → ((j : ℕ)
            → j < k
            → (matches h key (at t.entries ((h.hash key % t.size + j) % t.size)) ≡ false)
              × Filled (at t.entries ((h.hash key % t.size + j) % t.size)))
        → (k ≡ t.size) ⊎ (¬ Filled (at t.entries ((h.hash key % t.size + k) % t.size)))
        → (i : ℕ) → i < t.size
        → matches h key (at t.entries i) ≡ false
    miss_nowhere k past end i low = elim (Bool-cases (matches h key (at t.entries i))) [
      | inr none ↦ none
      | inl m ↦
          let (r, few, place, filled) = key-Reached i low m in
          let m' = subst (λ x. matches h key (at t.entries x) ≡ true) place m in
          elim (dec_lt r k) [
            | yes before ↦ cc (m', (past r before).0)
            | no late ↦ elim end [
              | inl all ↦ absurd (omega arith)
              | inr stop ↦ elim (dec_lt k r) [
                | yes after ↦ absurd (stop (filled k after))
                | no at_k ↦
                    let same : r ≡ k = omega arith in
                    absurd (
                      stop (
                        subst (λ x. Filled (at t.entries ((h.hash key % t.size + x) % t.size))) same
                          (is_occupied-Filled _ (matches-is_occupied h key _ m'))))
              ]
            ]
          ]
    ]

    not_full :
        ((m : ℕ)
          → m < t.size
          → is_occupied (at t.entries ((h.hash key % t.size + m) % t.size)) ≡ true)
        → ⊥
    not_full all =
        let every : (i : ℕ) → i < length t.entries → is_occupied (at t.entries i) ≡ true = λ i low.
          let (m, few, place) =
            wrap-cover (h.hash key % t.size) t.size home_low i
              (omega (arith, valid.placed.sized)) in
          subst (λ x. is_occupied (at t.entries x) ≡ true) (sym place) (all m few) in
        omega (
          arith,
          tally-full t.entries every,
          valid.counted,
          valid.load,
          valid.placed.sized,
          valid.placed.positive,
        )

    Outcome-Located :
        (r : ℕ × Bool) → Outcome h t.entries t.size key (h.hash key % t.size) r → Located h t key r
    Outcome-Located r (hit low m) = present low m
    Outcome-Located r (miss {slot} m k few place free past before end) =
        absent (subst (λ x. x < t.size) (sym place) (wrap-lt _ t.size home_low m)) free
          (m, few, place, λ j low. (past j (omega arith)).1) (miss_nowhere k past end)
    Outcome-Located r (full all) = absurd (not_full all)

    -- In a valid table `find_slot` ends, and finds the key or a free slot for it.
    pub find_slot-Located : (r : ℕ × Bool) × (find_slot h t key ≡ some r) × Located h t key r
    unfolding find_slot
    find_slot-Located =
        let start = h.hash key % t.size in
        let first : (start + 0) % t.size ≡ start =
          ap (λ x. x % t.size) (omega arith) ∙ mod-eq_of_lt home_low in
        let (r, e, out) =
          probe-Outcome h t.entries t.size key start home_low valid.placed.sized t.size 0 t.size
            (omega arith) valid.placed.positive (λ m low. elim low [ ])
            (inl (refl, λ m low. elim low [ ])) in
        (r, rw first at e, Outcome-Located r out)
