-- ===== src/HashTable/Reinsert.antt =====
-- mini_rtos/src/hashtable.c: the loop of `ht_resize` over the old entries.
use self_mini_os.Common.{
  ◌>>=◌, ℕ, suc, ◌+◌, ◌*◌, ◌≤◌, ◌<◌, ◌≡◌, refl, sym, ap, ◌∙◌, inl, inr, Bool, true, false, some,
  none, List, [], ◌∷◌, length, arith, Bool-cases, Option-cases, add32,
}
use self_mini_os.HashTable.{
  Entry, Hashing, HashTable, Insertion, is_occupied, same_key, is_heavy, store, insert, reinsert,
}
use self_mini_os.HashTable.Primes.{last_prime}
use self_mini_os.HashTable.Probe.{at, matches, matches-free}
use self_mini_os.HashTable.View.{bit, tally, find_value}
use self_mini_os.HashTable.Valid.{equal, IsHashing, IsValid}
use self_mini_os.HashTable.Insert.{store-Stored}

module _ (h : Hashing) where
  abbrev pub Nowhere : List ℕ → List Entry → Type 0
  Nowhere q es = (i : ℕ) → i < length es → matches h q (at es i) ≡ false

  abbrev pub AtMostOnce : List ℕ → List Entry → Type 0
  AtMostOnce q es =
      (i j : ℕ)
      → i < length es
      → j < length es
      → matches h q (at es i) ≡ true
      → matches h q (at es j) ≡ true
      → i ≡ j

  -- what the loop over the old entries does to the new table
  pub record Reinserted (es : List Entry) (t : HashTable) (m : List Bool)
      (r : Bool × HashTable × List Bool) : Type 0 where
    pub ok : r.0 ≡ true
    pub valid : IsValid h r.1
    pub same_size : r.1.size ≡ t.size
    pub grows : r.1.count ≤ t.count + tally es
    pub memory : m ≡ [] → r.2 ≡ []
    pub untouched :
        m ≡ [] → (q : List ℕ) → Nowhere q es → find_value h q r.1.entries ≡ find_value h q t.entries
    pub moved :
        m ≡ []
        → (q : List ℕ) → AtMostOnce q es
        → find_value h q t.entries ≡ none
        → find_value h q r.1.entries ≡ find_value h q es

  -- after an occupied entry that holds the key, no other does
  AtMostOnce-tail-Nowhere :
      (q : List ℕ) (e : Entry) (es : List Entry)
      → AtMostOnce q (e ∷ es)
      → matches h q e ≡ true
      → Nowhere q es
  AtMostOnce-tail-Nowhere q e es once m i low = elim (Bool-cases (matches h q (at es i))) [
    | inr none_there ↦ none_there
    | inl m' ↦ absurd (omega (arith, once 0 (suc i) (omega arith) (omega arith) m m'))
  ]

  AtMostOnce-tail :
      (q : List ℕ) (e : Entry) (es : List Entry) → AtMostOnce q (e ∷ es) → AtMostOnce q es
  AtMostOnce-tail q e es once i j li lj mi mj =
      omega (arith, once (suc i) (suc j) (omega arith) (omega arith) mi mj)

  -- a step over one entry, which reads as `v` to the keys that it matches, and the loop after it
  Reinserted-cons :
      (e : Entry) (es : List Entry) (t t' : HashTable) (m m' : List Bool)
      (r : Bool × HashTable × List Bool)
      → t'.size ≡ t.size
      → t'.count + tally es ≤ t.count + tally (e ∷ es)
      → (m ≡ [] → m' ≡ [])
      → (m ≡ []
          → (q : List ℕ) → matches h q e ≡ false
          → find_value h q t'.entries ≡ find_value h q t.entries)
      → (m ≡ []
          → (q : List ℕ) → matches h q e ≡ true
          → find_value h q t.entries ≡ none
          → find_value h q t'.entries ≡ e.value)
      → Reinserted es t' m' r
      → Reinserted (e ∷ es) t m r
  unfolding find_value
  Reinserted-cons e es t t' m m' r size count mem other same rest = record {
    ok = rest.ok;
    valid = rest.valid;
    same_size = rest.same_size ∙ size;
    grows = omega (arith, rest.grows, count);
    memory = λ p. rest.memory (mem p);
    untouched = λ p q nowhere.
        rest.untouched (mem p) q (λ i low. nowhere (suc i) (omega arith))
        ∙ other p q (nowhere 0 (omega arith));
    moved = λ p q once fresh. elim (Bool-cases (matches h q e)) [
      | inl m ↦
          rw m (rest.untouched (mem p) q (AtMostOnce-tail-Nowhere q e es once m) ∙ same p q m fresh)
      | inr n ↦ rw n (rest.moved (mem p) q (AtMostOnce-tail q e es once) (other p q n ∙ fresh))
    ];
  }

module _ (h : Hashing) (laws : IsHashing h) where
  -- an insertion that need not grow the table
  insert-store :
      (t : HashTable) (key value : List ℕ) (m : List Bool)
      → t.size ≤ last_prime
      → 4 * (t.count + 1) ≤ 3 * t.size
      → insert h 0 t key (some value) m ≡ store h t key value m
  unfolding insert is_heavy
  insert-store t key value m small room =
      let same : add32 t.count 1 ≡ t.count + 1 = omega arith in
      let light : is_heavy t ≡ false = ground (arith, same) in rw light

  insert-null :
      (t : HashTable) (e : Entry) (m : List Bool)
      → e.value ≡ none
      → insert h 0 t e.key e.value m ≡ some (false, t, m)
  unfolding insert
  insert-null t e m null = ap (λ v. insert h 0 t e.key v m) null

  room_cons :
      (e : Entry) (es : List Entry) (t : HashTable)
      → is_occupied e ≡ true
      → 4 * (t.count + tally (e ∷ es)) ≤ 3 * t.size
      → 4 * (t.count + 1 + tally es) ≤ 3 * t.size
  unfolding tally
  room_cons e es t full room =
      let all : 4 * (t.count + (bit (is_occupied e) + tally es)) ≤ 3 * t.size = room in
      omega (arith, rw full at all)

  -- the keys that an occupied entry holds are those equal to its own
  matches-key : (e : Entry) (q : List ℕ) → is_occupied e ≡ true → matches h q e ≡ equal h e.key q
  unfolding matches same_key equal
  matches-key e q full = rw full

  reinsert-occupied :
      (ins : Insertion h) (e : Entry) (es : List Entry) (t : HashTable) (m : List Bool)
      (s : Bool × HashTable × List Bool)
      → is_occupied e ≡ true
      → ins t e.key e.value m ≡ some s
      → reinsert h ins (e ∷ es) t m ≡ reinsert h ins es s.1 s.2
  unfolding reinsert
  reinsert-occupied ins e es t m s full step = rw (full, reinsert, step, ◌>>=◌)

  reinsert-free :
      (ins : Insertion h) (e : Entry) (es : List Entry) (t : HashTable) (m : List Bool)
      → is_occupied e ≡ false
      → reinsert h ins (e ∷ es) t m ≡ reinsert h ins es t m
  unfolding reinsert
  reinsert-free ins e es t m free = rw (free, reinsert)

  abbrev pub Reinserts : List Entry → HashTable → List Bool → Type 0
  Reinserts es t m =
      (r : Bool × HashTable × List Bool) × (reinsert h (insert h 0) es t m ≡ some r)
      × Reinserted h es t m r

  -- Where the new table has room for all the entries, the loop of `ht_resize` never grows it again.
  pub reinsert-Reinserted :
      (es : List Entry) (t : HashTable) (m : List Bool)
      → IsValid h t
      → 4 * (t.count + tally es) ≤ 3 * t.size
      → Reinserts es t m
  unfolding reinsert tally find_value
  reinsert-Reinserted [] t m valid room = (
    (true, t, m),
    refl,
    record {
      ok = refl;
      valid = valid;
      same_size = refl;
      grows = omega arith;
      memory = λ p. p;
      untouched = λ p q n. refl;
      moved = λ p q once fresh. fresh;
    },
  )
  reinsert-Reinserted (e ∷ es) t m valid room = elim (Bool-cases (is_occupied e)) [
    | inr free ↦
        let room' : 4 * (t.count + tally es) ≤ 3 * t.size = omega arith in
        let (r, run, rest) = reinsert-Reinserted es t m valid room' in
        (
          r,
          reinsert-free (insert h 0) e es t m free ∙ run,
          Reinserted-cons h e es t t m m r refl (omega arith) (λ p. p) (λ p q n. refl)
              (λ p q n. cc (n, matches-free h q e free)) rest,
        )
    | inl full ↦ elim (Option-cases e.value) [
      | inl null ↦
          let one = room_cons e es t full room in
          let (r, run, rest) = reinsert-Reinserted es t m valid (omega arith) in
          (
            r,
            reinsert-occupied (insert h 0) e es t m (false, t, m) full (insert-null t e m null)
                ∙ run,
            Reinserted-cons h e es t t m m r refl (omega arith) (λ p. p) (λ p q n. refl)
                (λ p q n fresh. fresh ∙ sym null) rest,
          )
      | inr (v, is) ↦
          let one = room_cons e es t full room in
          let (s, step, stored) = store-Stored h laws t valid e.key v m (omega arith) in
          let (r, run, rest) =
            reinsert-Reinserted es s.1 s.2 stored.valid
              (omega (arith, stored.grows, stored.same_size)) in
          let full_bit : bit (is_occupied e) ≡ 1 = ap bit full in
          let inserted : insert h 0 t e.key e.value m ≡ some s =
            ap (λ x. insert h 0 t e.key x m) is
            ∙ insert-store t e.key v m valid.small (omega arith)
            ∙ step in
          (
            r,
            reinsert-occupied (insert h 0) e es t m s full inserted ∙ run,
            Reinserted-cons h e es t s.1 m s.2 r stored.same_size
                (omega (arith, full_bit, stored.grows)) (λ p. (stored.done p).1)
                (λ p q n. (stored.done p).2 q ∙ rw (sym (matches-key e q full) ∙ n))
                (λ p q y fresh. (stored.done p).2 q ∙ rw (sym (matches-key e q full) ∙ y) (sym is))
                rest,
          )
    ]
  ]
