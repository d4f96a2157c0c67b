-- ===== src/HashTable/Store.antt =====
-- mini_rtos/src/hashtable.c: `ht_insert` without its resizing, and `ht_remove` without it.
use self_mini_os.Common.{
  ℕ, ◌+◌, ◌*◌, ◌%◌, ◌≤◌, ◌<◌, ◌≡◌, sym, ◌∙◌, inl, inr, true, false, Option, none, List, length, set,
  arith, Bool-cases, if◌then◌else◌, add32, sub32,
}
use mathlib.Core.Path.{subst}
use self_mini_os.HashTable.{Entry, Hashing, HashTable, is_occupied, same_key}
use self_mini_os.HashTable.Probe.{
  at, Filled, is_occupied-Filled, matches, matches-is_occupied, matches-free,
}
use self_mini_os.HashTable.View.{
  tally-set, find_value, OnlyAt, find_value-set_self, find_value-set_other,
}
use self_mini_os.HashTable.Valid.{
  equal, IsHashing, Reached, IsPlaced, IsValid, matches-equal, matches_congr,
}
use self_mini_os.HashTable.Writes.{set-IsPlaced}

-- Every key reads as before but those equal to `key`, which read as `v`.
abbrev pub Updates : Hashing → HashTable → List ℕ → Option (List ℕ) → HashTable → Type 0
Updates h t key v t' =
    (q : List ℕ)
    → find_value h q t'.entries ≡ (if equal h key q then v else find_value h q t.entries)

module _ (h : Hashing) (laws : IsHashing h) where
  equal_self : (k : List ℕ) → equal h k k ≡ true
  equal_self k = laws.equal_refl k

  matches_mark : (e : Entry) (q : List ℕ) → is_occupied e ≡ true → matches h q e ≡ equal h e.key q
  unfolding matches same_key equal
  matches_mark e q o = rw o

  matches-false :
      (q k : List ℕ) (e : Entry)
      → equal h k q ≡ true
      → matches h k e ≡ false
      → matches h q e ≡ false
  matches-false q k e s m = matches_congr h laws q k e s ∙ m

  other_key :
      (e : Entry) (k q : List ℕ)
      → equal h e.key k ≡ true
      → equal h k q ≡ false
      → matches h q e ≡ false
  other_key e k q s ne = elim (Bool-cases (matches h q e)) [
    | inr no_match ↦ no_match
    | inl m ↦
        cc (laws.equal_trans k e.key q (laws.equal_symm e.key k s) (matches-equal h laws q e m), ne)
  ]

  module _ (t : HashTable) (valid : IsValid h t) (key : List ℕ) (slot : ℕ)
      (low : slot < t.size) where
    inside : slot < length t.entries
    inside = omega (arith, valid.placed.sized, low)

    -- what a write at the slot of the key does to the map
    set-Updates :
        (e : Entry) (v : Option (List ℕ))
        → OnlyAt h key t.entries slot
        → ((q : List ℕ) → equal h key q ≡ true → (if matches h q e then e.value else none) ≡ v)
        → ((q : List ℕ)
            → equal h key q ≡ false
            → (matches h q (at t.entries slot) ≡ false) × (matches h q e ≡ false))
        → Updates h t key v (record t { entries = set t.entries slot e })
    set-Updates e v only same other q = elim (Bool-cases (equal h key q)) [
      | inl eq ↦ rw eq (
          find_value-set_self h q t.entries slot e inside
            (λ i l ne. matches-false q key (at t.entries i) eq (only i l ne))
          ∙ same q eq)
      | inr ne ↦
          let (before, after) = other q ne in
          rw ne (find_value-set_other h q t.entries slot e before after)
    ]

    -- an entry of the key is the only one
    pub present-OnlyAt : matches h key (at t.entries slot) ≡ true → OnlyAt h key t.entries slot
    present-OnlyAt m i l ne = elim (Bool-cases (matches h key (at t.entries i))) [
      | inr no_match ↦ no_match
      | inl m' ↦
          let eq = matches-equal h laws key (at t.entries slot) m in
          let m2 = matches_congr h laws key (at t.entries slot).key (at t.entries i) eq in
          absurd (
            ne (
              sym (
                valid.placed.once slot i low (omega (arith, valid.placed.sized))
                  (matches-is_occupied h key _ m) (sym m2 ∙ m'))))
    ]

    -- a change of the value or of the mark of the entry of the key
    module _ (m : matches h key (at t.entries slot) ≡ true) (e : Entry)
        (same_key' : e.key ≡ (at t.entries slot).key) (filled : Filled e) where
      old_occupied : is_occupied (at t.entries slot) ≡ true
      old_occupied = matches-is_occupied h key _ m

      key_equal : equal h e.key key ≡ true
      key_equal = subst (λ x. equal h x key ≡ true) (sym same_key') (matches-equal h laws key _ m)

      present-IsPlaced : IsPlaced h (set t.entries slot e) t.size
      present-IsPlaced =
          set-IsPlaced h laws t.entries t.size slot e valid.placed low filled
            (λ o.
              subst (λ x. Reached t.entries t.size (h.hash x % t.size) slot) (sym same_key')
                (valid.placed.reached slot low old_occupied))
            (λ o i l ne.
              matches-false e.key key (at t.entries i) (laws.equal_symm e.key key key_equal)
                (present-OnlyAt m i (omega (arith, valid.placed.sized)) ne))

      -- what the keys that are not equal see of it
      present_other :
          (q : List ℕ)
          → equal h key q ≡ false
          → (matches h q (at t.entries slot) ≡ false) × (matches h q e ≡ false)
      present_other q ne = (
        other_key (at t.entries slot) key q (matches-equal h laws key _ m) ne,
        other_key e key q key_equal ne,
      )

      -- what the equal ones see
      present_same :
          (q : List ℕ) → equal h key q ≡ true → is_occupied e ≡ true → matches h q e ≡ true
      present_same q eq o = matches_mark e q o ∙ laws.equal_trans e.key key q key_equal eq

      pub overwritten :
          is_occupied e ≡ true
          → IsValid h (record t { entries = set t.entries slot e })
            × Updates h t key e.value (record t { entries = set t.entries slot e })
      overwritten o =
          let sum = tally-set t.entries slot e inside in
          let sum' = rw (old_occupied, o) at sum in
          (
            record {
              placed = present-IsPlaced;
              counted = omega (arith, sum', valid.counted);
              load = valid.load;
              small = valid.small;
            },
            set-Updates e e.value (present-OnlyAt m) (λ q eq. rw (present_same q eq o))
                present_other,
          )

      pub erased :
          is_occupied e ≡ false
          → IsValid h
              (record { entries = set t.entries slot e; size = t.size; count = sub32 t.count 1 })
            × Updates h t key none (record t { entries = set t.entries slot e })
            × (sub32 t.count 1 + 1 ≡ t.count)
      erased o =
          let sum = tally-set t.entries slot e inside in
          let sum' = rw (old_occupied, o) at sum in
          (
            record {
              placed = present-IsPlaced;
              counted = omega (arith, sum', valid.counted, valid.load, valid.small);
              load = omega (arith, sum', valid.counted, valid.load, valid.small);
              small = valid.small;
            },
            set-Updates e none (present-OnlyAt m) (λ q eq. rw (matches-free h q e o)) present_other,
            omega (arith, sum', valid.counted, valid.load, valid.small),
          )

    -- a new entry of the key in a free slot on its way
    module _ (free : is_occupied (at t.entries slot) ≡ false)
        (way : Reached t.entries t.size (h.hash key % t.size) slot)
        (nowhere : (i : ℕ) → i < t.size → matches h key (at t.entries i) ≡ false)
        (room : 4 * (t.count + 1) ≤ 3 * t.size) where
      pub added :
          (e : Entry)
          → is_occupied e ≡ true
          → e.key ≡ key
          → IsValid h
              (record { entries = set t.entries slot e; size = t.size; count = add32 t.count 1 })
            × Updates h t key e.value (record t { entries = set t.entries slot e })
      added e o k =
          let sum = tally-set t.entries slot e inside in
          let sum' = rw (free, o) at sum in
          let self : equal h e.key key ≡ true =
            subst (λ x. equal h x key ≡ true) (sym k) (equal_self key) in
          (
            record {
              placed =
                  set-IsPlaced h laws t.entries t.size slot e valid.placed low
                    (is_occupied-Filled e o)
                    (λ p.
                      subst (λ x. Reached t.entries t.size (h.hash x % t.size) slot) (sym k) way)
                    (λ p i l ne.
                      subst (λ x. matches h x (at t.entries i) ≡ false) (sym k) (nowhere i l));
              counted = omega (arith, sum', valid.counted, room, valid.small);
              load = omega (arith, room, valid.small);
              small = valid.small;
            },
            set-Updates e e.value (λ i l ne. nowhere i (omega (arith, valid.placed.sized)))
                (λ q eq. rw (matches_mark e q o ∙ laws.equal_trans e.key key q self eq))
                (λ q ne. (matches-free h q _ free, other_key e key q self ne)),
          )
