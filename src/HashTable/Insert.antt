-- ===== src/HashTable/Insert.antt =====
-- mini_rtos/src/hashtable.c: `ht_insert` where the table need not grow.
use self_mini_os.Common.{
  ◌>>=◌, ℕ, ◌+◌, ◌*◌, ◌%◌, ◌≤◌, ◌<◌, ◌≡◌, refl, sym, ap, ◌∙◌, ◌⊎◌, inl, inr, Bool, true, false,
  Option, some, none, List, [], ◌∷◌, length, set, arith, add32,
}
use mathlib.Core.Path.{subst}
use self_mini_os.HashTable.{
  occupied, Entry, Hashing, HashTable, is_occupied, find_slot, store, overwrite, add_entry,
  allocate_and_copy,
}
use self_mini_os.HashTable.Probe.{
  at, get_elem?-at, is_occupied-Filled, matches, matches-is_occupied,
}
use self_mini_os.HashTable.Valid.{
  IsHashing, Reached, IsValid, Located, present, absent, find_slot-Located,
}
use self_mini_os.HashTable.Store.{Updates, overwritten, added}

allocate-cases :
    (bytes : List ℕ) (m : List Bool)
    → ((allocate_and_copy bytes m).0 ≡ none) ⊎ ((allocate_and_copy bytes m).0 ≡ some bytes)
unfolding allocate_and_copy
allocate-cases bytes [] = inr refl
allocate-cases bytes (true ∷ m) = inr refl
allocate-cases bytes (false ∷ m) = inl refl

-- what a call of `ht_insert` leaves that ran in a table of room
pub record Stored (h : Hashing) (t : HashTable) (key value : List ℕ) (m : List Bool)
    (r : Bool × HashTable × List Bool) : Type 0 where
  pub valid : IsValid h r.1
  pub same_size : r.1.size ≡ t.size
  pub grows : r.1.count ≤ t.count + 1
  -- a failure leaves the table as it was
  pub failed : r.0 ≡ false → r.1 ≡ t
  -- and there is none if memory suffices
  pub done : m ≡ [] → (r.0 ≡ true) × (r.2 ≡ []) × Updates h t key (some value) r.1

-- the entry that `add_entry` links, and the table with it
abbrev new_entry : List ℕ → List ℕ → Entry
new_entry key value = record {
  key = key;
  value = some value;
  value_size = length value;
  flags = occupied;
}

abbrev with_entry : HashTable → ℕ → Entry → HashTable
with_entry t slot e = record {
  entries = set t.entries slot e;
  size = t.size;
  count = add32 t.count 1;
}

add_entry-cases :
    (h : Hashing) (t : HashTable) (slot : ℕ) (key value : List ℕ) (m : List Bool)
    → (((add_entry h t slot key value m).0 ≡ false) × ((add_entry h t slot key value m).1 ≡ t))
      ⊎ (((add_entry h t slot key value m).0 ≡ true)
          × ((add_entry h t slot key value m).1 ≡ with_entry t slot (new_entry key value)))
unfolding add_entry allocate_and_copy
add_entry-cases h t slot key value [] = inr (refl, refl)
add_entry-cases h t slot key value (false ∷ m) = inl (refl, refl)
add_entry-cases h t slot key value (true ∷ []) = inr (refl, refl)
add_entry-cases h t slot key value (true ∷ true ∷ m) = inr (refl, refl)
add_entry-cases h t slot key value (true ∷ false ∷ m) = inl (refl, refl)

add_entry-nil :
    (h : Hashing) (t : HashTable) (slot : ℕ) (key value : List ℕ)
    → add_entry h t slot key value [] ≡ (true, with_entry t slot (new_entry key value), [])
unfolding add_entry allocate_and_copy
add_entry-nil h t slot key value = refl

module _ (h : Hashing) (laws : IsHashing h) (t : HashTable) (valid : IsValid h t) where
  new_occupied : (key value : List ℕ) → is_occupied (new_entry key value) ≡ true
  unfolding is_occupied
  new_occupied key value = refl

  module _ (key value : List ℕ) (m : List Bool) (slot : ℕ) (low : slot < t.size) where
    add_entry-Stored :
        is_occupied (at t.entries slot) ≡ false
        → Reached t.entries t.size (h.hash key % t.size) slot
        → ((i : ℕ) → i < t.size → matches h key (at t.entries i) ≡ false)
        → 4 * (t.count + 1) ≤ 3 * t.size
        → Stored h t key value m (add_entry h t slot key value m)
    add_entry-Stored free way nowhere room =
        let (v, u) =
          added h laws t valid key slot low free way nowhere room (new_entry key value)
            (new_occupied key value) refl in
        let after =
          λ (p : m ≡ []). ap (add_entry h t slot key value) p ∙ add_entry-nil h t slot key value in
        elim (add_entry-cases h t slot key value m) [
          | inl (no_room, kept) ↦ record {
            valid = subst (IsValid h) (sym kept) valid;
            same_size = ap (λ x. x.size) kept;
            grows = omega (arith, ap (λ x. x.count) kept);
            failed = λ f. kept;
            done = λ p. cc (after p, no_room);
          }
          | inr (ok, is) ↦ record {
            valid = subst (IsValid h) (sym is) v;
            same_size = ap (λ x. x.size) is;
            grows = omega (arith, ap (λ x. x.count) is);
            failed = λ f. cc (ok, f);
            done =
                λ p. (ok, ap (λ x. x.2) (after p), subst (Updates h t key (some value)) (sym is) u);
          }
        ]

    overwrite-Stored :
        matches h key (at t.entries slot) ≡ true
        → Stored h t key value m (overwrite h t slot (at t.entries slot) value m)
    unfolding overwrite is_occupied
    overwrite-Stored same =
        let e = record (at t.entries slot) {
          value = (allocate_and_copy value m).0;
          value_size = length value;
        } in
        let o : is_occupied e ≡ true = matches-is_occupied h key (at t.entries slot) same in
        let (v, u) =
          overwritten h laws t valid key slot low same e refl (is_occupied-Filled e o) o in
        record {
          valid = v;
          same_size = refl;
          grows = omega arith;
          failed = λ f. cc f;
          done = λ p.
              let copied : allocate_and_copy value m ≡ (some value, []) =
                ap (allocate_and_copy value) p ∙ unfold allocate_and_copy in refl in
              (
                refl,
                ap (λ x. x.1) copied,
                subst (λ x. Updates h t key x (record t { entries = set t.entries slot e }))
                    (ap (λ x. x.0) copied) u,
              );
        }

  Stores : Option (Bool × HashTable × List Bool) → List ℕ → List ℕ → List Bool → Type 0
  Stores o key value m =
      (r : Bool × HashTable × List Bool) × (o ≡ some r) × Stored h t key value m r

  -- `find_slot` ends, and what it finds is used as the code means it.
  pub store-Stored :
      (key value : List ℕ) (m : List Bool)
      → 4 * (t.count + 1) ≤ 3 * t.size
      → (r : Bool × HashTable × List Bool) × (store h t key value m ≡ some r)
        × Stored h t key value m r
  unfolding store Stores
  store-Stored key value m room =
      let (r, e, loc) = find_slot-Located h laws t valid key in go r e loc
    where
      go :
          (r : ℕ × Bool)
          → find_slot h t key ≡ some r
          → Located h t key r
          → Stores (store h t key value m) key value m
      go r e (present {slot} low same) =
          let got = get_elem?-at t.entries slot (omega (arith, valid.placed.sized)) in
          (
            overwrite h t slot (at t.entries slot) value m,
            rw (e, ◌>>=◌, got, ◌>>=◌),
            overwrite-Stored key value m slot low same,
          )
      go r e (absent {slot} low free way nowhere) =
          let got = get_elem?-at t.entries slot (omega (arith, valid.placed.sized)) in
          (
            add_entry h t slot key value m,
            rw (e, ◌>>=◌, got, ◌>>=◌),
            add_entry-Stored key value m slot low free way nowhere room,
          )
