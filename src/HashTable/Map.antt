-- ===== src/HashTable/Map.antt =====
-- mini_rtos/src/hashtable.c: the public operations against the map that a table stands for. A key
-- that the map sends to `none` is one for which `ht_get` returns null.
use self_mini_os.Common.{
  ◌>>=◌, ℕ, ◌+◌, ◌*◌, ◌≤◌, ◌<◌, ◌≡◌, sym, ap, ◌∙◌, inl, inr, Bool, true, false, Option, some, List,
  [], length, arith, Bool-cases, if◌then◌else◌, add32, mul32,
}
use self_mini_os.HashTable.{
  Hashing, HashTable, is_heavy, find_slot, store, insert, resize_with, get,
}
use self_mini_os.HashTable.Primes.{last_prime}
use self_mini_os.HashTable.Probe.{get_elem?-at}
use self_mini_os.HashTable.View.{find_value, find_value-at, find_value-nowhere}
use self_mini_os.HashTable.Valid.{
  equal, IsHashing, IsValid, Located, present, absent, find_slot-Located,
}
use self_mini_os.HashTable.Store.{Updates, present-OnlyAt}
use self_mini_os.HashTable.Insert.{store-Stored}
use self_mini_os.HashTable.Resize.{resize_with-Resized}

module _ (h : Hashing) (laws : IsHashing h) where
  -- In a valid table the loop of `ht_get` ends, and it returns what the map has at the key.
  pub get_lem :
      (t : HashTable) (key : List ℕ) → IsValid h t → get h t key ≡ some (find_value h key t.entries)
  unfolding get
  get_lem t key valid = let (r, e, loc) = find_slot-Located h laws t valid key in go r e loc
    where
      go :
          (r : ℕ × Bool)
          → find_slot h t key ≡ some r
          → Located h t key r
          → get h t key ≡ some (find_value h key t.entries)
      go r e (present {slot} low same) =
          let inside : slot < length t.entries = omega (arith, valid.placed.sized) in
          let only = present-OnlyAt h laws t valid key slot low same in
          rw (e, ◌>>=◌, get_elem?-at t.entries slot inside)
            (ap some (sym (find_value-at h key t.entries slot inside only same)))
      go r e (absent low free way nowhere) =
          rw (e, ◌>>=◌)
            (ap some (
              sym (
                find_value-nowhere h key t.entries
                  (λ i l. nowhere i (omega (arith, valid.placed.sized))))))

  -- the outcome of an insertion or a removal
  pub record Outcome (t : HashTable) (key : List ℕ) (v : Option (List ℕ)) (m : List Bool)
      (r : Bool × HashTable × List Bool) : Type 0 where
    pub valid : IsValid h r.1
    pub done : m ≡ [] → (r.0 ≡ true) × (r.2 ≡ []) × Updates h t key v r.1

  light_room :
      (t : HashTable)
      → t.size ≤ last_prime
      → is_heavy t ≡ false
      → t.count ≤ t.size
      → 4 * (t.count + 1) ≤ 3 * t.size
  unfolding is_heavy
  light_room t small light few =
      let same : add32 t.count 1 ≡ t.count + 1 = omega arith in ground (arith, rw same at light)

  insert-light :
      (t : HashTable) (key value : List ℕ) (m : List Bool)
      → is_heavy t ≡ false
      → insert h 1 t key (some value) m ≡ store h t key value m
  unfolding insert
  insert-light t key value m light = rw (light, insert)

  insert-heavy :
      (t : HashTable) (key value : List ℕ) (m : List Bool) (r : Bool × HashTable × List Bool)
      → is_heavy t ≡ true
      → resize_with h (insert h 0) t (mul32 t.size 2) m ≡ some r
      → insert h 1 t key (some value) m
        ≡ (if r.0 then store h r.1 key value r.2 else some (false, r.1, r.2))
  unfolding insert
  insert-heavy t key value m r heavy e = rw (heavy, insert, e, ◌>>=◌)

  -- On a valid table of less than half the largest size, `ht_insert` ends, however often it grows
  -- the table, and leaves a valid table, whatever `malloc` answers. If memory suffices it returns 0,
  -- the key reads as the new value, and every other key reads as before.
  pub insert-Outcome :
      (t : HashTable) (key value : List ℕ) (m : List Bool)
      → IsValid h t
      → 2 * t.size < last_prime
      → (r : Bool × HashTable × List Bool) × (insert h 1 t key (some value) m ≡ some r)
        × Outcome t key (some value) m r
  insert-Outcome t key value m valid small = elim (Bool-cases (is_heavy t)) [
    | inr light ↦
        let room = light_room t valid.small light (omega (arith, valid.load)) in
        let (r, e, s) = store-Stored h laws t valid key value m room in
        (r, insert-light t key value m light ∙ e, record { valid = s.valid; done = s.done })
    | inl heavy ↦
        let twice : mul32 t.size 2 ≡ 2 * t.size = omega arith in
        let (g, run, grown) =
          resize_with-Resized h laws t (mul32 t.size 2) m valid
            (omega (arith, twice, valid.placed.positive)) (omega (arith, twice))
            (omega (arith, twice, valid.load, valid.placed.positive)) in
        let start = insert-heavy t key value m g heavy run in
        elim (Bool-cases g.0) [
          | inr failed ↦ (
            (false, g.1, g.2),
            start ∙ rw failed,
            record { valid = grown.valid; done = λ p. cc ((grown.done p).0, failed) },
          )
          | inl ok ↦
              let larger = grown.grown ok in
              let (r, e, s) =
                store-Stored h laws g.1 grown.valid key value g.2
                  (omega (arith, twice, larger, grown.fewer, valid.load, valid.placed.positive)) in
              (
                r,
                start ∙ rw ok e,
                record {
                  valid = s.valid;
                  done = λ p.
                      let (fine, rest, same) = grown.done p in
                      let (fine', rest', new) = s.done rest in
                      (
                        fine',
                        rest',
                        λ q. new q ∙ ap (λ x. if equal h key q then some value else x) (same q),
                      );
                },
              )
        ]
  ]
