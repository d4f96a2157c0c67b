-- ===== src/HashTable/Resize.antt =====
-- mini_rtos/src/hashtable.c: `ht_resize` moves every entry to the new slots.
use self_mini_os.Common.{
  ◌>>=◌, ℕ, ◌+◌, ◌*◌, ◌≤◌, ◌<◌, ◌≡◌, refl, sym, ap, ◌∙◌, inl, inr, Bool, true, false, some, none,
  List, [], replicate, length-replicate, arith, Bool-cases, if◌then◌else◌, ltb,
}
use self_mini_os.HashTable.{
  blank, Hashing, HashTable, is_occupied, insert, reinsert, resize_with, empty_table, malloc,
}
use self_mini_os.HashTable.Primes.{last_prime, next_prime, next_prime_lem}
use self_mini_os.HashTable.Probe.{at, matches-is_occupied, matches-free}
use self_mini_os.HashTable.View.{tally, tally-blank, at-replicate, find_value, find_value-nowhere}
use self_mini_os.HashTable.Valid.{IsHashing, IsValid, matches-equal, matches_congr}
use self_mini_os.HashTable.Reinsert.{AtMostOnce, reinsert-Reinserted}

module _ (h : Hashing) (laws : IsHashing h) where
  empty_at : (p i : ℕ) → is_occupied (at (empty_table p).entries i) ≡ false
  unfolding is_occupied
  empty_at p i = rw (at-replicate p i)

  pub empty_table-IsValid : (p : ℕ) → 0 < p → p ≤ last_prime → IsValid h (empty_table p)
  empty_table-IsValid p pos small = record {
    placed = record {
      sized = length-replicate p blank;
      positive = pos;
      reached = λ i low o. cc (o, empty_at p i);
      once = λ i j li lj o. cc (o, empty_at p i);
    };
    counted = sym (tally-blank p);
    load = omega arith;
    small = small;
  }

  pub empty_table-none : (p : ℕ) (q : List ℕ) → find_value h q (empty_table p).entries ≡ none
  empty_table-none p q =
      find_value-nowhere h q (replicate p blank)
        (λ i low. matches-free h q (at (replicate p blank) i) (empty_at p i))

  IsPlaced-AtMostOnce : (t : HashTable) → IsValid h t → (q : List ℕ) → AtMostOnce h q t.entries
  IsPlaced-AtMostOnce t valid q i j li lj mi mj =
      let eq = matches-equal h laws q (at t.entries i) mi in
      let same = matches_congr h laws q (at t.entries i).key (at t.entries j) eq in
      valid.placed.once i j (omega (arith, valid.placed.sized)) (omega (arith, valid.placed.sized))
        (matches-is_occupied h q _ mi) (sym same ∙ mj)

  -- what `ht_resize` leaves
  pub record Resized (t : HashTable) (new_size : ℕ) (m : List Bool)
      (r : Bool × HashTable × List Bool) : Type 0 where
    pub valid : IsValid h r.1
    pub fewer : r.1.count ≤ t.count
    pub failed : r.0 ≡ false → r.1 ≡ t
    pub grown : r.0 ≡ true → new_size < r.1.size
    pub done :
        m ≡ []
        → (r.0 ≡ true)
          × (r.2 ≡ [])
          × ((q : List ℕ) → find_value h q r.1.entries ≡ find_value h q t.entries)

  abbrev pub Resizes : HashTable → ℕ → List Bool → Type 0
  Resizes t new_size m =
      (r : Bool × HashTable × List Bool) × (resize_with h (insert h 0) t new_size m ≡ some r)
      × Resized t new_size m r

  resize_with-prime :
      (t : HashTable) (new_size p : ℕ) (m : List Bool)
      → 0 < new_size
      → next_prime new_size ≡ some p
      → resize_with h (insert h 0) t new_size m ≡ (
          if (malloc m).0
          then reinsert h (insert h 0) t.entries (empty_table p) (malloc m).1
          else some (false, t, (malloc m).1))
  unfolding resize_with
  resize_with-prime t new_size p m pos e =
      let test : ltb new_size 1 ≡ false = ground arith in rw (test, e, ◌>>=◌)

  pub resize_with-Resized :
      (t : HashTable) (new_size : ℕ) (m : List Bool)
      → IsValid h t
      → 0 < new_size
      → new_size < last_prime
      → 4 * t.count ≤ 3 * (new_size + 1)
      → Resizes t new_size m
  resize_with-Resized t new_size m valid pos small room =
      let (p, e, next) = next_prime_lem new_size small in
      let open_up = resize_with-prime t new_size p m pos e in
      elim (Bool-cases (malloc m).0) [
        | inr no_memory ↦ (
          (false, t, (malloc m).1),
          open_up ∙ rw no_memory,
          record {
            valid = valid;
            fewer = omega arith;
            failed = λ f. refl;
            grown = λ f. cc f;
            done = λ q. cc (ap (λ x. (malloc x).0) q, no_memory);
          },
        )
        | inl memory ↦
            let fits : 4 * (0 + tally t.entries) ≤ 3 * p =
              omega (arith, room, next.above, valid.counted) in
            let fresh = empty_table-IsValid p (omega (arith, next.above)) next.bound in
            let (r, run, moved) =
              reinsert-Reinserted h laws t.entries (empty_table p) (malloc m).1 fresh fits in
            (
              r,
              open_up ∙ rw memory run,
              record {
                valid = moved.valid;
                fewer = omega (arith, moved.grows, valid.counted);
                failed = λ f. cc (f, moved.ok);
                grown = λ f. omega (arith, moved.same_size, next.above);
                done = λ q.
                    let rest : (malloc m).1 ≡ [] = ap (λ x. (malloc x).1) q in
                    (
                      moved.ok,
                      moved.memory rest,
                      λ k.
                          moved.moved rest k (IsPlaced-AtMostOnce t valid k) (empty_table-none p k),
                    );
              },
            )
      ]
