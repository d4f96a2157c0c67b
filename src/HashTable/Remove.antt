-- ===== src/HashTable/Remove.antt =====
-- mini_rtos/src/hashtable.c: `ht_remove` against the map that a table stands for.
use self_mini_os.Common.{
  ◌>>=◌, ℕ, ◌*◌, ◌/◌, ◌<◌, ◌≡◌, refl, ◌∙◌, inl, inr, Bool, true, false, ◌&&◌, some, none, List, [],
  length, arith, Bool-cases, if◌then◌else◌, ltb, ltb→lt,
}
use self_mini_os.HashTable.{
  deleted, Entry, Hashing, HashTable, is_occupied, is_light, default_hash_size, find_slot, resize,
  erase, remove,
}
use self_mini_os.HashTable.Probe.{at, get_elem?-at, Filled, matches}
use self_mini_os.HashTable.View.{find_value, find_value-nowhere}
use self_mini_os.HashTable.Valid.{IsHashing, IsValid, Located, present, absent, find_slot-Located}
use self_mini_os.HashTable.Store.{Updates, erased}
use self_mini_os.HashTable.Resize.{Resizes, resize_with-Resized}

module _ (h : Hashing) (laws : IsHashing h) where
  -- what `ht_remove` leaves: it fails exactly at a key that is not there
  pub record Removed (t : HashTable) (key : List ℕ) (m : List Bool)
      (r : Bool × HashTable × List Bool) : Type 0 where
    pub valid : IsValid h r.1
    pub failed : r.0 ≡ false → (r.1 ≡ t) × (find_value h key t.entries ≡ none)
    pub done : m ≡ [] → r.0 ≡ true → Updates h t key none r.1
    pub rest : m ≡ [] → r.2 ≡ []

  Removes : HashTable → List ℕ → List Bool → Type 0
  Removes t key m =
      (r : Bool × HashTable × List Bool) × (remove h t key m ≡ some r) × Removed t key m r

  -- the resizing at the end of `ht_remove`
  shrink :
      (t : HashTable) (m : List Bool)
      → IsValid h t
      → (is_light t && ltb default_hash_size t.size) ≡ true
      → Resizes h laws t (t.size / 2) m
  unfolding is_light
  shrink t m valid light =
      let (few, large) = both (ltb (4 * t.count) t.size) (ltb default_hash_size t.size) light in
      let few' : 4 * t.count < t.size = ltb→lt _ _ few in
      let large' : default_hash_size < t.size = ltb→lt _ _ large in
      resize_with-Resized h laws t (t.size / 2) m valid (omega arith) (omega (arith, valid.small))
        (omega arith)
    where
      both : (a b : Bool) → (a && b) ≡ true → (a ≡ true) × (b ≡ true)
      both true b e = (refl, e)
      both false b e = cc e

  -- `ht_remove` once the entry is found and marked
  remove-present :
      (t : HashTable) (key : List ℕ) (m : List Bool) (slot : ℕ) (e : Entry)
      → find_slot h t key ≡ some (slot, true)
      → slot < length t.entries
      → at t.entries slot ≡ e
      → remove h t key m ≡ (
          if is_light (erase h t slot e) && ltb default_hash_size (erase h t slot e).size
          then resize h (erase h t slot e) ((erase h t slot e).size / 2) m
            >>= (λ s. some (true, s.1, s.2))
          else some (true, erase h t slot e, m))
  unfolding remove
  remove-present t key m slot e found low is =
      rw (found, ◌>>=◌, get_elem?-at t.entries slot low, is)

  remove-absent :
      (t : HashTable) (key : List ℕ) (m : List Bool) (slot : ℕ)
      → find_slot h t key ≡ some (slot, false)
      → remove h t key m ≡ some (false, t, m)
  unfolding remove
  remove-absent t key m slot missing = rw (missing, ◌>>=◌)

  erase-Removed :
      (t : HashTable) (key : List ℕ) (m : List Bool) (slot : ℕ)
      → IsValid h t
      → slot < t.size
      → matches h key (at t.entries slot) ≡ true
      → IsValid h (erase h t slot (at t.entries slot))
        × Updates h t key none (erase h t slot (at t.entries slot))
  unfolding erase Filled is_occupied
  erase-Removed t key m slot valid low same =
      let e = record (at t.entries slot) { flags = deleted } in
      let (v, u, count) = erased h laws t valid key slot low same e refl (λ f. cc f) refl in (v, u)

  -- `ht_remove` on a valid table ends and leaves a valid table, whatever `malloc` answers. It
  -- returns -1, and changes nothing, only if the map has no value at the key; if it returns 0 and
  -- memory suffices, the map has none there afterwards, and all other keys read as before.
  pub remove_lem :
      (t : HashTable) (key : List ℕ) (m : List Bool)
      → IsValid h t
      → (r : Bool × HashTable × List Bool) × (remove h t key m ≡ some r) × Removed t key m r
  unfolding Removes
  remove_lem t key m valid = let (r, e, loc) = find_slot-Located h laws t valid key in go r e loc
    where
      go : (r : ℕ × Bool) → find_slot h t key ≡ some r → Located h t key r → Removes t key m
      go r found (absent {slot} low free way nowhere) = (
        (false, t, m),
        remove-absent t key m slot found,
        record {
          valid = valid;
          failed = λ f. (
            refl,
            find_value-nowhere h key t.entries
                (λ i l. nowhere i (omega (arith, valid.placed.sized))),
          );
          done = λ p f. cc f;
          rest = λ p. p;
        },
      )
      go r found (present {slot} low same) =
          let inside : slot < length t.entries = omega (arith, valid.placed.sized) in
          let start = remove-present t key m slot (at t.entries slot) found inside refl in
          let t' = erase h t slot (at t.entries slot) in
          let (v, u) = erase-Removed t key m slot valid low same in
          elim (Bool-cases (is_light t' && ltb default_hash_size t'.size)) [
            | inr roomy ↦ (
              (true, t', m),
              start ∙ rw roomy,
              record { valid = v; failed = λ f. cc f; done = λ p f. u; rest = λ p. p },
            )
            | inl sparse ↦
                let (s, run, small) = shrink t' m v sparse in
                let run' : resize h t' (t'.size / 2) m ≡ some s = unfold resize in run in
                (
                  (true, s.1, s.2),
                  start ∙ rw (sparse, run', ◌>>=◌),
                  record {
                    valid = small.valid;
                    failed = λ f. cc f;
                    done = λ p f q. (small.done p).2 q ∙ u q;
                    rest = λ p. (small.done p).1;
                  },
                )
          ]
