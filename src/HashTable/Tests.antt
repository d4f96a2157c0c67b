-- ===== src/HashTable/Tests.antt =====
-- The hash table of mini_rtos/src/hashtable.c on tables of a few slots, with keys hashed by
-- `ht_hash_bytes`.
use self_mini_os.Common.{ℕ, ◌*◌, ◌<◌, ◌≡◌, refl, sym, ◌∙◌, Bool, true, some, List, [], ◌∷◌, arith}
use mathlib.Core.Path.{subst}
use mathlib.Core.Option.{some-injective}
use self_mini_os.HashTable.{
  occupied, Entry, blank, HashTable, empty_table, find_slot, probe, visit, same_key, is_occupied,
  is_heavy, store, overwrite, add_entry, allocate_and_copy, reinsert, resize_with, insert, remove,
  get,
}
use self_mini_os.HashTable.Primes.{
  next_prime, search_prime, is_prime, trial, last_prime, IsNextPrime, next_prime_lem,
}
use self_mini_os.HashTable.Hashes.{
  fnv, hash_bytes, compare_bytes, same_bytes, bytes, bytes-IsHashing,
}
use self_mini_os.HashTable.Valid.{IsValid}
use self_mini_os.HashTable.View.{find_value}
use self_mini_os.HashTable.Resize.{empty_table-IsValid}
use self_mini_os.HashTable.Map.{Outcome, get_lem, insert-Outcome}
use self_mini_os.HashTable.Remove.{Removed, remove_lem}
use self_mini_os.HashTable.Walk.{visited, live, iterator_next_lem}

abbrev slot : ℕ → ℕ → Entry
slot k v = record { key = k ∷ []; value = some (v ∷ []); value_size = 1; flags = occupied }

-- one entry in two slots
abbrev one : HashTable
one = record { entries = slot 1 7 ∷ blank ∷ []; size = 2; count = 1 }

one_runs : insert bytes 1 (empty_table 2) (1 ∷ []) (some (7 ∷ [])) [] ≡ some (true, one, [])
unfolding insert is_heavy store find_slot probe visit same_key is_occupied fnv hash_bytes
    compare_bytes same_bytes allocate_and_copy add_entry overwrite
one_runs = refl

-- a second entry makes the table grow to five slots
grows :
    insert bytes 1 one (2 ∷ []) (some (9 ∷ [])) []
    ≡ some (
      true,
      record { entries = blank ∷ blank ∷ slot 1 7 ∷ blank ∷ slot 2 9 ∷ []; size = 5; count = 2 },
      [],
    )
unfolding insert is_heavy store find_slot probe visit same_key is_occupied fnv hash_bytes
    compare_bytes same_bytes allocate_and_copy add_entry overwrite resize_with reinsert next_prime
    search_prime is_prime trial
grows = refl

after :
    (t s : HashTable) (k v : List ℕ)
    → IsValid bytes t
    → 2 * t.size < last_prime
    → insert bytes 1 t k (some v) [] ≡ some (true, s, [])
    → IsValid bytes s
after t s k v valid small run =
    let (r, e, out) = insert-Outcome bytes bytes-IsHashing t k v [] valid small in
    subst (λ x. IsValid bytes x.1) (some-injective _ _ (sym e ∙ run)) out.valid

one-IsValid : IsValid bytes one
one-IsValid =
    after (empty_table 2) one (1 ∷ []) (7 ∷ [])
      (empty_table-IsValid bytes bytes-IsHashing 2 (omega arith) (omega arith)) (omega arith)
      one_runs

insert-Outcome_example :
    (r : Bool × HashTable × List Bool) × (insert bytes 1 one (2 ∷ []) (some (9 ∷ [])) [] ≡ some r)
    × Outcome bytes bytes-IsHashing one (2 ∷ []) (some (9 ∷ [])) [] r
insert-Outcome_example =
    insert-Outcome bytes bytes-IsHashing one (2 ∷ []) (9 ∷ []) [] one-IsValid (omega arith)

get_lem_example : get bytes one (1 ∷ []) ≡ some (find_value bytes (1 ∷ []) one.entries)
get_lem_example = get_lem bytes bytes-IsHashing one (1 ∷ []) one-IsValid

remove_lem_example :
    (r : Bool × HashTable × List Bool) × (remove bytes one (1 ∷ []) [] ≡ some r)
    × Removed bytes bytes-IsHashing one (1 ∷ []) [] r
remove_lem_example = remove_lem bytes bytes-IsHashing one (1 ∷ []) [] one-IsValid

iterator_next_lem_example : visited 3 one 0 ≡ live one.entries
iterator_next_lem_example = iterator_next_lem one

next_prime_lem_example : (p : ℕ) × (next_prime 256 ≡ some p) × IsNextPrime 256 p
next_prime_lem_example = next_prime_lem 256 (omega arith)

-- the size that `ht_create` takes for `DEFAULT_HASH_SIZE`
next_prime_runs : next_prime 256 ≡ some 257
unfolding next_prime search_prime is_prime trial
next_prime_runs = refl
