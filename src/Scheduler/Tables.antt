-- ===== src/Scheduler/Tables.antt =====
-- mini_rtos/src/scheduler.c: the two tables of tasks, one by id and one by name, where memory suffices.
use self_mini_os.Common.{
  ℕ, ◌≡◌, refl, ap, ◌∙◌, inl, inr, Bool, false, Option, none, some, List, [], ◌>>=◌, Bool-cases,
}
use self_mini_os.HashTable.{HashTable, Hashing, get as ht_get}
use self_mini_os.HashTable.Hashes.{ints, hashes_fit}
use self_mini_os.HashTable.View.{find_value}
use self_mini_os.HashTable.Valid.{IsHashing, IsValid, equal}
use self_mini_os.HashTable.Remove.{remove_lem}
use self_mini_os.HashTable.Map.{get_lem}
use self_mini_os.Scheduler.{Scheduler, table_remove, word_bytes}
use self_mini_os.Scheduler.Tasks.{find_task_by_id}

abbrev pub IsTable : Hashing → Option HashTable → Type 0
IsTable h none = Unit {0}
IsTable h (some table) = IsValid h table

-- what a table has at a key
abbrev pub look : Hashing → Option HashTable → List ℕ → Option (List ℕ)
look h none key = none
look h (some table) key = find_value h key table.entries

module _ (h : Hashing) (laws : IsHashing h) where
  pub record Dropped (table : Option HashTable) (key : List ℕ) (table' : Option HashTable)
      : Type 0 where
    pub valid : IsTable h table'
    pub gone : look h table' key ≡ none
    pub others : (q : List ℕ) → equal h key q ≡ false → look h table' q ≡ look h table q

  pub table_remove-Dropped :
      (table : Option HashTable) (key : List ℕ) (m : List Bool)
      → IsTable h table
      → m ≡ []
      → (table' : Option HashTable) × (table_remove h table key m ≡ some (table', []))
        × Dropped table key table'
  unfolding table_remove
  table_remove-Dropped none key m v e =
      (none, rw e refl, record { valid = tt; gone = refl; others = λ q d. refl })
  table_remove-Dropped (some t) key m v e =
      let (r, run, out) = remove_lem h laws t key m v in
      (
        some r.1,
        rw (run, ◌>>=◌, out.rest e) refl,
        elim (Bool-cases r.0) [
          | inl done ↦
              let u = out.done e done in
              record {
                valid = out.valid;
                gone = u key ∙ rw (laws.equal_refl key) refl;
                others = λ q d. u q ∙ rw d refl;
              }
          | inr failed ↦
              let (same, nowhere) = out.failed failed in
              record {
                valid = out.valid;
                gone = ap (λ t'. find_value h key t'.entries) same ∙ nowhere;
                others = λ q d. ap (λ t'. find_value h q t'.entries) same;
              }
        ],
      )

pub find_task_by_id-look :
    (id : ℕ) (s : Scheduler)
    → IsTable ints s.task_id_map
    → find_task_by_id id s ≡ some (look ints s.task_id_map (word_bytes id))
unfolding find_task_by_id
find_task_by_id-look id s v = go s.task_id_map v
  where
    go :
        (table : Option HashTable)
        → IsTable ints table
        → (elim table as (λ x. Option (Option (List ℕ))) [
          | none ↦ some none
          | some t ↦ ht_get ints t (word_bytes id)
        ])
          ≡ some (look ints table (word_bytes id))
    go none v = refl
    go (some t) v = get_lem ints hashes_fit.1 t (word_bytes id) v
