-- ===== src/HashTable/Walk.antt =====
-- mini_rtos/src/hashtable.c: `ht_create`, `ht_clear` and the iterator.
use self_mini_os.Common.{
  ◌>>=◌, ℕ, zero, suc, ◌+◌, ◌<◌, ◌≡◌, ◌≢◌, refl, sym, ap, ◌∙◌, ◌⊎◌, inl, inr, Bool, true, false,
  Option, some, none, List, [], ◌∷◌, ◌++◌, ◌==◌, length, length-map, length-append, map, drop,
  arith, Bool-cases, if◌then◌else◌, append_assoc,
}
use mathlib.Core.Path.{subst}
use mathlib.Core.Option.{some-injective}
use self_mini_os.HashTable.{
  Entry, Hashing, HashTable, is_occupied, empty_table, default_hash_size, create, malloc,
  clear_entry, clear, next_from, iterator_next,
}
use self_mini_os.HashTable.Primes.{last_prime, next_prime, next_prime_lem}
use self_mini_os.HashTable.Probe.{at, matches-free}
use self_mini_os.HashTable.View.{tally, find_value, find_value-nowhere}
use self_mini_os.HashTable.Valid.{IsHashing, IsValid}
use self_mini_os.HashTable.Resize.{empty_table-IsValid, empty_table-none}

-- every key is without a value
abbrev pub IsEmpty : Hashing → HashTable → Type 0
IsEmpty h t = (q : List ℕ) → find_value h q t.entries ≡ none

-- what `ht_create` returns once it has its size
abbrev created : ℕ → List Bool → Option HashTable × List Bool
created p m =
    if (malloc m).0
    then (if (malloc (malloc m).1).0 then some (empty_table p) else none, (malloc (malloc m).1).1)
    else (none, (malloc m).1)

create-prime :
    (n p : ℕ) (m : List Bool)
    → next_prime (if n == 0 then default_hash_size else n) ≡ some p
    → create n m ≡ some (created p m)
unfolding create
create-prime n p m e = elim (Bool-cases (malloc m).0) [
  | inl ok ↦ rw (ok, e, ◌>>=◌)
  | inr failed ↦ rw failed
]

created-table :
    (p : ℕ) (m : List Bool) (t : HashTable) → (created p m).0 ≡ some t → empty_table p ≡ t
created-table p [] t e = some-injective _ _ e
created-table p (false ∷ m) t e = cc e
created-table p (true ∷ []) t e = some-injective _ _ e
created-table p (true ∷ false ∷ m) t e = cc e
created-table p (true ∷ true ∷ m) t e = some-injective _ _ e

clear_entry-free : (e : Entry) → is_occupied (clear_entry e) ≡ false
unfolding clear_entry is_occupied
clear_entry-free e = ground arith

at-clear : (es : List Entry) (i : ℕ) → is_occupied (at (map clear_entry es) i) ≡ false
unfolding is_occupied
at-clear [] i = refl
at-clear (e ∷ es) zero = clear_entry-free e
at-clear (e ∷ es) (suc i) = at-clear es i

tally-clear : (es : List Entry) → tally (map clear_entry es) ≡ 0
unfolding tally
tally-clear [] = refl
tally-clear (e ∷ es) = rw (clear_entry-free e) (omega (arith, tally-clear es))

module _ (h : Hashing) (laws : IsHashing h) where
  -- `ht_create` ends, and the table that it returns is valid and empty; it returns one if memory
  -- suffices.
  pub create_lem :
      (n : ℕ) (m : List Bool)
      → n < last_prime
      → (r : Option HashTable × List Bool) × (create n m ≡ some r)
        × ((t : HashTable) → r.0 ≡ some t → IsValid h t × IsEmpty h t)
        × (m ≡ [] → r.0 ≢ none)
  create_lem n m small =
      let (p, e, next) = next_prime_lem (if n == 0 then default_hash_size else n) (ground arith) in
      let valid = empty_table-IsValid h laws p (omega (arith, next.above)) next.bound in
      (
        created p m,
        create-prime n p m e,
        λ t is.
            subst (λ x. IsValid h x × IsEmpty h x) (created-table p m t is)
              (valid, empty_table-none h laws p),
        λ q f. cc (ap (λ x. (created p x).0) q, f),
      )

  -- `ht_clear` leaves a valid table with no value at any key; slots of removed entries stay marked.
  pub clear_lem : (t : HashTable) → IsValid h t → IsValid h (clear t) × IsEmpty h (clear t)
  unfolding clear
  clear_lem t valid = (
    record {
      placed = record {
        sized = length-map t.entries clear_entry ∙ valid.placed.sized;
        positive = valid.placed.positive;
        reached = λ i low o. cc (o, at-clear t.entries i);
        once = λ i j li lj o. cc (o, at-clear t.entries i);
      };
      counted = sym (tally-clear t.entries);
      load = omega arith;
      small = valid.small;
    },
    λ q.
        find_value-nowhere h q (map clear_entry t.entries)
          (λ i low. matches-free h q (at (map clear_entry t.entries) i) (at-clear t.entries i)),
  )

-- the occupied entries, in the order of their slots
abbrev pub live : List Entry → List Entry
live [] = []
live (e ∷ es) = if is_occupied e then e ∷ live es else live es

-- what a caller sees that asks `ht_iterator_next` until it returns null
pub visited : ℕ → HashTable → ℕ → List Entry
visited zero t i = []
visited (suc fuel) t i = elim (iterator_next t i).0 [
  | none ↦ []
  | some e ↦ e ∷ visited fuel t (iterator_next t i).1
]

drop-append : (pre es : List Entry) → drop (length pre) (pre ++ es) ≡ es
drop-append [] es = refl
drop-append (e ∷ pre) es = drop-append pre es

-- where the loop of `ht_iterator_next` stops, in the entries `es` behind the first `i`
next_from-cases :
    (es : List Entry) (i : ℕ)
    → (((next_from es i).0 ≡ none) × (live es ≡ []))
      ⊎ ((e : Entry) × (skip : List Entry) × (rest : List Entry) × ((next_from es i).0 ≡ some e)
          × ((next_from es i).1 ≡ i + length skip + 1)
          × (es ≡ skip ++ e ∷ rest)
          × (live es ≡ e ∷ live rest))
unfolding next_from
next_from-cases [] i = inl (refl, refl)
next_from-cases (e ∷ es) i = elim (Bool-cases (is_occupied e)) [
  | inl full ↦ rw full (inr (e, [], es, refl, omega arith, refl, refl))
  | inr free ↦ rw free (elim (next_from-cases es (i + 1)) [
    | inl none_left ↦ inl none_left
    | inr (x, skip, rest, found, at_x, is, lives) ↦
        inr (x, e ∷ skip, rest, found, omega (arith, at_x), ap (λ l. e ∷ l) is, lives)
  ])
]

visited-none :
    (fuel : ℕ) (t : HashTable) (i : ℕ) → (iterator_next t i).0 ≡ none → visited (suc fuel) t i ≡ []
unfolding visited
visited-none fuel t i e = rw (e, visited)

visited-some :
    (fuel : ℕ) (t : HashTable) (i j : ℕ) (x : Entry)
    → (iterator_next t i).0 ≡ some x
    → (iterator_next t i).1 ≡ j
    → visited (suc fuel) t i ≡ x ∷ visited fuel t j
unfolding visited
visited-some fuel t i j x e f = rw (e, f, visited)

iterator_next-append :
    (t : HashTable) (pre es : List Entry)
    → t.entries ≡ pre ++ es
    → iterator_next t (length pre) ≡ next_from es (length pre)
unfolding iterator_next
iterator_next-append t pre es is =
    ap (λ l. next_from l (length pre)) (ap (λ l. drop (length pre) l) is ∙ drop-append pre es)

visited-live :
    (fuel : ℕ) (t : HashTable) (pre es : List Entry)
    → t.entries ≡ pre ++ es
    → length es < fuel
    → visited fuel t (length pre) ≡ live es
visited-live zero t pre es is more = elim more [ ]
visited-live (suc fuel) t pre es is more =
    let step = iterator_next-append t pre es is in
    elim (next_from-cases es (length pre)) [
      | inl (end, empty_now) ↦
          visited-none fuel t (length pre) (ap (λ r. r.0) step ∙ end) ∙ sym empty_now
      | inr (e, skip, rest, found, at_e, split, lives) ↦
          let pre' = pre ++ (skip ++ e ∷ []) in
          let longer : length pre' ≡ length pre + length skip + 1 =
            omega (arith, length-append pre (skip ++ e ∷ []), length-append skip (e ∷ [])) in
          let shorter : length rest < fuel =
            omega (arith, ap length split, length-append skip (e ∷ rest)) in
          let whole : t.entries ≡ pre' ++ rest =
            is ∙ ap (λ l. pre ++ l) split ∙ simp append_assoc in
          visited-some fuel t (length pre) (length pre') e (ap (λ r. r.0) step ∙ found)
            (ap (λ r. r.1) step ∙ at_e ∙ sym longer)
          ∙ ap (λ l. e ∷ l) (visited-live fuel t pre' rest whole shorter)
          ∙ sym lives
    ]

-- Asked from the start until it returns null, `ht_iterator_next` returns each occupied entry once,
-- in the order of the slots.
pub iterator_next_lem : (t : HashTable) → visited (suc (length t.entries)) t 0 ≡ live t.entries
iterator_next_lem t = visited-live (suc (length t.entries)) t [] t.entries refl (omega arith)
