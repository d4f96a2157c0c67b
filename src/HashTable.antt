-- ===== src/HashTable.antt =====
-- mini_rtos/src/hashtable.c and mini_rtos/include/hashtable.h: the open-addressing hash table.
-- A key or a value is the list of its bytes, so its size is the length of the list, and `none` is a
-- null value; null tables and keys are refused by every operation and have no model here. The
-- functions `hash_func` and `comp_func` of a table are the parameter `h`. `size_t` is a word of
-- 32 bits. The tests of the load factor on `float` are exact for tables of fewer than 2 ^ 23 slots,
-- and are written on integers. The outcomes of the calls of `malloc` and `calloc` to come are a list,
-- and past its end all succeed. `none` as a result stands for fuel that ran out or a read outside
-- the entries.
mod Primes
mod Ring
pub mod Probe
pub mod View
pub mod Valid
pub mod Writes
pub mod Store
pub mod Insert
pub mod Reinsert
pub mod Resize
pub mod Map
pub mod Remove
pub mod Hashes
pub mod Walk
mod Tests
use self_mini_os.Common.{
  ◌>>=◌, ℕ, zero, suc, ◌+◌, ◌*◌, ◌%◌, ◌/◌, Bool, true, false, ◌&&◌, Option, none, some, List, [],
  ◌∷◌, map, ltb, leb, ◌==◌, if◌then◌else◌, length, get_elem?, set, drop, replicate, add32, sub32,
  mul32,
}
use Primes.{next_prime}

-- `flags`
pub data Mark : Type 0 where
  empty occupied deleted : Mark

-- `hash_entry_t`; the size of the key is that of its copy
pub record Entry : Type 0 where
  pub key : List ℕ
  pub value : Option (List ℕ)
  pub value_size : ℕ
  pub flags : Mark

-- `hash_func_t` and `compare_func_t`
pub record Hashing : Type 0 where
  pub hash : List ℕ → ℕ
  pub compare : List ℕ → List ℕ → Bool

-- `hashtable_t`
pub record HashTable : Type 0 where
  pub entries : List Entry
  pub size : ℕ
  pub count : ℕ

-- the next call of `malloc`
abbrev pub malloc : List Bool → Bool × List Bool
malloc [] = (true, [])
malloc (b ∷ bs) = (b, bs)

pub allocate_and_copy : List ℕ → List Bool → Option (List ℕ) × List Bool
allocate_and_copy bytes m = let (done, m') = malloc m in (if done then some bytes else none, m')

-- an entry of `calloc`
abbrev pub blank : Entry
blank = record { key = []; value = none; value_size = 0; flags = empty }

pub is_occupied : Entry → Bool
is_occupied e = elim e.flags [ occupied ↦ true | _ ↦ false ]

-- `DEFAULT_HASH_SIZE`
abbrev pub default_hash_size : ℕ
default_hash_size = 256

-- the table of `p` empty slots
abbrev pub empty_table : ℕ → HashTable
empty_table p = record { entries = replicate p blank; size = p; count = 0 }

-- `ht_create`; the second result is null if memory runs out
pub create : ℕ → List Bool → Option (Option HashTable × List Bool)
create initial_size m =
    let (table, m1) = malloc m in
    let (entries, m2) = malloc m1 in
    if table
    then next_prime (if initial_size == 0 then default_hash_size else initial_size)
      >>= (λ p. some (if entries then some (empty_table p) else none, m2))
    else some (none, m1)

-- what one round of the loop of `find_slot` does
pub data Visit : Type 0 where
  stop : ℕ → Bool → Visit
  go_on : ℕ → Visit

-- what `load_factor > MAX_LOAD_FACTOR` and `load_factor < MIN_LOAD_FACTOR` test
pub is_heavy : HashTable → Bool
is_heavy t = ltb (3 * t.size) (4 * add32 t.count 1)

pub is_light : HashTable → Bool
is_light t = ltb (4 * t.count) t.size

module _ (h : Hashing) where
  pub same_key : List ℕ → Entry → Bool
  same_key key e = (length e.key == length key) && h.compare e.key key

  -- `gap` is `deleted_slot`, and `n` the size of the table
  pub visit : List ℕ → ℕ → ℕ → ℕ → Entry → Visit
  visit key n index gap e = elim e.flags [
    | empty ↦ stop (if gap == n then index else gap) false
    | deleted ↦ go_on (if gap == n then index else gap)
    | occupied ↦ if same_key key e then stop index true else go_on gap
  ]

  -- the loop of `find_slot`
  pub probe : ℕ → List Entry → ℕ → List ℕ → ℕ → ℕ → ℕ → Option (ℕ × Bool)
  probe zero es n key start index gap = none
  probe (suc fuel) es n key start index gap = elim (get_elem? es index) [
    | none ↦ none
    | some e ↦ elim (visit key n index gap e) [
      | stop slot found ↦ some (slot, found)
      | go_on gap' ↦ elim ((index + 1) % n == start) [
        | true ↦ some (if gap' == n then start else gap', false)
        | false ↦ probe fuel es n key start ((index + 1) % n) gap'
      ]
    ]
  ]

  -- as much fuel as the table has slots
  pub find_slot : HashTable → List ℕ → Option (ℕ × Bool)
  find_slot t key =
      let start = h.hash key % t.size in probe t.size t.entries t.size key start start t.size

  -- `ht_insert` at a key that is there
  pub overwrite : HashTable → ℕ → Entry → List ℕ → List Bool → Bool × HashTable × List Bool
  overwrite t index e value m =
      let (copy, m') = allocate_and_copy value m in
      let e' = record e { value = copy; value_size = length value } in
      (true, record t { entries = set t.entries index e' }, m')

  -- and at one that is not
  pub add_entry : HashTable → ℕ → List ℕ → List ℕ → List Bool → Bool × HashTable × List Bool
  add_entry t index key value m =
      let (key_copy, m1) = allocate_and_copy key m in
      let (value_copy, m2) = allocate_and_copy value m1 in
      elim key_copy [
        | none ↦ (false, t, m2)
        | some k ↦ elim value_copy [
          | none ↦ (false, t, m2)
          | some v ↦ (
            true,
            record t {
              entries =
                  set t.entries index (record {
                    key = k;
                    value = some v;
                    value_size = length value;
                    flags = occupied;
                  });
              count = add32 t.count 1;
            },
            m2,
          )
        ]
      ]

  -- `ht_insert` after its test of the load factor
  pub store : HashTable → List ℕ → List ℕ → List Bool → Option (Bool × HashTable × List Bool)
  unfolding overwrite add_entry
  store t key value m = find_slot t key >>= (λ r.
      get_elem? t.entries r.0
      >>= (λ e. some (if r.1 then overwrite t r.0 e value m else add_entry t r.0 key value m)))

  -- an insertion, as `ht_resize` makes them
  abbrev pub Insertion : Type 0
  Insertion =
      HashTable → List ℕ → Option (List ℕ) → List Bool → Option (Bool × HashTable × List Bool)

  -- the loop of `ht_resize` over the old entries
  pub reinsert :
      Insertion → List Entry → HashTable → List Bool → Option (Bool × HashTable × List Bool)
  reinsert ins [] t m = some (true, t, m)
  reinsert ins (e ∷ es) t m = elim (is_occupied e) [
    | true ↦ ins t e.key e.value m >>= (λ r. reinsert ins es r.1 r.2)
    | false ↦ reinsert ins es t m
  ]

  pub resize_with : Insertion → HashTable → ℕ → List Bool → Option (Bool × HashTable × List Bool)
  resize_with ins t new_size m =
      if ltb new_size 1
      then some (false, t, m)
      else next_prime new_size >>= (λ p.
        let (done, m') = malloc m in
        if done then reinsert ins t.entries (empty_table p) m' else some (false, t, m'))

  -- `ht_insert`; the first argument bounds how deep insertions and resizings nest
  pub insert : ℕ → Insertion
  insert depth t key none m = some (false, t, m)
  insert zero t key (some value) m = if is_heavy t then none else store t key value m
  insert (suc depth) t key (some value) m = elim (is_heavy t) [
    | true ↦
        resize_with (insert depth) t (mul32 t.size 2) m
        >>= (λ r. if r.0 then store r.1 key value r.2 else some (false, r.1, r.2))
    | false ↦ store t key value m
  ]

  -- `ht_resize`
  pub resize : HashTable → ℕ → List Bool → Option (Bool × HashTable × List Bool)
  resize t new_size m = resize_with (insert 0) t new_size m

  -- the slot of a removed entry
  pub erase : HashTable → ℕ → Entry → HashTable
  erase t index e = record t {
    entries = set t.entries index (record e { flags = deleted });
    count = sub32 t.count 1;
  }

  -- `ht_remove`
  pub remove : HashTable → List ℕ → List Bool → Option (Bool × HashTable × List Bool)
  unfolding erase
  remove t key m = find_slot t key >>= (λ r.
      if r.1
      then get_elem? t.entries r.0 >>= (λ e.
        let t' = erase t r.0 e in
        if is_light t' && ltb default_hash_size t'.size
        then resize t' (t'.size / 2) m >>= (λ s. some (true, s.1, s.2))
        else some (true, t', m))
      else some (false, t, m))

  -- `ht_get`: null if the key is not there
  pub get : HashTable → List ℕ → Option (Option (List ℕ))
  get t key =
      find_slot t key
      >>= (λ r. if r.1 then get_elem? t.entries r.0 >>= (λ e. some e.value) else some none)

  -- `ht_contains`
  pub contains : HashTable → List ℕ → Option Bool
  contains t key = find_slot t key >>= (λ r. some r.1)

-- `ht_clear`
pub clear_entry : Entry → Entry
clear_entry e = if is_occupied e then record e { flags = empty } else e

pub clear : HashTable → HashTable
clear t = record t { entries = map clear_entry t.entries; count = 0 }

-- the loop of `ht_iterator_next` over the entries from `current_index` on: the entry, and the index
pub next_from : List Entry → ℕ → Option Entry × ℕ
next_from [] i = (none, i)
next_from (e ∷ es) i = if is_occupied e then (some e, i + 1) else next_from es (i + 1)

-- `ht_iterator_next` at `current_index`
pub iterator_next : HashTable → ℕ → Option Entry × ℕ
unfolding next_from
iterator_next t current_index = next_from (drop current_index t.entries) current_index
