-- ===== src/Spinlock/Exclusion.antt =====
-- spinlock.c: the spin lock and the reader-writer lock exclude what they promise to exclude.
use self_mini_os.Common.{
  ℕ, suc, ◌+◌, ◌-◌, ◌≤◌, ◌<◌, ◌≡◌, refl, sym, ◌∙◌, Bool, true, false, ◌&&◌, not, some, List, [],
  ◌∷◌, ◌==◌, if◌then◌else◌, length, length-set, length-replicate, get_elem?, set, replicate, arith,
  u32_mod, add32,
}
use mathlib.Core.Path.{subst}
use self_mini_os.Spinlock.{
  SpinLock, SpinPlace, SpinMove, outside, inside, call, acquire, busy, spin, retry, try_acquire,
  try_busy, release, spin_lock_init, spin_unlock, spin_trylock, exchange, RwSpinLock, RwPlace,
  RwMove, idle, reader, waiter, writer, read, read_busy, read_end, announce, write, write_busy,
  write_end, try_write, try_write_busy, rwspin_lock_init, try_read_lock, read_unlock,
  announce_write, enter_write, write_unlock, try_write_lock, Reach,
}
use self_mini_os.Spinlock.Counts.{
  bit, Reach-invariant, count, count-set, count-get_elem?, count-replicate,
}

abbrev pub is_inside : SpinPlace → Bool
is_inside inside = true
is_inside _ = false

-- the word of the lock counts the threads past it
abbrev SpinInv : SpinLock → List SpinPlace → Type 0
SpinInv l ps = (l.lock ≡ count is_inside ps) × (l.lock ≤ 1)

SpinMove-lock :
    (l l' : SpinLock) (p p' : SpinPlace)
    → SpinMove l p l' p'
    → l.lock ≤ 1
    → bit (is_inside p) ≤ l.lock
    → (l'.lock + bit (is_inside p) ≡ l.lock + bit (is_inside p')) × (l'.lock ≤ 1)
unfolding exchange spin_unlock spin_trylock
SpinMove-lock l l' p p' call low held = omega arith
SpinMove-lock l l' p p' (acquire free) low held = omega arith
SpinMove-lock l l' p p' (busy taken) low held = (ground arith, omega arith)
SpinMove-lock l l' p p' (spin taken) low held = omega arith
SpinMove-lock l l' p p' (retry free) low held = omega arith
SpinMove-lock l l' p p' (try_acquire free) low held = (ground arith, omega arith)
SpinMove-lock l l' p p' (try_busy taken) low held = (ground arith, omega arith)
SpinMove-lock l l' p p' release low held = omega arith

SpinInv-set :
    (l l' : SpinLock) (ps : List SpinPlace) (i : ℕ) (p p' : SpinPlace)
    → get_elem? ps i ≡ some p
    → SpinMove l p l' p'
    → SpinInv l ps
    → SpinInv l' (set ps i p')
SpinInv-set l l' ps i p p' e m inv =
    let held : bit (is_inside p) ≤ l.lock =
      omega (arith, inv.0, count-get_elem? is_inside ps i p e) in
    let (sum, low) = SpinMove-lock l l' p p' m inv.1 held in
    (omega (arith, inv.0, sum, count-set is_inside ps i p p' e), low)

-- Whatever the order in which the threads run, the word of a spin lock is the number of threads past
-- it, and there is never more than one: `spin_lock` and `spin_trylock` exclude one another.
pub spin_lock-exclusive :
    (n : ℕ) (l : SpinLock) (ps : List SpinPlace)
    → Reach SpinMove (spin_lock_init, replicate n outside) (l, ps)
    → (l.lock ≡ count is_inside ps) × (count is_inside ps ≤ 1)
unfolding spin_lock_init
spin_lock-exclusive n l ps r =
    let first : SpinInv (record { lock = 0 }) (replicate n outside) =
      (sym (count-replicate is_inside n outside refl), omega arith) in
    let inv =
      Reach-invariant SpinMove SpinInv SpinInv-set (spin_lock_init, replicate n outside) (l, ps) r
        first in
    (inv.0, omega (arith, inv.0, inv.1))

abbrev pub is_reader : RwPlace → Bool
is_reader reader = true
is_reader _ = false

abbrev pub is_waiter : RwPlace → Bool
is_waiter waiter = true
is_waiter _ = false

abbrev pub is_writer : RwPlace → Bool
is_writer writer = true
is_writer _ = false

-- the words of the lock against the number of readers, waiters and writers
pub record RwCounts (l : RwSpinLock) (readers waiters writers : ℕ) : Type 0 where
  pub reads : l.readers ≡ readers
  pub waits : l.writers ≡ waiters + writers
  pub writes : bit l.writing ≡ writers
  pub alone : l.writing ≡ true → readers ≡ 0

-- a test that writes only where it succeeds
abbrev guarded : Bool → RwSpinLock → RwSpinLock → Bool × RwSpinLock
guarded c a l = if c then (true, a) else (false, l)

try_true :
    (c : Bool) (a l : RwSpinLock) → (guarded c a l).0 ≡ true → (c ≡ true) × ((guarded c a l).1 ≡ a)
try_true true a l e = (refl, refl)
try_true false a l e = cc e

try_false : (c : Bool) (a l : RwSpinLock) → (guarded c a l).0 ≡ false → (guarded c a l).1 ≡ l
try_false true a l e = cc e
try_false false a l e = refl

free_test : (b : Bool) (n : ℕ) → (not b && (n == 0)) ≡ true → (b ≡ false) × (n ≡ 0)
free_test true n e = cc e
free_test false n e = (refl, ground arith)

-- a move of one thread, where the numbers stay below the words' limit
RwMove-counts :
    (l l' : RwSpinLock) (p p' : RwPlace) (r w x r' w' x' : ℕ)
    → RwMove l p l' p'
    → r + w + x < u32_mod - 1
    → r' + bit (is_reader p) ≡ r + bit (is_reader p')
    → w' + bit (is_waiter p) ≡ w + bit (is_waiter p')
    → x' + bit (is_writer p) ≡ x + bit (is_writer p')
    → RwCounts l r w x
    → RwCounts l' r' w' x'
unfolding try_read_lock read_unlock announce_write enter_write write_unlock try_write_lock
RwMove-counts l l' p p' r w x r' w' x' (read ok) few a b c h =
    let new = record l { readers = add32 l.readers 1 } in
    let (test, is) = try_true (not l.writing && (l.writers == 0)) new l ok in
    let (quiet, none_waits) = free_test l.writing l.writers test in
    subst (λ y. RwCounts y r' w' x') (sym is)
      (record {
        reads = omega (arith, h.reads);
        waits = omega (arith, h.waits);
        writes = h.writes ∙ omega (arith, c);
        alone = λ e. cc (e, quiet);
      })
RwMove-counts l l' p p' r w x r' w' x' (read_busy ok) few a b c h =
    let is =
      try_false (not l.writing && (l.writers == 0)) (record l { readers = add32 l.readers 1 }) l
        ok in
    subst (λ y. RwCounts y r' w' x') (sym is)
      (record {
        reads = omega (arith, h.reads);
        waits = omega (arith, h.waits);
        writes = h.writes ∙ omega (arith, c);
        alone = λ e. omega (arith, h.alone e);
      })
RwMove-counts l l' p p' r w x r' w' x' read_end few a b c h = record {
  reads = omega (arith, h.reads);
  waits = omega (arith, h.waits);
  writes = h.writes ∙ omega (arith, c);
  alone = λ e. omega (arith, h.alone e);
}
RwMove-counts l l' p p' r w x r' w' x' announce few a b c h = record {
  reads = omega (arith, h.reads);
  waits = omega (arith, h.waits);
  writes = h.writes ∙ omega (arith, c);
  alone = λ e. omega (arith, h.alone e);
}
RwMove-counts l l' p p' r w x r' w' x' (write ok) few a b c h =
    let new = record l { writing = true } in
    let (test, is) = try_true (not l.writing && (l.readers == 0)) new l ok in
    let (quiet, none_reads) = free_test l.writing l.readers test in
    let before : 0 ≡ x = subst (λ y. bit y ≡ x) quiet h.writes in
    subst (λ y. RwCounts y r' w' x') (sym is)
      (record {
        reads = omega (arith, h.reads);
        waits = omega (arith, h.waits);
        writes = omega (arith, c);
        alone = λ e. omega (arith, h.reads);
      })
RwMove-counts l l' p p' r w x r' w' x' (write_busy ok) few a b c h =
    let is = try_false (not l.writing && (l.readers == 0)) (record l { writing = true }) l ok in
    subst (λ y. RwCounts y r' w' x') (sym is)
      (record {
        reads = omega (arith, h.reads);
        waits = omega (arith, h.waits);
        writes = h.writes ∙ omega (arith, c);
        alone = λ e. omega (arith, h.alone e);
      })
RwMove-counts l l' p p' r w x r' w' x' write_end few a b c h =
    let some_writer : bit l.writing ≡ suc x' = h.writes ∙ omega (arith, c) in
    record {
      reads = omega (arith, h.reads);
      waits = omega (arith, h.waits);
      writes = one_bit l.writing x' some_writer;
      alone = λ e. cc e;
    }
  where
    one_bit : (y : Bool) (n : ℕ) → bit y ≡ suc n → 0 ≡ n
    one_bit true n e = omega arith
    one_bit false n e = omega arith
RwMove-counts l l' p p' r w x r' w' x' (try_write ok) few a b c h =
    let new = record l { writing = true; writers = add32 l.writers 1 } in
    let (test, is) = try_true (not l.writing && (l.readers == 0)) new l ok in
    let (quiet, none_reads) = free_test l.writing l.readers test in
    let before : 0 ≡ x = subst (λ y. bit y ≡ x) quiet h.writes in
    subst (λ y. RwCounts y r' w' x') (sym is)
      (record {
        reads = omega (arith, h.reads);
        waits = omega (arith, h.waits);
        writes = omega (arith, c);
        alone = λ e. omega (arith, h.reads);
      })
RwMove-counts l l' p p' r w x r' w' x' (try_write_busy ok) few a b c h =
    let is =
      try_false (not l.writing && (l.readers == 0))
        (record l { writing = true; writers = add32 l.writers 1 }) l ok in
    subst (λ y. RwCounts y r' w' x') (sym is)
      (record {
        reads = omega (arith, h.reads);
        waits = omega (arith, h.waits);
        writes = h.writes ∙ omega (arith, c);
        alone = λ e. omega (arith, h.alone e);
      })

-- the counters of the lock count the threads at its places
abbrev RwInv : ℕ → RwSpinLock → List RwPlace → Type 0
RwInv n l ps =
    (length ps ≡ n) × RwCounts l (count is_reader ps) (count is_waiter ps) (count is_writer ps)

-- no thread is at two places
places-le :
    (ps : List RwPlace) → count is_reader ps + count is_waiter ps + count is_writer ps ≤ length ps
places-le [] = omega arith
places-le (idle ∷ ps) = omega (arith, places-le ps)
places-le (reader ∷ ps) = omega (arith, places-le ps)
places-le (waiter ∷ ps) = omega (arith, places-le ps)
places-le (writer ∷ ps) = omega (arith, places-le ps)

RwInv-set :
    (n : ℕ)
    → n < u32_mod - 1
    → (l l' : RwSpinLock) (ps : List RwPlace) (i : ℕ) (p p' : RwPlace) → get_elem? ps i ≡ some p
    → RwMove l p l' p'
    → RwInv n l ps
    → RwInv n l' (set ps i p')
RwInv-set n few l l' ps i p p' e m inv = (
  length-set ps i p' ∙ inv.0,
  RwMove-counts l l' p p' (count is_reader ps) (count is_waiter ps) (count is_writer ps)
      (count is_reader (set ps i p')) (count is_waiter (set ps i p'))
      (count is_writer (set ps i p')) m (omega (arith, places-le ps, inv.0))
      (count-set is_reader ps i p p' e) (count-set is_waiter ps i p p' e)
      (count-set is_writer ps i p p' e) inv.1,
)

-- what a reader-writer lock promises of its threads
pub record RwExclusive (l : RwSpinLock) (ps : List RwPlace) : Type 0 where
  pub one_writer : count is_writer ps ≤ 1
  pub no_readers : 0 < count is_writer ps → count is_reader ps ≡ 0
  -- while a writer waits, no thread gets a read lock
  pub preference : 0 < count is_waiter ps → (try_read_lock l).0 ≡ false
  pub counters : RwCounts l (count is_reader ps) (count is_waiter ps) (count is_writer ps)

RwInv-exclusive : (n : ℕ) (l : RwSpinLock) (ps : List RwPlace) → RwInv n l ps → RwExclusive l ps
unfolding try_read_lock
RwInv-exclusive n l ps inv = record {
  one_writer = below l.writing (count is_writer ps) inv.1.writes;
  no_readers = λ h. inv.1.alone (set_bit l.writing (count is_writer ps) inv.1.writes h);
  preference = λ h. blocked l.writing l.writers (omega (arith, inv.1.waits));
  counters = inv.1;
}
  where
    below : (b : Bool) (n : ℕ) → bit b ≡ n → n ≤ 1
    below true n e = omega arith
    below false n e = omega arith

    set_bit : (b : Bool) (n : ℕ) → bit b ≡ n → 0 < n → b ≡ true
    set_bit true n e h = refl
    set_bit false n e h = absurd (omega arith)

    blocked :
        (b : Bool) (m : ℕ)
        → 0 < m
        → (guarded (not b && (m == 0)) (record l { readers = add32 l.readers 1 }) l).0 ≡ false
    blocked true m h = refl
    blocked false m h = let taken : (m == 0) ≡ false = ground arith in rw taken refl

-- For fewer than 2 ^ 32 - 1 threads, whatever the order in which they run: at most one thread has
-- the write lock, none reads while it does, a waiting writer keeps new readers out, and the counters
-- of the lock are the numbers of readers and of waiting and writing threads.
pub rwspin_lock-exclusive :
    (n : ℕ) (l : RwSpinLock) (ps : List RwPlace)
    → n < u32_mod - 1
    → Reach RwMove (rwspin_lock_init, replicate n idle) (l, ps)
    → RwExclusive l ps
unfolding rwspin_lock_init
rwspin_lock-exclusive n l ps few r =
    let none_yet = λ (f : RwPlace → Bool) (e : f idle ≡ false). sym (count-replicate f n idle e) in
    let first : RwInv n (record { readers = 0; writers = 0; writing = false }) (replicate n idle) =
      (
        length-replicate n idle,
        record {
          reads = none_yet is_reader refl;
          waits = omega (arith, none_yet is_waiter refl, none_yet is_writer refl);
          writes = none_yet is_writer refl;
          alone = λ e. cc e;
        },
      ) in
    RwInv-exclusive n l ps (
      Reach-invariant RwMove (RwInv n) (RwInv-set n few) (rwspin_lock_init, replicate n idle)
        (l, ps) r first)
