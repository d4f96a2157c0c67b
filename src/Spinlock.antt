-- ===== src/Spinlock.antt =====
-- spinlock.c and spinlock.h: the spin lock, the reader-writer lock and the ticket lock.
-- One step of a thread is one atomic operation: an interlocked call, a read or a write of one word.
-- The memory is sequentially consistent, which `smp_mb` at each end of a critical section stands for.
-- A thread is the place in the code where it is; the threads are a list, and a step names the index
-- of the one that moves. The sections of the reader-writer lock between `spin_lock` and
-- `spin_unlock` of its inner lock are single steps, since that lock excludes all other threads.
pub mod Counts
pub mod Exclusion
pub mod Tickets
mod Tests
use self_mini_os.Common.{
  ℕ, zero, suc, ◌+◌, ◌≤◌, ◌<◌, ◌≡◌, ◌≢◌, Bool, true, false, ◌&&◌, not, Option, none, some, List, [],
  ◌∷◌, ◌++◌, ◌==◌, if◌then◌else◌, length, get_elem?, set, add32, sub32, u32_max, replicate,
}

pub record SpinLock : Type 0 where
  pub lock : ℕ

pub spin_lock_init : SpinLock
spin_lock_init = record { lock = 0 }

-- `InterlockedExchange(&lock->lock, 1)`: the old value, and the lock
pub exchange : SpinLock → ℕ × SpinLock
exchange l = (l.lock, record { lock = 1 })

pub spin_unlock : SpinLock → SpinLock
spin_unlock l = record { lock = 0 }

pub spin_trylock : SpinLock → Bool × SpinLock
unfolding exchange
spin_trylock l = let (old, l') = exchange l in (old == 0, l')

pub spin_is_locked : SpinLock → Bool
spin_is_locked l = not (l.lock == 0)

-- a thread outside, at the exchange of `spin_lock`, in its inner loop, or past the lock
pub data SpinPlace : Type 0 where
  outside exchanging spinning inside : SpinPlace

-- one step of one thread
pub data SpinMove : SpinLock → SpinPlace → SpinLock → SpinPlace → Type 0 where
  call : {l : SpinLock} → SpinMove l outside l exchanging
  -- `if (!InterlockedExchange(&lock->lock, 1))`, and the other branch
  acquire : {l : SpinLock} → (exchange l).0 ≡ 0 → SpinMove l exchanging (exchange l).1 inside
  busy : {l : SpinLock} → (exchange l).0 ≢ 0 → SpinMove l exchanging (exchange l).1 spinning
  -- `while (lock->lock)`, with its end
  spin : {l : SpinLock} → l.lock ≢ 0 → SpinMove l spinning l spinning
  retry : {l : SpinLock} → l.lock ≡ 0 → SpinMove l spinning l exchanging
  try_acquire :
      {l : SpinLock} → (spin_trylock l).0 ≡ true → SpinMove l outside (spin_trylock l).1 inside
  try_busy :
      {l : SpinLock} → (spin_trylock l).0 ≡ false → SpinMove l outside (spin_trylock l).1 outside
  release : {l : SpinLock} → SpinMove l inside (spin_unlock l) outside

-- `rwspinlock_t` without its inner lock
pub record RwSpinLock : Type 0 where
  pub readers : ℕ
  pub writers : ℕ
  pub writing : Bool

pub rwspin_lock_init : RwSpinLock
rwspin_lock_init = record { readers = 0; writers = 0; writing = false }

-- `rwspin_try_read_lock`, which is also one round of the loop of `rwspin_read_lock`
pub try_read_lock : RwSpinLock → Bool × RwSpinLock
try_read_lock l =
    if not l.writing && (l.writers == 0)
    then (true, record l { readers = add32 l.readers 1 })
    else (false, l)

pub read_unlock : RwSpinLock → RwSpinLock
read_unlock l = record l { readers = sub32 l.readers 1 }

-- the first section of `rwspin_write_lock`
pub announce_write : RwSpinLock → RwSpinLock
announce_write l = record l { writers = add32 l.writers 1 }

-- one round of its loop
pub enter_write : RwSpinLock → Bool × RwSpinLock
enter_write l =
    if not l.writing && (l.readers == 0) then (true, record l { writing = true }) else (false, l)

pub write_unlock : RwSpinLock → RwSpinLock
write_unlock l = record l { writing = false; writers = sub32 l.writers 1 }

pub try_write_lock : RwSpinLock → Bool × RwSpinLock
try_write_lock l =
    if not l.writing && (l.readers == 0)
    then (true, record l { writing = true; writers = add32 l.writers 1 })
    else (false, l)

-- a thread with no lock, with a read lock, between its announcement and its write lock, with it
pub data RwPlace : Type 0 where
  idle reader waiter writer : RwPlace

pub data RwMove : RwSpinLock → RwPlace → RwSpinLock → RwPlace → Type 0 where
  read : {l : RwSpinLock} → (try_read_lock l).0 ≡ true → RwMove l idle (try_read_lock l).1 reader
  read_busy :
      {l : RwSpinLock} → (try_read_lock l).0 ≡ false → RwMove l idle (try_read_lock l).1 idle
  read_end : {l : RwSpinLock} → RwMove l reader (read_unlock l) idle
  announce : {l : RwSpinLock} → RwMove l idle (announce_write l) waiter
  write : {l : RwSpinLock} → (enter_write l).0 ≡ true → RwMove l waiter (enter_write l).1 writer
  write_busy :
      {l : RwSpinLock} → (enter_write l).0 ≡ false → RwMove l waiter (enter_write l).1 waiter
  write_end : {l : RwSpinLock} → RwMove l writer (write_unlock l) idle
  try_write :
      {l : RwSpinLock} → (try_write_lock l).0 ≡ true → RwMove l idle (try_write_lock l).1 writer
  try_write_busy :
      {l : RwSpinLock} → (try_write_lock l).0 ≡ false → RwMove l idle (try_write_lock l).1 idle

-- one thread of a list makes a move
pub data Step {L P : Type 0} (Move : L → P → L → P → Type 0)
    : L × List P → L × List P → Type 0 where
  move_at :
      {l l' : L} {p p' : P} {ps : List P} (i : ℕ)
      → get_elem? ps i ≡ some p
      → Move l p l' p'
      → Step Move (l, ps) (l', set ps i p')

-- any number of steps
pub data Reach {L P : Type 0} (Move : L → P → L → P → Type 0)
    : L × List P → L × List P → Type 0 where
  start : {s : L × List P} → Reach Move s s
  more : {s t u : L × List P} → Reach Move s t → Step Move t u → Reach Move s u

-- `raw_spinlock_t`, with the word that only `raw_spin_lock_init` writes
pub record RawSpinLock : Type 0 where
  pub raw_lock : ℕ
  pub owner_cpu : ℕ
  pub next_ticket : ℕ
  pub owner_ticket : ℕ

pub raw_spin_lock_init : RawSpinLock
raw_spin_lock_init = record { raw_lock = 0; owner_cpu = u32_max; next_ticket = 0; owner_ticket = 0 }

-- `InterlockedIncrement(&lock->next_ticket) - 1`: the ticket, and the lock
pub take_ticket : RawSpinLock → ℕ × RawSpinLock
take_ticket l = (l.next_ticket, record l { next_ticket = add32 l.next_ticket 1 })

-- the write of `owner_cpu` behind the loop
pub own : RawSpinLock → ℕ → RawSpinLock
own l cpu = record l { owner_cpu = cpu }

-- the two writes of `raw_spin_unlock`
pub disown : RawSpinLock → RawSpinLock
disown l = record l { owner_cpu = u32_max }

pub hand_over : RawSpinLock → RawSpinLock
hand_over l = record l { owner_ticket = add32 l.owner_ticket 1 }

-- `raw_spin_is_locked` reads two words: `next_ticket` where the lock is `l`, and `owner_ticket` where it
-- is `l'`
pub raw_spin_is_locked : RawSpinLock → RawSpinLock → Bool
raw_spin_is_locked l l' = not (l.next_ticket == l'.owner_ticket)

-- a thread in the loop of `raw_spin_lock`, between the loop and the write of `owner_cpu`, past
-- `raw_spin_lock`, and between the two writes of `raw_spin_unlock`
pub data Stage : Type 0 where
  waiting served owning leaving : Stage

-- a thread from its ticket to the end of its unlock
pub record Customer : Type 0 where
  pub ticket : ℕ
  pub stage : Stage

-- removal of one element
abbrev pub remove {ℓ} : {A : Type ℓ} → List A → ℕ → List A
remove [] i = []
remove (x ∷ xs) zero = xs
remove (x ∷ xs) (suc i) = x ∷ remove xs i

-- the lock and the threads in `raw_spin_lock` or past it, in the order in which they took their
-- tickets; at most `n` threads are there at a time
pub data TicketStep (n : ℕ)
    : RawSpinLock × List Customer → RawSpinLock × List Customer → Type 0 where
  take :
      {l : RawSpinLock} {cs : List Customer}
      → length cs < n
      → TicketStep n
          (l, cs)
          ((take_ticket l).1, cs ++ record { ticket = (take_ticket l).0; stage = waiting } ∷ [])
  -- the test of the loop, in the two cases
  wait :
      {l : RawSpinLock} {cs : List Customer} {c : Customer} (i : ℕ)
      → get_elem? cs i ≡ some c
      → c.stage ≡ waiting
      → l.owner_ticket ≢ c.ticket
      → TicketStep n (l, cs) (l, cs)
  pass :
      {l : RawSpinLock} {cs : List Customer} {c : Customer} (i : ℕ)
      → get_elem? cs i ≡ some c
      → c.stage ≡ waiting
      → l.owner_ticket ≡ c.ticket
      → TicketStep n (l, cs) (l, set cs i (record c { stage = served }))
  enter :
      {l : RawSpinLock} {cs : List Customer} {c : Customer} (i cpu : ℕ)
      → get_elem? cs i ≡ some c
      → c.stage ≡ served
      → TicketStep n (l, cs) (own l cpu, set cs i (record c { stage = owning }))
  unlock :
      {l : RawSpinLock} {cs : List Customer} {c : Customer} (i : ℕ)
      → get_elem? cs i ≡ some c
      → c.stage ≡ owning
      → TicketStep n (l, cs) (disown l, set cs i (record c { stage = leaving }))
  leave :
      {l : RawSpinLock} {cs : List Customer} {c : Customer} (i : ℕ)
      → get_elem? cs i ≡ some c
      → c.stage ≡ leaving
      → TicketStep n (l, cs) (hand_over l, remove cs i)

pub data TicketReach (n : ℕ) : RawSpinLock × List Customer → Type 0 where
  fresh : TicketReach n (raw_spin_lock_init, [])
  then_step :
      {s t : RawSpinLock × List Customer} → TicketReach n s → TicketStep n s t → TicketReach n t
