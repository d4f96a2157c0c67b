-- ===== src/Spinlock/Tests.antt =====
-- The locks of spinlock.c, each in a short run of two threads.
use self_mini_os.Common.{refl, false, List, [], ◌∷◌, replicate, arith}
use self_mini_os.Spinlock.{
  SpinMove, outside, inside, spin_lock_init, call, acquire, try_busy, exchange, spin_trylock,
  RwSpinLock, RwMove, idle, reader, waiter, rwspin_lock_init, read, announce, try_read_lock,
  announce_write, move_at, Reach, start, more, RawSpinLock, raw_spin_lock_init, take_ticket, own,
  Customer, TicketReach, fresh, then_step, take, pass, enter, owning, waiting,
}
use self_mini_os.Spinlock.Exclusion.{RwExclusive, rwspin_lock-exclusive}
use self_mini_os.Spinlock.Tickets.{IsFair, raw_spin_lock-IsFair}

-- the first thread takes the lock, and the `spin_trylock` of the second fails
spin_run :
    Reach SpinMove
      (spin_lock_init, replicate 2 outside)
      (record { lock = 1 }, inside ∷ outside ∷ [])
unfolding spin_lock_init exchange spin_trylock
spin_run =
    more (more (more start (move_at 0 refl call)) (move_at 0 refl (acquire refl)))
      (move_at 1 refl (try_busy refl))

abbrev read_and_wait : RwSpinLock
read_and_wait = record { readers = 1; writers = 1; writing = false }

-- one thread reads, and the other waits for its write lock
rw_run : Reach RwMove (rwspin_lock_init, replicate 2 idle) (read_and_wait, reader ∷ waiter ∷ [])
unfolding rwspin_lock_init try_read_lock announce_write
rw_run = more (more start (move_at 0 refl (read refl))) (move_at 1 refl announce)

rwspin_lock-exclusive_example : RwExclusive read_and_wait (reader ∷ waiter ∷ [])
rwspin_lock-exclusive_example =
    rwspin_lock-exclusive 2 read_and_wait (reader ∷ waiter ∷ []) (omega arith) rw_run

abbrev served : RawSpinLock
served = record { raw_lock = 0; owner_cpu = 3; next_ticket = 2; owner_ticket = 0 }

abbrev customers : List Customer
customers = record { ticket = 0; stage = owning } ∷ record { ticket = 1; stage = waiting } ∷ []

-- two threads take tickets, and the first enters
ticket_run : TicketReach 5 (served, customers)
unfolding raw_spin_lock_init take_ticket own
ticket_run =
    then_step
      (then_step (then_step (then_step fresh (take (omega arith))) (take (omega arith)))
        (pass 0 refl refl refl))
      (enter 0 3 refl refl)

raw_spin_lock-IsFair_example : IsFair served customers
raw_spin_lock-IsFair_example = raw_spin_lock-IsFair 5 served customers (omega arith) ticket_run
