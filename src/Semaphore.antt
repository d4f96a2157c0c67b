-- ===== src/Semaphore.antt =====
-- The counting semaphores that mini_rtos/src/multiqueue.c calls (semaphore_create, semaphore_wait,
-- semaphore_post, semaphore_reset). No file of the repository defines them, so they are an
-- interface: the operations, the count that a semaphore stands for, and what each call does to it.
use self_mini_os.Common.{ℕ, ◌+◌, ◌<◌, ◌≡◌, Bool, true, false}

pub record Semaphores (Sem : Type 0) : Type 0 where
  pub create : ℕ → Sem
  -- the second argument is the timeout in milliseconds; the result is whether a unit was taken
  pub wait : Sem → ℕ → Bool × Sem
  pub post : Sem → Sem
  pub reset : Sem → ℕ → Sem
  pub value : Sem → ℕ
  pub value-create : (n : ℕ) → value (create n) ≡ n
  pub value-post : (s : Sem) → value (post s) ≡ value s + 1
  pub value-reset : (s : Sem) (n : ℕ) → value (reset s n) ≡ n
  -- a wait that succeeds takes one unit, a wait that times out takes none
  pub value-wait_true : (s : Sem) (t : ℕ) → (wait s t).0 ≡ true → value (wait s t).1 + 1 ≡ value s
  pub value-wait_false : (s : Sem) (t : ℕ) → (wait s t).0 ≡ false → value (wait s t).1 ≡ value s
  -- a unit that is there is taken at once
  pub wait_pos : (s : Sem) (t : ℕ) → 0 < value s → (wait s t).0 ≡ true
