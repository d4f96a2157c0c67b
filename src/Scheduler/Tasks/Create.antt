-- ===== src/Scheduler/Tasks/Create.antt =====
-- mini_rtos/src/scheduler.c: `task_create` without a free block.
use self_mini_os.Common.{
  ℕ, zero, suc, Bool-cases, inl, inr, ◌+◌, ◌<◌, ◌≤◌, ◌≡◌, ◌≢◌, refl, Bool, not, ◌||◌, none, some,
  List, leb, arith, if◌then◌else◌,
}
use self_mini_os.Scheduler.{
  Tcb, Scheduler, TaskState, ready, running, blocked, suspended, terminated,
}
use self_mini_os.Scheduler.Tasks.{
  task_create, find_free, is_terminated, max_tasks, max_priority_levels,
}

find_free-none :
    (tcb : ℕ → Tcb) (i n : ℕ)
    → ((j : ℕ) → i ≤ j → j < i + n → (tcb j).state ≢ terminated)
    → find_free tcb i n ≡ none
unfolding find_free
find_free-none tcb i zero busy = refl
find_free-none tcb i (suc n) busy =
    let rest = find_free-none tcb (suc i) n (λ j a b. busy j (omega arith) (omega arith)) in
    here (tcb i).state (busy i (omega arith) (omega arith)) rest
  where
    here :
        (state : TaskState)
        → state ≢ terminated
        → find_free tcb (suc i) n ≡ none
        → (if is_terminated state then some i else find_free tcb (suc i) n) ≡ none
    here ready ne e = e
    here running ne e = e
    here blocked ne e = e
    here suspended ne e = e
    here terminated ne e = absurd (ne refl)

-- Where no block is marked `TASK_TERMINATED`, `task_create` returns null and changes nothing.
pub task_create-refuses :
    (slice : ℕ) (name : List ℕ) (has_entry : Bool) (priority stack_size : ℕ) (s : Scheduler)
    → ((i : ℕ) → i < max_tasks → (s.tcb i).state ≢ terminated)
    → task_create slice name has_entry priority stack_size s ≡ some (none, s)
unfolding task_create
task_create-refuses slice name has_entry priority stack_size s busy =
    let none_free = find_free-none s.tcb 0 max_tasks (λ j a b. busy j (omega arith)) in
    elim (Bool-cases
      (leb max_tasks s.task_count || not has_entry || leb max_priority_levels priority)) [
        | inl e ↦ rw e refl
        | inr e ↦ rw (e, none_free) refl
      ]
