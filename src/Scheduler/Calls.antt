-- ===== src/Scheduler/Calls.antt =====
-- mini_rtos/src/scheduler.c: the calls of the scheduler, in any order.
pub mod States
pub mod Live
use self_mini_os.Common.{ℕ, Bool, Option, some, none, List, ◌≡◌}
use self_mini_os.Traffic.{Traffic}
use self_mini_os.Scheduler.{Scheduler, set_preemption_mode}
use self_mini_os.Scheduler.Tasks.{
  task_create, task_suspend, task_resume, task_delay, process_blocked_tasks, schedule_next_task,
  task_yield, scheduler_init, scheduler_start, scheduler_shutdown,
}
use self_mini_os.Scheduler.Inherit.{inherit_priority, release_inherited_priority}

-- one call that ends; what the functions of traffic control do beside them is any change of their state
pub data Call : Scheduler → Scheduler → Type 0 where
  init :
      {s s' : Scheduler} (clock : ℕ → ℕ) (idle : Option ℕ)
      → scheduler_init clock idle s ≡ some s'
      → Call s s'
  create :
      {s s' : Scheduler} {task : Option ℕ} (slice : ℕ) (name : List ℕ) (has_entry : Bool)
      (priority stack_size : ℕ)
      → task_create slice name has_entry priority stack_size s ≡ some (task, s')
      → Call s s'
  suspend : {s : Scheduler} (t : ℕ) → Call s (task_suspend t s).1
  resume : {s s' : Scheduler} (t now : ℕ) → task_resume t now s ≡ some s' → Call s s'
  delay :
      {s s' : Scheduler} {switches : Bool} (ticks now : ℕ)
      → task_delay ticks now s ≡ some (switches, s')
      → Call s s'
  process :
      {s s' : Scheduler} (fuel now : ℕ) → process_blocked_tasks fuel now s ≡ some s' → Call s s'
  inherit : {s s' : Scheduler} (t u : ℕ) → inherit_priority t u s ≡ some s' → Call s s'
  release : {s s' : Scheduler} (t : ℕ) → release_inherited_priority t s ≡ some s' → Call s s'
  schedule : {s : Scheduler} → Call s (schedule_next_task s)
  yield : {s s' : Scheduler} → task_yield s ≡ some s' → Call s s'
  start : {s s' : Scheduler} (nil_key : ℕ) → scheduler_start nil_key s ≡ some s' → Call s s'
  shutdown : {s : Scheduler} → Call s (scheduler_shutdown s)
  preempt : {s : Scheduler} (mode : ℕ) → Call s (set_preemption_mode mode s)
  traffic : {s : Scheduler} (tc : Traffic) → Call s (record s { tc = tc })

pub data Calls : Scheduler → Scheduler → Type 0 where
  no_call : {s : Scheduler} → Calls s s
  then_call : {s z s' : Scheduler} → Calls s z → Call z s' → Calls s s'
