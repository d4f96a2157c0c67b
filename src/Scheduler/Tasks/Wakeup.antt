-- ===== src/Scheduler/Tasks/Wakeup.antt =====
-- mini_rtos/src/scheduler.c: `task_delay`, and `process_blocked_tasks` when the time has come.
use self_mini_os.Common.{ℕ, ◌≡◌, Option, some, List}
use self_mini_os.RbTree.{RbTree}
use self_mini_os.Traffic.{Traffic}
use self_mini_os.Traffic.Chains.{count_in, Chain}
use self_mini_os.Scheduler.{Scheduler, priority_key}
use self_mini_os.HashTable.{HashTable}
use self_mini_os.Scheduler.Steps.{IsScheduler, Listed, refit, Left}
use self_mini_os.Scheduler.Tasks.Delay.{delayed, woken}

module _ (t ticks start now : ℕ) (s : Scheduler) (ys : List ℕ) (v : IsScheduler s) (m : Listed t s)
    (current : s.current_task ≡ some t) (chain : Chain s.tc.next s.blocked_list ys)
    (out : count_in t ys ≡ 0) where
  abbrev put : Scheduler
  put = delayed t ticks start s

  abbrev key : ℕ
  key = priority_key s.tcb t

  -- the task taken out of the tree
  abbrev gone : Option HashTable → Option HashTable → RbTree ℕ → Scheduler
  gone ids names tree = refit put ids names tree

  module _ (ids names : Option HashTable) (tree : RbTree ℕ) (left : Left t put ids names tree) where
    abbrev up : Scheduler
    up = woken t (gone ids names tree)
