-- ===== src/Scheduler/Tasks/Yield.antt =====
-- mini_rtos/src/scheduler.c: `task_yield`.
use self_mini_os.Common.{
  ℕ, ◌+◌, ◌≡◌, ap, ◌∙◌, Option, some, List, [], ◌∷◌, ◌>>=◌, arith, if◌then◌else◌, ◌==◌,
}
use self_mini_os.RbTree.{RbTree, inorder}
use self_mini_os.RbTree.Contents.{insert_after}
use self_mini_os.RbTree.Insert.{insert_lem}
use self_mini_os.Scheduler.{Tcb, Scheduler, ready, priority_key, change, add_task}
use self_mini_os.Scheduler.Steps.{IsScheduler, nodes, add_task-insert}
use self_mini_os.Scheduler.Tasks.{task_yield, yield_from, schedule_next_task}

schedule_next_task-tree : (s : Scheduler) → (schedule_next_task s).priority_tree ≡ s.priority_tree
unfolding schedule_next_task
schedule_next_task-tree s = ground arith

-- how often a node stands in a list
abbrev pub times : ℕ → List (ℕ × ℕ) → ℕ
times t [] = 0
times t (y ∷ ys) = (if y.1 == t then 1 else 0) + times t ys

times-insert_after :
    (k t : ℕ) (xs : List (ℕ × ℕ)) → times t (insert_after (k, t) xs) ≡ times t xs + 1
unfolding insert_after
times-insert_after k t [] = ground arith
times-insert_after k t (y ∷ ys) = ground (arith, times-insert_after k t ys)

yield_key :
    (t u : ℕ) (s : Scheduler)
    → priority_key
        (change (λ (b : Tcb). record b { ticks_remaining = b.time_slice; state = ready }) t s).tcb
        u
      ≡ priority_key s.tcb u
unfolding priority_key
yield_key t u s = ground arith

-- Under `SCHED_PRIORITY` and with enough memory, `task_yield` ends, and it puts the current task into the
-- priority tree without taking it out: behind the nodes of its key, so that the task stands there once
-- more often than before.
pub task_yield_lem :
    (s : Scheduler) (t : ℕ)
    → IsScheduler s
    → s.current_task ≡ some t
    → (s' : Scheduler) × (task_yield s ≡ some s')
      × (nodes s' ≡ insert_after (priority_key s.tcb t, t) (nodes s))
      × (times t (nodes s') ≡ times t (nodes s) + 1)
unfolding task_yield
task_yield_lem s t v e =
    let rest = λ (b : Tcb). record b { ticks_remaining = b.time_slice; state = ready } in
    let s1 : Scheduler = change rest t s in
    let (tree, run, valid, contents) =
      insert_lem (priority_key s1.tcb) s.priority_tree t v.queue.valid v.queue.small in
    let s2 : Scheduler = record s1 { priority_tree = tree; mallocs = [] } in
    let added : add_task t s1 ≡ some s2 = add_task-insert t s1 tree v.policy v.memory run in
    let same : nodes (schedule_next_task s2) ≡ insert_after (priority_key s.tcb t, t) (nodes s) =
      ap (λ (x : RbTree ℕ). inorder x.root) (schedule_next_task-tree s2)
      ∙ contents
      ∙ ap (λ k. insert_after (k, t) (nodes s)) (yield_key t t s) in
    (
      schedule_next_task s2,
      ap (λ o. yield_from o s) e
          ∙ ap (λ (o : Option Scheduler). o >>= (λ z. some (schedule_next_task z))) added,
      same,
      ap (times t) same ∙ times-insert_after (priority_key s.tcb t) t (nodes s),
    )
