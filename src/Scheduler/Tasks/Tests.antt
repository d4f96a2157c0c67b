-- ===== src/Scheduler/Tasks/Tests.antt =====
-- The scheduler of mini_rtos/src/scheduler.c with two ready tasks: task 1 of priority 1 and task 2 of
-- priority 3, each with its number for its id. Block 3 is free.
use self_mini_os.Common.{
  ℕ, ◌+◌, ◌*◌, ◌-◌, ◌^◌, ◌≡◌, refl, inl, inr, true, false, none, some, [], arith, u32_max,
  if◌then◌else◌, ◌==◌,
}
use self_mini_os.RbTree.{black, red, nil, node, RbTree, init as rb_init}
use self_mini_os.RbTree.Contents.{insert_after}
use self_mini_os.RbTree.Query.{In}
use self_mini_os.HashTable.{HashTable, empty_table}
use self_mini_os.HashTable.Hashes.{ints, strings, hashes_fit}
use self_mini_os.HashTable.Resize.{empty_table-IsValid}
use self_mini_os.Traffic.{Traffic}
use self_mini_os.Scheduler.{priority_based, ready, terminated, Tcb, Scheduler, priority_key}
use self_mini_os.Scheduler.Nodes.{without}
use self_mini_os.Scheduler.Queues.{IsQueue}
use self_mini_os.Scheduler.Steps.{IsScheduler, HasIds, nodes}
use self_mini_os.Scheduler.Inherit.{inherit_priority, release_inherited_priority}
use self_mini_os.Scheduler.Inherit.Restores.{inherit_priority_lem, release-inherit_priority}
use self_mini_os.Scheduler.Tasks.{task_create, get_next_task, task_yield, find_task_by_id}
use self_mini_os.Scheduler.Tasks.Next.{IsHighest, get_next_task-IsHighest}
use self_mini_os.Scheduler.Tasks.Create.{task_create-refuses}
use self_mini_os.Scheduler.Calls.{Calls, no_call, then_call, create, suspend, preempt}
use self_mini_os.Scheduler.Calls.Live.{task_create-refuses_always}
use self_mini_os.Scheduler.Tasks.{task_suspend}
use self_mini_os.Scheduler.{set_preemption_mode}
use self_mini_os.Scheduler.Tasks.Yield.{times, task_yield_lem}

abbrev block : ℕ → Tcb
block t = record {
  id = t;
  name = [];
  state = if t == 3 then terminated else ready;
  priority = if t == 1 then 1 else 3;
  original_priority = 0;
  time_slice = 10;
  ticks_remaining = 4;
  deadline = 0;
  arrival_time = 0;
  stack_size = 256;
  blocked_by = none;
  blocking = none;
  inheritance_depth = 0;
  num_activations = 0;
  prev = none;
}

abbrev idle_traffic : Traffic
idle_traffic = record { queues = []; initialized = false; next = λ t. none; flags = λ t. 0 }

abbrev table : HashTable
table = empty_table 37

abbrev two_tasks : RbTree ℕ
two_tasks = record {
  root =
      node black nil (u32_max - (3 * 2 ^ 24 + 2)) 2
        (node red nil (u32_max - (1 * 2 ^ 24 + 1)) 1 nil);
  size = 2;
}

abbrev two : Scheduler
two = record {
  tcb = block;
  tc = idle_traffic;
  current_task = some 2;
  next_task = none;
  idle_task = none;
  task_count = 5;
  stats = record { total_tasks = 2; priority_inversions = 0; context_switches = 0 };
  task_id_map = some table;
  task_name_map = some table;
  priority_tree = two_tasks;
  deadline_tree = rb_init;
  rr_tree = rb_init;
  blocked_list = none;
  current_policy = priority_based;
  preemption_mode = 1;
  mallocs = [];
}

two-IsQueue : IsQueue (priority_key block) two_tasks
unfolding priority_key
two-IsQueue = record {
  valid = record {
    shape = (tt, (tt, tt, refl, (refl, refl)), refl, tt);
    root_black = refl;
    sorted = omega arith;
    counted = refl;
  };
  small = omega arith;
  strict = omega arith;
  keyed = omega arith;
}

two-IsScheduler : IsScheduler two
two-IsScheduler = record {
  queue = two-IsQueue;
  policy = refl;
  ids = empty_table-IsValid ints hashes_fit.1 37 (omega arith) (omega arith);
  names = empty_table-IsValid strings hashes_fit.0 37 (omega arith) (omega arith);
  memory = refl;
}

two-HasIds : HasIds two
two-HasIds = record { bound = omega arith; unique = λ x y m n e. e }

listed_one : In (priority_key two.tcb 1, 1) (nodes two)
unfolding priority_key
listed_one = inr (inl refl)

inherit_priority_lem_example :
    (s' : Scheduler) × (inherit_priority 1 2 two ≡ some s')
    × IsScheduler s'
    × ((s'.tcb 1).priority ≡ 3)
    × (nodes s'
        ≡ insert_after (priority_key s'.tcb 1, 1) (without (priority_key two.tcb 1) (nodes two)))
    × (find_task_by_id 1 s' ≡ some none)
inherit_priority_lem_example =
    inherit_priority_lem 1 2 two two-IsScheduler two-HasIds listed_one (omega arith) (omega arith)

release-inherit_priority_example :
    (s' : Scheduler) × (s'' : Scheduler) × (inherit_priority 1 2 two ≡ some s')
    × (release_inherited_priority 1 s' ≡ some s'')
    × IsScheduler s''
    × ((s''.tcb 1).priority ≡ 1)
    × (s''.tc.flags 1 ≡ 0)
    × (nodes s'' ≡ nodes two)
    × (find_task_by_id 1 s'' ≡ some none)
release-inherit_priority_example =
    release-inherit_priority 1 2 two two-IsScheduler two-HasIds listed_one (omega arith)
      (omega arith) refl

get_next_task-IsHighest_example :
    (k : ℕ) × (t : ℕ) × (get_next_task 0 two ≡ some t) × In (k, t) (nodes two) × IsHighest two t
get_next_task-IsHighest_example =
    get_next_task-IsHighest 0 two (priority_key two.tcb 1, 1) two-IsScheduler two-HasIds listed_one

-- a scheduler whose blocks all have the mark that the zeroed pool starts with
abbrev fresh : Scheduler
fresh = record two { tcb = λ t. record (block t) { state = ready } }

-- a call of `task_create`, a suspension, and a change of the mode
calls : Calls fresh (set_preemption_mode 0 (task_suspend 1 fresh).1)
calls =
    then_call
      (then_call
        (then_call no_call
          (create 10 [] true 4 256 (task_create-refuses 10 [] true 4 256 fresh (λ i low e. cc e))))
        (suspend 1))
      (preempt 0)

task_create-refuses_always_example :
    let s' = set_preemption_mode 0 (task_suspend 1 fresh).1 in
    task_create 10 [] true 4 256 s' ≡ some (none, s')
task_create-refuses_always_example =
    task_create-refuses_always fresh (set_preemption_mode 0 (task_suspend 1 fresh).1) 10 [] true 4
      256 (λ i. refl) calls

task_yield_lem_example :
    (s' : Scheduler) × (task_yield two ≡ some s')
    × (nodes s' ≡ insert_after (priority_key two.tcb 2, 2) (nodes two))
    × (times 2 (nodes s') ≡ 2)
task_yield_lem_example = task_yield_lem two 2 two-IsScheduler refl
