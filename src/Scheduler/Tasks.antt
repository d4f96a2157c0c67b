-- ===== src/Scheduler/Tasks.antt =====
-- mini_rtos/src/scheduler.c: the life of a task, from `task_create` on, the choice of the next one, and
-- the start and the end of the scheduler. `scheduler_switch_task` and `create_idle_task`, which no file
-- defines, are a flag of the result and an argument. The time of `get_system_ticks` is an argument.
pub mod Next
pub mod Create
pub mod Yield
pub mod Delay
pub mod Wakeup
pub mod Live
mod Tests
use self_mini_os.Common.{
  ℕ, zero, suc, ◌+◌, ◌-◌, ◌*◌, ◌/◌, ◌%◌, ◌^◌, Bool, true, false, not, ◌&&◌, ◌||◌, Option, none,
  some, List, [], ◌∷◌, ltb, leb, ◌==◌, if◌then◌else◌, ◌>>=◌, add32, take,
}
use self_mini_os.RbTree.{RbTree, minimum, init as rb_init}
use self_mini_os.RbTree.Removal.{leftmost, successor}
use self_mini_os.HashTable.{
  HashTable, Hashing, create as ht_create, insert as ht_insert, get as ht_get,
}
use self_mini_os.HashTable.Hashes.{ints, strings}
use self_mini_os.Traffic.{
  Traffic, assign, init as tc_init, assign_task_class, get_task_class, enqueue_task, dequeue_task,
}
use self_mini_os.Traffic.Admin.{flush_queue, shutdown as tc_shutdown}
use self_mini_os.Scheduler.{
  SchedPolicy, priority_based, round_robin, earliest_deadline, hybrid, TaskState, ready, running,
  blocked, suspended, terminated, Tcb, Scheduler, SchedulerStats, change, priority_key, tree_add,
  word_bytes, add_task, remove_task,
}

abbrev pub max_tasks : ℕ
max_tasks = 32

abbrev pub max_priority_levels : ℕ
max_priority_levels = 5

abbrev pub is_terminated : TaskState → Bool
is_terminated terminated = true
is_terminated _ = false

-- the loop of `task_create` that looks for a free block, from `i` on
pub find_free : (ℕ → Tcb) → ℕ → ℕ → Option ℕ
find_free tcb i zero = none
find_free tcb i (suc n) =
    let rest = find_free tcb (suc i) n in if is_terminated (tcb i).state then some i else rest

-- the traffic class of a priority; 0 is `TC_REALTIME`, and 4 is `TC_IDLE`
pub class_of_priority : ℕ → ℕ
class_of_priority priority =
    if leb 4 priority
    then 0
    else if leb 3 priority
    then 1
    else if leb 2 priority
    then 2
    else if leb 1 priority
    then 3
    else 4

-- a call of `ht_insert`, which refuses a null table
unfoldable pub table_insert :
    Hashing → Option HashTable → List ℕ → List ℕ → List Bool → Option (Option HashTable × List Bool)
table_insert h none key value m = some (none, m)
table_insert h (some table) key value m =
    ht_insert h 1 table key (some value) m >>= (λ r. some (some r.1, r.2))

-- the block after `memset` and the assignments behind it
pub new_tcb : ℕ → List ℕ → ℕ → ℕ → ℕ → Tcb
new_tcb slice name id priority stack_size = record {
  id = id;
  name = take 31 name;
  state = ready;
  priority = priority;
  original_priority = 0;
  time_slice = slice;
  ticks_remaining = slice;
  deadline = 0;
  arrival_time = 0;
  stack_size = stack_size;
  blocked_by = none;
  blocking = none;
  inheritance_depth = 0;
  num_activations = 0;
  prev = none;
}

-- `task_create`; `slice` is `TASK_SWITCH_TICKS`, which no file defines; of the task it copies 4 bytes into the tables, which are its id
pub task_create : ℕ → List ℕ → Bool → ℕ → ℕ → Scheduler → Option (Option ℕ × Scheduler)
unfolding find_free class_of_priority new_tcb table_insert
task_create slice name has_entry priority stack_size s =
    if leb max_tasks s.task_count || not has_entry || leb max_priority_levels priority
    then some (none, s)
    else elim (find_free s.tcb 0 max_tasks) [
      | none ↦ some (none, s)
      | some t ↦ do
        let tc = record s.tc { flags = assign s.tc.flags t 0; next = assign s.tc.next t none }
        let s1 = record s {
          tcb = assign s.tcb t (new_tcb slice name s.task_count priority stack_size);
          task_count = add32 s.task_count 1;
          tc = (assign_task_class tc t (class_of_priority priority)).1;
        }
        s2 ← add_task t s1
        let key = word_bytes (s2.tcb t).id
        (ids, m) ← table_insert ints s2.task_id_map key key s2.mallocs
        (names, m') ← table_insert strings s2.task_name_map (s2.tcb t).name key m
        some (
          some t,
          record s2 {
            stats = record s2.stats { total_tasks = add32 s2.stats.total_tasks 1 };
            task_id_map = ids;
            task_name_map = names;
            mallocs = m';
          },
        )
    ]

-- `find_task_by_id`: the bytes that the pointer returned leads to
unfoldable pub find_task_by_id : ℕ → Scheduler → Option (Option (List ℕ))
find_task_by_id id s = elim s.task_id_map [
  | none ↦ some none
  | some table ↦ ht_get ints table (word_bytes id)
]

pub find_task_by_name : List ℕ → Scheduler → Option (Option (List ℕ))
find_task_by_name name s = elim s.task_name_map [
  | none ↦ some none
  | some table ↦ ht_get strings table name
]

abbrev pub is_current : ℕ → Option ℕ → Bool
is_current t none = false
is_current t (some c) = t == c

-- `task_suspend`; the flag is the call of `scheduler_switch_task`
unfoldable pub task_suspend : ℕ → Scheduler → Bool × Scheduler
task_suspend t s =
    let s1 = change (λ b. record b { state = suspended }) t s in
    (is_current t s.current_task, record s1 { tc = flush_queue s1.tc (get_task_class s1.tc t) })

unfoldable pub task_resume : ℕ → ℕ → Scheduler → Option Scheduler
task_resume t now s =
    let s1 = change (λ b. record b { state = ready }) t s in
    enqueue_task s1.tc t now >>= (λ r. some (record s1 { tc = r.1 }))

-- a block at the front of `blocked_list`
unfoldable pub push_blocked : ℕ → Scheduler → Scheduler
push_blocked t s =
    let s1 = change (λ b. record b { prev = none }) t s in
    let s2 : Scheduler = elim s.blocked_list [
      | none ↦ s1
      | some b ↦ change (λ c. record c { prev = some t }) b s1
    ] in
    record s2 {
      tc = record s2.tc { next = assign s2.tc.next t s.blocked_list };
      blocked_list = some t;
    }

-- `task_delay`; without a current task it writes through a null pointer
unfoldable pub task_delay : ℕ → ℕ → Scheduler → Option (Bool × Scheduler)
unfolding push_blocked
task_delay zero now s = some (false, s)
task_delay (suc ticks) now s = elim s.current_task [
  | none ↦ none
  | some t ↦
      let wake = λ (b : Tcb). record b { state = blocked; deadline = add32 now (suc ticks) } in
      remove_task t (push_blocked t (change wake t s)) >>= (λ s'. some (true, s'))
]

-- a block that `process_blocked_tasks` takes out of `blocked_list`
unfoldable pub unlink_blocked : ℕ → Scheduler → Scheduler
unlink_blocked t s =
    let next = s.tc.next t in
    let prev = (s.tcb t).prev in
    let tc : Traffic = elim prev [
      | none ↦ s.tc
      | some p ↦ record s.tc { next = assign s.tc.next p next }
    ] in
    let s1 : Scheduler = elim next [
      | none ↦ record s { tc = tc }
      | some n ↦ change (λ b. record b { prev = prev }) n (record s { tc = tc })
    ] in
    if is_current t s.blocked_list then record s1 { blocked_list = next } else s1

unfoldable pub wake : ℕ → Scheduler → Option Scheduler
unfolding unlink_blocked
wake t s = add_task t (change (λ b. record b { state = ready }) t (unlink_blocked t s))

-- the loop of `process_blocked_tasks`; a list that is longer than the fuel gives `none`
unfoldable pub process_from : ℕ → ℕ → Option ℕ → Scheduler → Option Scheduler
unfolding wake
process_from fuel now none s = some s
process_from zero now (some t) s = none
process_from (suc fuel) now (some t) s =
    (if leb (s.tcb t).deadline now then wake t s else some s)
    >>= (λ s'. process_from fuel now (s.tc.next t) s')

unfoldable pub process_blocked_tasks : ℕ → ℕ → Scheduler → Option Scheduler
unfolding process_from
process_blocked_tasks fuel now s = process_from fuel now s.blocked_list s

-- the current task, if it has ticks left
abbrev with_ticks : Scheduler → Option ℕ
with_ticks s = elim s.current_task [
  | none ↦ none
  | some c ↦ if ltb 0 (s.tcb c).ticks_remaining then some c else none
]

-- the key of the node that `rb_successor` returns; `rb_init` leaves that of the sentinel unset, and
-- `nil_key` is what it may be
abbrev key_or : ℕ → Option (ℕ × ℕ) → ℕ
key_or nil_key none = nil_key
key_or nil_key (some y) = y.0

-- the `switch` of `get_next_task`
pub next_by_policy : SchedPolicy → ℕ → Scheduler → Option ℕ
next_by_policy priority_based nil_key s = minimum s.priority_tree.root >>= (λ n. some n.1)
next_by_policy earliest_deadline nil_key s = minimum s.deadline_tree.root >>= (λ n. some n.1)
next_by_policy round_robin nil_key s = elim (with_ticks s) [
  | some c ↦ some c
  | none ↦ minimum s.rr_tree.root >>= (λ n. some n.1)
]
next_by_policy hybrid nil_key s = do
  n ← minimum s.priority_tree.root
  (color, right, path) ← leftmost s.priority_tree.root []
  let rr = minimum s.rr_tree.root >>= (λ r. some r.1)
  if key_or nil_key (successor right path) == n.0
      then elim (with_ticks s) [
        | none ↦ rr
        | some c ↦ if (s.tcb c).priority == (s.tcb n.1).priority then some c else rr
      ]
      else some n.1

-- `get_next_task`. `rb_minimum` never returns the sentinel, so the branches that fall back on another
-- tree or on the idle task are not reached.
pub get_next_task : ℕ → Scheduler → Option ℕ
unfolding next_by_policy
get_next_task nil_key s = next_by_policy s.current_policy nil_key s

-- `schedule_next_task`, up to the interrupt that it requests
unfoldable pub schedule_next_task : Scheduler → Scheduler
schedule_next_task s =
    let (next, tc) = dequeue_task s.tc in
    if not s.tc.initialized then s else elim next [
      | none ↦ record s { tc = tc }
      | some t ↦
          let run = λ (b : Tcb). record b {
            state = running;
            num_activations = add32 b.num_activations 1;
          } in
          let s1 = change run t s in
          record s1 {
            tc = tc;
            current_task = some t;
            stats = record s1.stats { context_switches = add32 s1.stats.context_switches 1 };
          }
    ]

-- `task_yield`, with the current task
unfoldable pub yield_from : Option ℕ → Scheduler → Option Scheduler
unfolding schedule_next_task
yield_from none s = some (schedule_next_task s)
yield_from (some t) s =
    let rest = λ (b : Tcb). record b { ticks_remaining = b.time_slice; state = ready } in
    add_task t (change rest t s) >>= (λ s'. some (schedule_next_task s'))

unfoldable pub task_yield : Scheduler → Option Scheduler
unfolding yield_from
task_yield s = yield_from s.current_task s

-- the assignments of `scheduler_init`, with the tables that it has made
unfoldable pub init_state :
    (ℕ → ℕ) → Option ℕ → Option HashTable → Option HashTable → List Bool → Scheduler → Scheduler
init_state clock idle ids names m s = record s {
  tc = tc_init s.tc clock;
  task_id_map = ids;
  task_name_map = names;
  priority_tree = rb_init;
  deadline_tree = rb_init;
  rr_tree = rb_init;
  current_task = none;
  next_task = none;
  task_count = 0;
  current_policy = priority_based;
  preemption_mode = 1;
  stats = record { total_tasks = 0; priority_inversions = 0; context_switches = 0 };
  idle_task = idle;
  mallocs = m;
}

-- its end: the idle task, if there is one
unfoldable pub add_idle : Option ℕ → Scheduler → Option Scheduler
add_idle none s = some s
add_idle (some t) s =
    let s1 = change (λ b. record b { priority = 0 }) t s in
    tree_add (priority_key s1.tcb) s1.priority_tree t s1.mallocs
    >>= (λ r. some (record s1 { priority_tree = r.0; mallocs = r.1; task_count = 1 }))

-- `scheduler_init`, with the clock of `tc_init` and what `create_idle_task` returns
unfoldable pub scheduler_init : (ℕ → ℕ) → Option ℕ → Scheduler → Option Scheduler
scheduler_init clock idle s = ht_create max_tasks s.mallocs >>= (λ a.
    ht_create max_tasks a.1 >>= (λ b. add_idle idle (init_state clock idle a.0 b.0 b.1 s)))

unfoldable pub scheduler_start : ℕ → Scheduler → Option Scheduler
scheduler_start nil_key s =
    if s.task_count == 0
    then some s
    else get_next_task nil_key s
      >>= (λ t. some (record s { next_task = some t; current_task = some t }))

unfoldable pub scheduler_shutdown : Scheduler → Scheduler
scheduler_shutdown s = record s {
  tc = tc_shutdown s.tc;
  current_task = none;
  next_task = none;
  task_count = 0;
}
