-- ===== src/Scheduler.antt =====
-- mini_rtos/src/scheduler.c with the task control block of mini_rtos/include/scheduler.h: the state of
-- the scheduler, the keys of its trees, and the moves of a task into them and out of them.
-- A task is the number of its control block. Of a block, `flags` and `next` are those of the model of
-- traffic control, which writes them too; `tcb` gives the rest. The trees and the hash tables are those
-- of RbTree and HashTable. The outcomes of the calls of `malloc` to come are a list of the state. `none`
-- as a result is a read through the null child of a sentinel, or a fault of a component that is called.
-- `enter_critical` makes each operation one step.
pub mod Tasks
pub mod Inherit
pub mod Calls
pub mod Nodes
pub mod Queues
pub mod Tables
pub mod Steps
use self_mini_os.Common.{
  ℕ, ◌+◌, ◌-◌, ◌*◌, ◌/◌, ◌%◌, ◌^◌, ◌≤◌, Bool, true, false, not, Option, none, some, List, [], ◌∷◌,
  ltb, leb, ◌==◌, if◌then◌else◌, ◌>>=◌, u32_max, add32,
}
use self_mini_os.RbTree.{RbTree, insert as rb_insert}
use self_mini_os.RbTree.Removal.Locate.{Place, find_place, delete_at}
use self_mini_os.HashTable.{HashTable, Hashing, malloc, remove as ht_remove}
use self_mini_os.HashTable.Hashes.{ints, strings}
use self_mini_os.Traffic.{Traffic, assign}

-- `sched_policy_t`
pub data SchedPolicy : Type 0 where
  priority_based round_robin earliest_deadline hybrid : SchedPolicy

-- `task_state_t`
pub data TaskState : Type 0 where
  ready running blocked suspended terminated : TaskState

-- `tcb_t`, less the fields that the code in the repository never reads
pub record Tcb : Type 0 where
  pub id : ℕ
  pub name : List ℕ
  pub state : TaskState
  pub priority : ℕ
  pub original_priority : ℕ
  pub time_slice : ℕ
  pub ticks_remaining : ℕ
  pub deadline : ℕ
  pub arrival_time : ℕ
  pub stack_size : ℕ
  pub blocked_by : Option ℕ
  pub blocking : Option ℕ
  pub inheritance_depth : ℕ
  pub num_activations : ℕ
  pub prev : Option ℕ

-- the fields of `scheduler_stats_t` that are written
pub record SchedulerStats : Type 0 where
  pub total_tasks : ℕ
  pub priority_inversions : ℕ
  pub context_switches : ℕ

pub record Scheduler : Type 0 where
  pub tcb : ℕ → Tcb
  pub tc : Traffic
  pub current_task : Option ℕ
  pub next_task : Option ℕ
  pub idle_task : Option ℕ
  pub task_count : ℕ
  pub stats : SchedulerStats
  pub task_id_map : Option HashTable
  pub task_name_map : Option HashTable
  pub priority_tree : RbTree ℕ
  pub deadline_tree : RbTree ℕ
  pub rr_tree : RbTree ℕ
  pub blocked_list : Option ℕ
  pub current_policy : SchedPolicy
  pub preemption_mode : ℕ
  pub mallocs : List Bool

-- the flags are bits of these weights
abbrev pub flag_inherited : ℕ
flag_inherited = 0x04

abbrev pub flag_deadline : ℕ
flag_deadline = 0x08

abbrev pub has_flag : ℕ → ℕ → Bool
has_flag weight flags = flags / weight % 2 == 1

-- `flags |= weight` and `flags &= ~weight`
abbrev pub set_flag : ℕ → ℕ → ℕ
set_flag weight flags = if has_flag weight flags then flags else flags + weight

abbrev pub clear_flag : ℕ → ℕ → ℕ
clear_flag weight flags = if has_flag weight flags then flags - weight else flags

-- `task->field = ...`
abbrev pub change : (Tcb → Tcb) → ℕ → Scheduler → Scheduler
change f t s = record s { tcb = assign s.tcb t (f (s.tcb t)) }

-- `UINT32_MAX - ((uint32_t)task->priority << 24 | task->id)`: an `id` is a count of at most 32 tasks, so
-- that the two parts share no bit
pub priority_key : (ℕ → Tcb) → ℕ → ℕ
priority_key tcb t = u32_max - ((tcb t).priority * 2 ^ 24 + (tcb t).id)

pub deadline_key : (ℕ → Tcb) → ℕ → ℕ
deadline_key tcb t = (tcb t).deadline

pub rr_key : (ℕ → Tcb) → ℕ → ℕ
rr_key tcb t = (tcb t).arrival_time

-- a call of `rb_insert`, and one of `rb_find_task` with `rb_delete` at what it finds
pub tree_add : (ℕ → ℕ) → RbTree ℕ → ℕ → List Bool → Option (RbTree ℕ × List Bool)
tree_add key tree t m =
    let (done, m') = malloc m in rb_insert key tree t done >>= (λ tree'. some (tree', m'))

pub tree_remove : (ℕ → ℕ) → RbTree ℕ → ℕ → Option (RbTree ℕ)
tree_remove key tree t = elim (find_place ◌==◌ t (key t) tree.root []) [
  | none ↦ some tree
  | some place ↦ delete_at tree place
]

-- a call of `ht_remove`; a table is null if it could not be made
pub table_remove :
    Hashing → Option HashTable → List ℕ → List Bool → Option (Option HashTable × List Bool)
table_remove h none key m = some (none, m)
table_remove h (some table) key m = ht_remove h table key m >>= (λ r. some (some r.1, r.2))

-- the bytes of a word
abbrev pub word_bytes : ℕ → List ℕ
word_bytes n = n % 256 ∷ n / 256 % 256 ∷ n / 65536 % 256 ∷ n / 16777216 % 256 ∷ []

pub add_priority : ℕ → Scheduler → Option Scheduler
add_priority t s =
    tree_add (priority_key s.tcb) s.priority_tree t s.mallocs
    >>= (λ r. some (record s { priority_tree = r.0; mallocs = r.1 }))

pub add_deadline : ℕ → Scheduler → Option Scheduler
add_deadline t s =
    if has_flag flag_deadline (s.tc.flags t)
    then tree_add (deadline_key s.tcb) s.deadline_tree t s.mallocs
      >>= (λ r. some (record s { deadline_tree = r.0; mallocs = r.1 }))
    else some s

pub add_rr : ℕ → Scheduler → Option Scheduler
add_rr t s =
    tree_add (rr_key s.tcb) s.rr_tree t s.mallocs
    >>= (λ r. some (record s { rr_tree = r.0; mallocs = r.1 }))

-- the `switch` of `scheduler_add_task`
pub add_by_policy : SchedPolicy → ℕ → Scheduler → Option Scheduler
unfolding add_deadline add_rr
add_by_policy priority_based t s = some s
add_by_policy earliest_deadline t s = add_deadline t s
add_by_policy round_robin t s = add_rr t s
add_by_policy hybrid t s = add_rr t s >>= add_deadline t

-- `scheduler_add_task`
pub add_task : ℕ → Scheduler → Option Scheduler
unfolding add_priority add_by_policy
add_task t s = add_priority t s >>= add_by_policy s.current_policy t

pub remove_deadline : ℕ → Scheduler → Option Scheduler
remove_deadline t s =
    tree_remove (deadline_key s.tcb) s.deadline_tree t
    >>= (λ tree. some (record s { deadline_tree = tree }))

pub remove_rr : ℕ → Scheduler → Option Scheduler
remove_rr t s =
    tree_remove (rr_key s.tcb) s.rr_tree t >>= (λ tree. some (record s { rr_tree = tree }))

-- the `switch` of `scheduler_remove_task`
pub remove_by_policy : SchedPolicy → ℕ → Scheduler → Option Scheduler
unfolding remove_deadline remove_rr
remove_by_policy priority_based t s = some s
remove_by_policy earliest_deadline t s = remove_deadline t s
remove_by_policy round_robin t s = remove_rr t s
remove_by_policy hybrid t s = remove_rr t s >>= remove_deadline t

-- the two calls of `ht_remove`
pub forget : ℕ → Scheduler → Option Scheduler
unfolding table_remove
forget t s = do
  (ids, m) ← table_remove ints s.task_id_map (word_bytes (s.tcb t).id) s.mallocs
  (names, m') ← table_remove strings s.task_name_map (s.tcb t).name m
  some (record s { task_id_map = ids; task_name_map = names; mallocs = m' })

-- `scheduler_remove_task`
pub remove_task : ℕ → Scheduler → Option Scheduler
unfolding forget remove_by_policy
remove_task t s = do
  s1 ← forget t s
  tree ← tree_remove (priority_key s1.tcb) s1.priority_tree t
  remove_by_policy s1.current_policy t (record s1 { priority_tree = tree })

-- `set_preemption_mode`; `disable_preemption` and `enable_preemption` call it with 0 and 1
pub set_preemption_mode : ℕ → Scheduler → Scheduler
set_preemption_mode mode s = record s { preemption_mode = mode }
