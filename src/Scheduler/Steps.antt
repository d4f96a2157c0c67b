-- ===== src/Scheduler/Steps.antt =====
-- mini_rtos/src/scheduler.c: what `scheduler_remove_task` and `scheduler_add_task` do under `SCHED_PRIORITY`,
-- the only policy that the code ever sets, where memory suffices.
use self_mini_os.Common.{
  ℕ, ◌+◌, ◌-◌, u32_max, ◌*◌, ◌^◌, ◌<◌, ◌≡◌, refl, ap, ◌∙◌, true, Option, some, List, [], ◌>>=◌,
  arith, u32_mod, All,
}
use self_mini_os.RbTree.{RbTree, inorder, insert as rb_insert}
use self_mini_os.RbTree.Contents.{insert_after}
use self_mini_os.RbTree.Query.{In}
use self_mini_os.HashTable.{HashTable}
use self_mini_os.HashTable.Hashes.{ints, strings, hashes_fit}
use self_mini_os.Scheduler.{
  priority_based, Scheduler, priority_key, tree_add, word_bytes, add_by_policy, add_task,
  remove_by_policy, remove_task,
}
use self_mini_os.Scheduler.Nodes.{Lacks, without}
use self_mini_os.Scheduler.Queues.{IsQueue, tree_add_lem, tree_remove_lem}
use self_mini_os.Scheduler.Tables.{IsTable, Dropped, table_remove-Dropped}

-- a state of the scheduler in which memory suffices
pub record IsScheduler (s : Scheduler) : Type 0 where
  pub queue : IsQueue (priority_key s.tcb) s.priority_tree
  pub policy : s.current_policy ≡ priority_based
  pub ids : IsTable ints s.task_id_map
  pub names : IsTable strings s.task_name_map
  pub memory : s.mallocs ≡ []

abbrev pub nodes : Scheduler → List (ℕ × ℕ)
nodes s = inorder s.priority_tree.root

-- `t` stands in the tree under its key
abbrev pub Listed : ℕ → Scheduler → Type 0
Listed t s = In (priority_key s.tcb t, t) (nodes s)

-- the ids that `task_create` gives, and priorities of a byte
pub record HasIds (s : Scheduler) : Type 0 where
  pub bound : All (λ y. ((s.tcb y.1).priority < 256) × ((s.tcb y.1).id < 2 ^ 24)) (nodes s)
  pub unique :
      (x y : ℕ × ℕ) → In x (nodes s) → In y (nodes s) → (s.tcb x.1).id ≡ (s.tcb y.1).id → x.1 ≡ y.1

pub key_inj :
    (p i q j : ℕ)
    → p < 256
    → i < 2 ^ 24
    → q < 256
    → j < 2 ^ 24
    → u32_max - (p * 2 ^ 24 + i) ≡ u32_max - (q * 2 ^ 24 + j)
    → i ≡ j
key_inj p i q j a b c d e = omega arith

-- the state with other tables and another tree
abbrev pub refit : Scheduler → Option HashTable → Option HashTable → RbTree ℕ → Scheduler
refit s ids names tree = record s {
  task_id_map = ids;
  task_name_map = names;
  mallocs = [];
  priority_tree = tree;
}

pub record Left (t : ℕ) (s : Scheduler) (ids names : Option HashTable) (tree : RbTree ℕ)
    : Type 0 where
  pub queue : IsQueue (priority_key s.tcb) tree
  pub contents : inorder tree.root ≡ without (priority_key s.tcb t) (nodes s)
  pub size : tree.size + 1 ≡ s.priority_tree.size
  pub id_gone : Dropped ints hashes_fit.1 s.task_id_map (word_bytes (s.tcb t).id) ids
  pub name_gone : Dropped strings hashes_fit.0 s.task_name_map (s.tcb t).name names

pub remove_task-Left :
    (t : ℕ) (s : Scheduler)
    → IsScheduler s
    → Listed t s
    → (ids : Option HashTable) × (names : Option HashTable) × (tree : RbTree ℕ) × (remove_task t s
        ≡ some (refit s ids names tree))
      × Left t s ids names tree
unfolding remove_task
remove_task-Left t s v m =
    let (ids, run, drop) =
      table_remove-Dropped ints hashes_fit.1 s.task_id_map (word_bytes (s.tcb t).id) s.mallocs v.ids
        v.memory in
    let (names, run', drop') =
      table_remove-Dropped strings hashes_fit.0 s.task_name_map (s.tcb t).name [] v.names refl in
    let (tree, run'', q, contents, size) =
      tree_remove_lem (priority_key s.tcb) s.priority_tree t v.queue m in
    (
      ids,
      names,
      tree,
      rw (run, ◌>>=◌, run', ◌>>=◌, run'', ◌>>=◌)
          (ap (λ p. remove_by_policy p t (refit s ids names tree)) v.policy),
      record { queue = q; contents = contents; size = size; id_gone = drop; name_gone = drop' },
    )

pub add_task-Queued :
    (t : ℕ) (s : Scheduler)
    → IsQueue (priority_key s.tcb) s.priority_tree
    → s.current_policy ≡ priority_based
    → s.mallocs ≡ []
    → s.priority_tree.size + 2 < u32_mod
    → Lacks (priority_key s.tcb t) (nodes s)
    → (tree : RbTree ℕ) × (add_task t s ≡ some (record s { priority_tree = tree; mallocs = [] }))
      × IsQueue (priority_key s.tcb) tree
      × (inorder tree.root ≡ insert_after (priority_key s.tcb t, t) (nodes s))
      × (tree.size ≡ s.priority_tree.size + 1)
unfolding add_task
add_task-Queued t s q policy memory room out =
    let (tree, run, q', contents, size) =
      tree_add_lem (priority_key s.tcb) s.priority_tree t s.mallocs q room memory out in
    (
      tree,
      rw (run, ◌>>=◌)
          (ap (λ p. add_by_policy p t (record s { priority_tree = tree; mallocs = [] })) policy),
      q',
      contents,
      size,
    )

-- `scheduler_add_task`, whatever the tree holds
pub add_task-insert :
    (t : ℕ) (s : Scheduler) (tree : RbTree ℕ)
    → s.current_policy ≡ priority_based
    → s.mallocs ≡ []
    → rb_insert (priority_key s.tcb) s.priority_tree t true ≡ some tree
    → add_task t s ≡ some (record s { priority_tree = tree; mallocs = [] })
unfolding add_task tree_add
add_task-insert t s tree policy memory run =
    let added : tree_add (priority_key s.tcb) s.priority_tree t s.mallocs ≡ some (tree, []) =
      ap (tree_add (priority_key s.tcb) s.priority_tree t) memory ∙ rw (run, ◌>>=◌) refl in
    rw (added, ◌>>=◌)
      (ap (λ p. add_by_policy p t (record s { priority_tree = tree; mallocs = [] })) policy)
