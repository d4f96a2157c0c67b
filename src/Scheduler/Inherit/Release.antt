-- ===== src/Scheduler/Inherit/Release.antt =====
-- mini_rtos/src/scheduler.c: what `release_inherited_priority` leaves.
use self_mini_os.Common.{
  ℕ, ◌+◌, ◌*◌, ◌-◌, ◌^◌, ◌≡◌, ◌≢◌, refl, sym, ap, ap₂, ◌∙◌, Bool, true, not, Option, none, some,
  List, [], ◌>>=◌, arith, if◌then◌else◌, u32_max,
}
use mathlib.Core.Path.{subst}
use self_mini_os.RbTree.{RbTree, inorder}
use self_mini_os.RbTree.Contents.{insert_after}
use self_mini_os.HashTable.Hashes.{ints, strings}
use self_mini_os.Scheduler.{
  Tcb, Scheduler, priority_key, word_bytes, add_task, has_flag, clear_flag, flag_inherited,
}
use self_mini_os.Scheduler.Nodes.{Lacks, without, Lacks-without}
use self_mini_os.Scheduler.Queues.{IsQueue, rekey}
use self_mini_os.Scheduler.Tables.{IsTable, look}
use self_mini_os.Scheduler.Steps.{
  IsScheduler, nodes, Listed, refit, remove_task-Left, add_task-Queued,
}
use self_mini_os.Scheduler.Inherit.{give_back, release_inherited_priority}
use self_mini_os.Scheduler.Inherit.Writes.{
  give_back-task, give_back-key, give_back-Kept, give_back-flags,
}

-- the key with the priority that a task had before
abbrev pub own_key : Scheduler → ℕ → ℕ
own_key s t = u32_max - ((s.tcb t).original_priority * 2 ^ 24 + (s.tcb t).id)

if_not : {A : Type 0} (b : Bool) (x y : A) → b ≡ true → (if not b then x else y) ≡ y
if_not b x y e = rw e refl

pub record Released (t : ℕ) (s s' : Scheduler) : Type 0 where
  pub run : release_inherited_priority t s ≡ some s'
  pub valid : IsScheduler s'
  pub priority : (s'.tcb t).priority ≡ (s.tcb t).original_priority
  pub flags : s'.tc.flags t ≡ clear_flag flag_inherited (s.tc.flags t)
  pub contents : nodes s' ≡ insert_after (own_key s t, t) (without (priority_key s.tcb t) (nodes s))
  pub forgotten : look ints s'.task_id_map (word_bytes (s.tcb t).id) ≡ none

pub release-Released :
    (t b : ℕ) (s : Scheduler)
    → IsScheduler s
    → Listed t s
    → has_flag flag_inherited (s.tc.flags t) ≡ true
    → (s.tcb t).blocking ≡ some b
    → b ≢ t
    → Lacks (own_key s t) (without (priority_key s.tcb t) (nodes s))
    → (s' : Scheduler) × Released t s s'
unfolding release_inherited_priority priority_key
release-Released t b s v m marked owes ne out =
    let (ids, names, tree, run, left) = remove_task-Left t s v m in
    let s1 : Scheduler = refit s ids names tree in
    let s2 : Scheduler = give_back t s1 in
    let back = give_back-task t b s1 ne owes in
    let kept = give_back-Kept t s1 in
    let key2 : priority_key s2.tcb t ≡ own_key s t =
      ap (λ (c : Tcb). u32_max - (c.priority * 2 ^ 24 + c.id)) back in
    let q =
      rekey (priority_key s.tcb) (priority_key s2.tcb) t tree left.queue
        (subst (Lacks (priority_key s.tcb t)) (sym left.contents)
          (Lacks-without (priority_key s.tcb t) (nodes s)))
        (λ u d. give_back-key t b u s1 owes d) in
    let same : nodes s2 ≡ without (priority_key s.tcb t) (nodes s) =
      ap (λ (x : RbTree ℕ). inorder x.root) kept.tree ∙ left.contents in
    let size : s2.priority_tree.size ≡ tree.size = ap (λ (x : RbTree ℕ). x.size) kept.tree in
    let (tree', run', q', contents, size') =
      add_task-Queued t s2 (subst (IsQueue (priority_key s2.tcb)) (sym kept.tree) q)
        (kept.policy ∙ v.policy) kept.memory (omega (arith, size, left.size, v.queue.small))
        (subst (λ k. Lacks k (nodes s2)) (sym key2) (subst (Lacks (own_key s t)) (sym same) out)) in
    (
      record s2 { priority_tree = tree'; mallocs = [] },
      record {
        run =
            if_not (has_flag flag_inherited (s.tc.flags t)) (some s) _ marked
            ∙ ap (λ (o : Option Scheduler). o >>= (λ z. add_task t (give_back t z))) run
            ∙ run';
        valid = record {
          queue = q';
          policy = kept.policy ∙ v.policy;
          ids = subst (IsTable ints) (sym kept.ids) left.id_gone.valid;
          names = subst (IsTable strings) (sym kept.names) left.name_gone.valid;
          memory = refl;
        };
        priority = ap (λ (c : Tcb). c.priority) back;
        flags = give_back-flags t s1;
        contents = contents ∙ ap₂ (λ (k : ℕ) (xs : List (ℕ × ℕ)). insert_after (k, t) xs) key2 same;
        forgotten = ap (λ x. look ints x (word_bytes (s.tcb t).id)) kept.ids ∙ left.id_gone.gone;
      },
    )
