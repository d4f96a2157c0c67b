-- ===== src/Scheduler/Tasks/Live.antt =====
-- mini_rtos/src/scheduler.c: `scheduler_add_task` and `scheduler_remove_task` against the control blocks.
use self_mini_os.Common.{
  ℕ, ◌≡◌, refl, sym, ap, ◌∙◌, inl, inr, Bool, Option, none, some, List, ◌>>=◌, Bool-cases,
}
use mathlib.Core.Option.{some-injective}
use self_mini_os.HashTable.Hashes.{ints, strings}
use self_mini_os.Scheduler.{
  table_remove, tree_remove, priority_key, word_bytes, has_flag, flag_deadline, SchedPolicy,
  priority_based, round_robin, earliest_deadline, hybrid, Scheduler, add_task, add_priority,
  add_deadline, add_rr, add_by_policy, remove_task, remove_by_policy, remove_deadline, remove_rr,
  forget,
}

-- whatever state a call leaves, it has the control blocks of `s`
pub record SameTcb (s : Scheduler) (o : Option Scheduler) : Type 0 where
  pub same : (s' : Scheduler) → o ≡ some s' → s'.tcb ≡ s.tcb

SameTcb-refl : (s z : Scheduler) → z.tcb ≡ s.tcb → SameTcb s (some z)
SameTcb-refl s z e = record {
  same = λ s' q. ap (λ (y : Scheduler). y.tcb) (sym (some-injective z s' q)) ∙ e;
}

SameTcb-join :
    {A : Type 0} (s : Scheduler) (o : Option A) (f : A → Option Scheduler)
    → ((a : A) → SameTcb s (f a))
    → SameTcb s (o >>= f)
SameTcb-join s none f h = record { same = λ s' q. cc q }
SameTcb-join s (some a) f h = h a

pub SameTcb-map :
    {A : Type 0} (s : Scheduler) (o : Option A) (f : A → Scheduler)
    → ((a : A) → (f a).tcb ≡ s.tcb)
    → SameTcb s (o >>= (λ a. some (f a)))
SameTcb-map s o f h = SameTcb-join s o (λ a. some (f a)) (λ a. SameTcb-refl s (f a) (h a))

SameTcb-again : (s z : Scheduler) (o : Option Scheduler) → z.tcb ≡ s.tcb → SameTcb z o → SameTcb s o
SameTcb-again s z o e h = record { same = λ s' q. h.same s' q ∙ e }

SameTcb-then :
    (s : Scheduler) (o : Option Scheduler) (g : Scheduler → Option Scheduler)
    → SameTcb s o
    → ((z : Scheduler) → SameTcb z (g z))
    → SameTcb s (o >>= g)
SameTcb-then s none g h k = record { same = λ s' q. cc q }
SameTcb-then s (some z) g h k = SameTcb-again s z (g z) (h.same z refl) (k z)

add_deadline-SameTcb : (t : ℕ) (s : Scheduler) → SameTcb s (add_deadline t s)
unfolding add_deadline
add_deadline-SameTcb t s = elim (Bool-cases (has_flag flag_deadline (s.tc.flags t))) [
  | inl e ↦ rw e (SameTcb-map s _ _ (λ a. refl))
  | inr e ↦ rw e (SameTcb-refl s s refl)
]

add_rr-SameTcb : (t : ℕ) (s : Scheduler) → SameTcb s (add_rr t s)
unfolding add_rr
add_rr-SameTcb t s = SameTcb-map s _ _ (λ a. refl)

add_by_policy-SameTcb : (p : SchedPolicy) (t : ℕ) (s : Scheduler) → SameTcb s (add_by_policy p t s)
unfolding add_by_policy
add_by_policy-SameTcb priority_based t s = SameTcb-refl s s refl
add_by_policy-SameTcb earliest_deadline t s = add_deadline-SameTcb t s
add_by_policy-SameTcb round_robin t s = add_rr-SameTcb t s
add_by_policy-SameTcb hybrid t s =
    SameTcb-then s (add_rr t s) (add_deadline t) (add_rr-SameTcb t s) (add_deadline-SameTcb t)

pub add_task-SameTcb : (t : ℕ) (s : Scheduler) → SameTcb s (add_task t s)
unfolding add_task add_priority
add_task-SameTcb t s =
    SameTcb-then s (add_priority t s) (add_by_policy s.current_policy t)
      (SameTcb-map s _ _ (λ a. refl)) (add_by_policy-SameTcb s.current_policy t)

remove_deadline-SameTcb : (t : ℕ) (s : Scheduler) → SameTcb s (remove_deadline t s)
unfolding remove_deadline
remove_deadline-SameTcb t s = SameTcb-map s _ _ (λ a. refl)

remove_rr-SameTcb : (t : ℕ) (s : Scheduler) → SameTcb s (remove_rr t s)
unfolding remove_rr
remove_rr-SameTcb t s = SameTcb-map s _ _ (λ a. refl)

remove_by_policy-SameTcb :
    (p : SchedPolicy) (t : ℕ) (s : Scheduler) → SameTcb s (remove_by_policy p t s)
unfolding remove_by_policy
remove_by_policy-SameTcb priority_based t s = SameTcb-refl s s refl
remove_by_policy-SameTcb earliest_deadline t s = remove_deadline-SameTcb t s
remove_by_policy-SameTcb round_robin t s = remove_rr-SameTcb t s
remove_by_policy-SameTcb hybrid t s =
    SameTcb-then s (remove_rr t s) (remove_deadline t) (remove_rr-SameTcb t s)
      (remove_deadline-SameTcb t)

forget-SameTcb : (t : ℕ) (s : Scheduler) → SameTcb s (forget t s)
unfolding forget
forget-SameTcb t s =
    let names = λ (m : List Bool). table_remove strings s.task_name_map (s.tcb t).name m in
    SameTcb-join s (table_remove ints s.task_id_map (word_bytes (s.tcb t).id) s.mallocs)
      (λ a.
        names a.1
        >>= (λ b. some (record s { task_id_map = a.0; task_name_map = b.0; mallocs = b.1 })))
      (λ a.
        SameTcb-map s (names a.1)
          (λ b. record s { task_id_map = a.0; task_name_map = b.0; mallocs = b.1 }) (λ b. refl))

pub remove_task-SameTcb : (t : ℕ) (s : Scheduler) → SameTcb s (remove_task t s)
unfolding remove_task
remove_task-SameTcb t s =
    SameTcb-then s (forget t s)
      (λ z.
        tree_remove (priority_key z.tcb) z.priority_tree t
        >>= (λ tree. remove_by_policy z.current_policy t (record z { priority_tree = tree })))
      (forget-SameTcb t s)
      (λ z.
        SameTcb-join z (tree_remove (priority_key z.tcb) z.priority_tree t)
          (λ tree. remove_by_policy z.current_policy t (record z { priority_tree = tree }))
          (λ tree.
            SameTcb-again z (record z { priority_tree = tree })
              (remove_by_policy z.current_policy t (record z { priority_tree = tree })) refl
              (remove_by_policy-SameTcb z.current_policy t (record z { priority_tree = tree }))))
