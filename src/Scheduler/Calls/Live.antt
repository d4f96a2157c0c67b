-- ===== src/Scheduler/Calls/Live.antt =====
-- mini_rtos/src/scheduler.c: the states of the control blocks under the calls.
use self_mini_os.Common.{
  add32, ℕ, zero, suc, ◌+◌, ◌%◌, ◌^◌, ◌≡◌, refl, sym, ap, ◌∙◌, inl, inr, Bool, true, false, not,
  Option, none, some, List, leb, ◌==◌, ◌>>=◌, if◌then◌else◌, Bool-cases,
}
use mathlib.Core.Option.{some-injective}
use self_mini_os.HashTable.{create as ht_create}
use self_mini_os.Traffic.{Traffic, enqueue_task, dequeue_task}
use self_mini_os.Scheduler.{
  ready, running, blocked, suspended, Tcb, Scheduler, change, add_task, remove_task,
  set_preemption_mode, tree_add, priority_key, has_flag, flag_inherited,
}
use self_mini_os.Scheduler.Tasks.{
  task_create, task_suspend, task_resume, task_delay, process_blocked_tasks, process_from,
  schedule_next_task, task_yield, yield_from, scheduler_init, init_state, add_idle, max_tasks,
  scheduler_start, scheduler_shutdown, get_next_task, push_blocked, unlink_blocked, wake,
}
use self_mini_os.Scheduler.Tasks.Live.{add_task-SameTcb, remove_task-SameTcb, SameTcb-map}
use self_mini_os.Scheduler.Tasks.Create.{task_create-refuses}
use self_mini_os.Scheduler.Inherit.{inherit_priority, release_inherited_priority, lend, give_back}
use self_mini_os.Scheduler.Calls.{
  Call, Calls, init, create, suspend, resume, delay, process, inherit, release, schedule, yield,
  start, shutdown, preempt, traffic, no_call, then_call,
}
use self_mini_os.Scheduler.Calls.States.{
  AllUsed, same-AllUsed, states-AllUsed, change-AllUsed, Leaves, Leaves-some, Leaves-then,
  SameTcb-Leaves, push-state, unlink-state, lend-state, give_back-state, Leaves-join,
}

wake-Leaves : (t : ℕ) (s : Scheduler) → AllUsed s → Leaves (wake t s)
unfolding wake
wake-Leaves t s v =
    let s1 : Scheduler = change (λ b. record b { state = ready }) t (unlink_blocked t s) in
    SameTcb-Leaves s1 (add_task t s1) (add_task-SameTcb t s1) (
      change-AllUsed (λ b. record b { state = ready }) t (unlink_blocked t s) (λ e. cc e)
        (states-AllUsed s (unlink_blocked t s) (λ u. unlink-state t u s) v))

process-Leaves :
    (fuel now : ℕ) (h : Option ℕ) (s : Scheduler) → AllUsed s → Leaves (process_from fuel now h s)
unfolding process_from
process-Leaves fuel now none s v = Leaves-some s v
process-Leaves zero now (some t) s v = record { used = λ s' e. cc e }
process-Leaves (suc fuel) now (some t) s v =
    let first : Leaves (if leb (s.tcb t).deadline now then wake t s else some s) =
      elim (Bool-cases (leb (s.tcb t).deadline now)) [
        | inl e ↦ rw e (wake-Leaves t s v)
        | inr e ↦ rw e (Leaves-some s v)
      ] in
    Leaves-then (if leb (s.tcb t).deadline now then wake t s else some s)
      (λ z. process_from fuel now (s.tc.next t) z) first
      (λ z w. process-Leaves fuel now (s.tc.next t) z w)

-- the end of `schedule_next_task`, by what `tc_dequeue_task` returns
abbrev scheduled : Bool → Option ℕ → Traffic → Scheduler → Scheduler
scheduled b next tc s = if not b then s else elim next [
  | none ↦ record s { tc = tc }
  | some t ↦
      let run =
        λ (b : Tcb). record b { state = running; num_activations = add32 b.num_activations 1 } in
      let s1 = change run t s in
      record s1 {
        tc = tc;
        current_task = some t;
        stats = record s1.stats { context_switches = add32 s1.stats.context_switches 1 };
      }
]

scheduled-AllUsed :
    (b : Bool) (next : Option ℕ) (tc : Traffic) (s : Scheduler)
    → AllUsed s
    → AllUsed (scheduled b next tc s)
scheduled-AllUsed false next tc s v = v
scheduled-AllUsed true none tc s v = v
scheduled-AllUsed true (some t) tc s v =
    change-AllUsed (λ b. record b { state = running; num_activations = add32 b.num_activations 1 })
      t s (λ q. cc q) v

schedule-AllUsed : (s : Scheduler) → AllUsed s → AllUsed (schedule_next_task s)
unfolding schedule_next_task
schedule-AllUsed s v =
    scheduled-AllUsed s.tc.initialized (dequeue_task s.tc).0 (dequeue_task s.tc).1 s v

yield-Leaves : (current : Option ℕ) (s : Scheduler) → AllUsed s → Leaves (yield_from current s)
unfolding yield_from
yield-Leaves none s v = Leaves-some (schedule_next_task s) (schedule-AllUsed s v)
yield-Leaves (some t) s v =
    let rest = λ (b : Tcb). record b { ticks_remaining = b.time_slice; state = ready } in
    let s1 : Scheduler = change rest t s in
    Leaves-then (add_task t s1) (λ z. some (schedule_next_task z))
      (SameTcb-Leaves s1 (add_task t s1) (add_task-SameTcb t s1)
        (change-AllUsed rest t s (λ e. cc e) v))
      (λ z w. Leaves-some (schedule_next_task z) (schedule-AllUsed z w))

inherit-Leaves : (t u : ℕ) (s : Scheduler) → AllUsed s → Leaves (inherit_priority t u s)
unfolding inherit_priority
inherit-Leaves t u s v = elim (Bool-cases (leb (s.tcb u).priority (s.tcb t).priority)) [
  | inl e ↦ rw e (Leaves-some s v)
  | inr e ↦ rw e (
      Leaves-then (remove_task t s)
        (λ s1. add_task t (lend t u s1) >>= (λ s2. some (record s2 {
          stats = record s2.stats {
            priority_inversions = (s2.stats.priority_inversions + 1) % 2 ^ 32;
          };
        })))
        (SameTcb-Leaves s (remove_task t s) (remove_task-SameTcb t s) v)
        (λ s1 w.
          let s2 : Scheduler = lend t u s1 in
          Leaves-then (add_task t s2)
            (λ s3. some (record s3 {
              stats = record s3.stats {
                priority_inversions = (s3.stats.priority_inversions + 1) % 2 ^ 32;
              };
            }))
            (SameTcb-Leaves s2 (add_task t s2) (add_task-SameTcb t s2)
              (states-AllUsed s1 s2 (λ i. lend-state t u i s1) w))
            (λ s3 x. record {
              used = λ s' q.
                  same-AllUsed s3 s' (ap (λ (z : Scheduler). z.tcb) (sym (some-injective _ s' q)))
                    x;
            })))
]

release-Leaves : (t : ℕ) (s : Scheduler) → AllUsed s → Leaves (release_inherited_priority t s)
unfolding release_inherited_priority
release-Leaves t s v = elim (Bool-cases (has_flag flag_inherited (s.tc.flags t))) [
  | inr e ↦ rw e (Leaves-some s v)
  | inl e ↦ rw e (
      Leaves-then (remove_task t s) (λ s1. add_task t (give_back t s1))
        (SameTcb-Leaves s (remove_task t s) (remove_task-SameTcb t s) v)
        (λ s1 w.
          SameTcb-Leaves (give_back t s1) (add_task t (give_back t s1))
            (add_task-SameTcb t (give_back t s1))
            (states-AllUsed s1 (give_back t s1) (λ i. give_back-state t i s1) w)))
]

delay-Leaves :
    (ticks now : ℕ) (s s' : Scheduler) (b : Bool)
    → AllUsed s
    → task_delay ticks now s ≡ some (b, s')
    → AllUsed s'
unfolding task_delay
delay-Leaves zero now s s' b v e =
    same-AllUsed s s'
      (ap (λ (z : Bool × Scheduler). z.1.tcb) (sym (some-injective (false, s) (b, s') e))) v
delay-Leaves (suc ticks) now s s' b v e = go s.current_task e
  where
    delayed : ℕ → Scheduler
    delayed t =
        push_blocked t
          (change (λ b. record b { state = blocked; deadline = add32 now (suc ticks) }) t s)

    delayed-AllUsed : (t : ℕ) → AllUsed (delayed t)
    delayed-AllUsed t =
        let f = λ (b : Tcb). record b { state = blocked; deadline = add32 now (suc ticks) } in
        states-AllUsed (change f t s) (delayed t) (λ u. push-state t u (change f t s))
          (change-AllUsed f t s (λ q. cc q) v)

    ended :
        (o : Option Scheduler)
        → Leaves o
        → ◌>>=◌ {B = Bool × Scheduler} o (λ z. some (true, z)) ≡ some (b, s')
        → AllUsed s'
    ended none l q = cc q
    ended (some z) l q =
        same-AllUsed z s'
          (ap (λ (y : Bool × Scheduler). y.1.tcb) (sym (some-injective (true, z) (b, s') q)))
          (l.used z refl)

    go :
        (o : Option ℕ)
        → (elim o as (λ x. Option (Bool × Scheduler)) [
          | none ↦ none
          | some t ↦ remove_task t (delayed t) >>= (λ z. some (true, z))
        ])
          ≡ some (b, s')
        → AllUsed s'
    go none q = cc q
    go (some t) q =
        ended (remove_task t (delayed t))
          (SameTcb-Leaves (delayed t) (remove_task t (delayed t))
            (remove_task-SameTcb t (delayed t)) (delayed-AllUsed t))
          q

resume-Leaves : (t now : ℕ) (s : Scheduler) → AllUsed s → Leaves (task_resume t now s)
unfolding task_resume
resume-Leaves t now s v =
    let s1 : Scheduler = change (λ b. record b { state = ready }) t s in
    SameTcb-Leaves s1 (enqueue_task s1.tc t now >>= (λ r. some (record s1 { tc = r.1 })))
      (SameTcb-map s1 (enqueue_task s1.tc t now) (λ r. record s1 { tc = r.1 }) (λ r. refl))
      (change-AllUsed (λ b. record b { state = ready }) t s (λ e. cc e) v)

start-Leaves : (nil_key : ℕ) (s : Scheduler) → AllUsed s → Leaves (scheduler_start nil_key s)
unfolding scheduler_start
start-Leaves nil_key s v = elim (Bool-cases (s.task_count == 0)) [
  | inl e ↦ rw e (Leaves-some s v)
  | inr e ↦ rw e (
      SameTcb-Leaves s
        (get_next_task nil_key s
          >>= (λ t. some (record s { next_task = some t; current_task = some t })))
        (SameTcb-map s (get_next_task nil_key s)
          (λ t. record s { next_task = some t; current_task = some t }) (λ t. refl))
        v)
]

-- the call itself changes nothing where no block is free
create-AllUsed :
    (slice : ℕ) (name : List ℕ) (has_entry : Bool) (priority stack_size : ℕ) (s s' : Scheduler)
    (task : Option ℕ)
    → AllUsed s
    → task_create slice name has_entry priority stack_size s ≡ some (task, s')
    → AllUsed s'
create-AllUsed slice name has_entry priority stack_size s s' task v e =
    let q =
      sym (task_create-refuses slice name has_entry priority stack_size s (λ i low. v i)) ∙ e in
    same-AllUsed s s'
      (ap (λ (z : Option ℕ × Scheduler). z.1.tcb) (sym (some-injective (none, s) (task, s') q))) v

idle-Leaves : (idle : Option ℕ) (s : Scheduler) → AllUsed s → Leaves (add_idle idle s)
unfolding add_idle
idle-Leaves none s v = Leaves-some s v
idle-Leaves (some t) s v =
    let s1 : Scheduler = change (λ b. record b { priority = 0 }) t s in
    SameTcb-Leaves s1
      (tree_add (priority_key s1.tcb) s1.priority_tree t s1.mallocs
        >>= (λ r. some (record s1 { priority_tree = r.0; mallocs = r.1; task_count = 1 })))
      (SameTcb-map s1 (tree_add (priority_key s1.tcb) s1.priority_tree t s1.mallocs)
        (λ r. record s1 { priority_tree = r.0; mallocs = r.1; task_count = 1 }) (λ r. refl))
      (change-AllUsed (λ b. record b { priority = 0 }) t s (v t) v)

init-Leaves :
    (clock : ℕ → ℕ) (idle : Option ℕ) (s : Scheduler)
    → AllUsed s
    → Leaves (scheduler_init clock idle s)
unfolding scheduler_init init_state
init-Leaves clock idle s v =
    Leaves-join (ht_create max_tasks s.mallocs)
      (λ a. ht_create max_tasks a.1 >>= (λ b. add_idle idle (init_state clock idle a.0 b.0 b.1 s)))
      (λ a.
        Leaves-join (ht_create max_tasks a.1)
          (λ b. add_idle idle (init_state clock idle a.0 b.0 b.1 s))
          (λ b. idle-Leaves idle (init_state clock idle a.0 b.0 b.1 s) v))

Call-AllUsed : (s s' : Scheduler) → Call s s' → AllUsed s → AllUsed s'
unfolding task_suspend process_blocked_tasks task_yield scheduler_shutdown set_preemption_mode
Call-AllUsed s s' (init clock idle e) v = (init-Leaves clock idle s v).used s' e
Call-AllUsed s s' (create {task = task} slice name has_entry priority stack_size e) v =
    create-AllUsed slice name has_entry priority stack_size s s' task v e
Call-AllUsed s s' (suspend t) v =
    change-AllUsed (λ b. record b { state = suspended }) t s (λ e. cc e) v
Call-AllUsed s s' (resume t now e) v = (resume-Leaves t now s v).used s' e
Call-AllUsed s s' (delay {switches = b} ticks now e) v = delay-Leaves ticks now s s' b v e
Call-AllUsed s s' (process fuel now e) v = (process-Leaves fuel now s.blocked_list s v).used s' e
Call-AllUsed s s' (inherit t u e) v = (inherit-Leaves t u s v).used s' e
Call-AllUsed s s' (release t e) v = (release-Leaves t s v).used s' e
Call-AllUsed s s' schedule v = schedule-AllUsed s v
Call-AllUsed s s' (yield e) v = (yield-Leaves s.current_task s v).used s' e
Call-AllUsed s s' (start nil_key e) v = (start-Leaves nil_key s v).used s' e
Call-AllUsed s s' shutdown v = v
Call-AllUsed s s' (preempt mode) v = v
Call-AllUsed s s' (traffic tc) v = v

Calls-AllUsed : (s s' : Scheduler) → Calls s s' → AllUsed s → AllUsed s'
Calls-AllUsed s s' no_call v = v
Calls-AllUsed s s' (then_call {z = z} r c) v = Call-AllUsed z s' c (Calls-AllUsed s z r v)

-- From a pool of control blocks that is all zeros, whose state is `TASK_READY`, no calls of the scheduler
-- that end, in any order, with any changes of traffic control between them, lead to a state in which
-- `task_create` makes a task: whatever it is asked for, it ends, returns null and changes nothing. The
-- block that `create_idle_task` may fill, which no file defines, is taken not to be marked as free.
pub task_create-refuses_always :
    (s s' : Scheduler) (slice : ℕ) (name : List ℕ) (has_entry : Bool) (priority stack_size : ℕ)
    → ((i : ℕ) → (s.tcb i).state ≡ ready)
    → Calls s s'
    → task_create slice name has_entry priority stack_size s' ≡ some (none, s')
task_create-refuses_always s s' slice name has_entry priority stack_size zeros r =
    let v = Calls-AllUsed s s' r (λ i e. cc (zeros i, e)) in
    task_create-refuses slice name has_entry priority stack_size s' (λ i low. v i)
