-- ===== src/Scheduler/Tasks/Delay.antt =====
-- mini_rtos/src/scheduler.c: what `task_delay` and `process_blocked_tasks` write.
use self_mini_os.Common.{
  ℕ, zero, suc, ◌<◌, ◌≤◌, ◌≡◌, refl, sym, ap, ◌∙◌, inl, inr, true, false, Option, none, some, List,
  [], ◌∷◌, leb, ◌==◌, ◌>>=◌, arith, All, length, add32, Option-cases,
}
use mathlib.Core.Path.{subst}
use mathlib.Core.Option.{some-injective}
use self_mini_os.Traffic.{assign}
use self_mini_os.Traffic.Chains.{count_in, Chain, assign_self}
use self_mini_os.Scheduler.{Tcb, Scheduler, ready, blocked, change, priority_key, remove_task}
use self_mini_os.Scheduler.Tasks.{push_blocked, unlink_blocked, task_delay, process_from}

-- the current task before it is taken out of the tree
abbrev pub delayed : ℕ → ℕ → ℕ → Scheduler → Scheduler
delayed t ticks now s =
    push_blocked t (change (λ b. record b { state = blocked; deadline = add32 now ticks }) t s)

module _ (t ticks now : ℕ) (s : Scheduler) where
  pub delayed-key : (u : ℕ) → priority_key (delayed t ticks now s).tcb u ≡ priority_key s.tcb u
  unfolding push_blocked priority_key
  delayed-key u = elim (Option-cases s.blocked_list) [
    | inl e ↦ rw e (ground arith)
    | inr (b, e) ↦ rw e (ground arith)
  ]

  pub delayed-deadline : ((delayed t ticks now s).tcb t).deadline ≡ add32 now ticks
  unfolding push_blocked
  delayed-deadline = elim (Option-cases s.blocked_list) [
    | inl e ↦ rw e (ground arith)
    | inr (b, e) ↦ rw e (ground arith)
  ]

  pub delayed_other :
      (u : ℕ) → (u == t) ≡ false → ((delayed t ticks now s).tcb u).deadline ≡ (s.tcb u).deadline
  unfolding push_blocked
  delayed_other u ne = elim (Option-cases s.blocked_list) [
    | inl e ↦ rw e (ground arith)
    | inr (b, e) ↦ rw e (ground arith)
  ]

  pub delayed-prev :
      ((b : ℕ) → s.blocked_list ≡ some b → (t == b) ≡ false)
      → ((delayed t ticks now s).tcb t).prev ≡ none
  unfolding push_blocked
  delayed-prev ne = elim (Option-cases s.blocked_list) [
    | inl e ↦ rw e (ground arith)
    | inr (b, e) ↦ rw e (ground (arith, ne b e))
  ]

-- the task that wakes up, before it is put back into the tree
abbrev pub woken : ℕ → Scheduler → Scheduler
woken t s = change (λ b. record b { state = ready }) t (unlink_blocked t s)

module _ (t : ℕ) (s : Scheduler) (front : (s.tcb t).prev ≡ none)
    (first : s.blocked_list ≡ some t) where
  pub woken-key : (u : ℕ) → priority_key (woken t s).tcb u ≡ priority_key s.tcb u
  unfolding unlink_blocked priority_key
  woken-key u = elim (Option-cases (s.tc.next t)) [
    | inl e ↦ ground (arith, front, first, e)
    | inr (b, e) ↦ ground (arith, front, first, e)
  ]

  pub woken-deadline : (u : ℕ) → ((woken t s).tcb u).deadline ≡ (s.tcb u).deadline
  unfolding unlink_blocked
  woken-deadline u = elim (Option-cases (s.tc.next t)) [
    | inl e ↦ ground (arith, front, first, e)
    | inr (b, e) ↦ ground (arith, front, first, e)
  ]

  pub woken-state : ((woken t s).tcb t).state ≡ ready
  unfolding unlink_blocked
  woken-state = ap (λ (b : Tcb). b.state) (assign_self (unlink_blocked t s).tcb t _)

  pub record Woken (s' : Scheduler) : Type 0 where
    pub tree : s'.priority_tree ≡ s.priority_tree
    pub policy : s'.current_policy ≡ s.current_policy
    pub memory : s'.mallocs ≡ s.mallocs
    pub ids : s'.task_id_map ≡ s.task_id_map
    pub names : s'.task_name_map ≡ s.task_name_map
    pub tc : s'.tc ≡ s.tc
    pub list : s'.blocked_list ≡ s.tc.next t

  pub woken-Woken : Woken (woken t s)
  unfolding unlink_blocked
  woken-Woken =
      let here : (t == t) ≡ true = ground arith in
      elim (Option-cases (s.tc.next t)) [
        | inl e ↦ record {
          tree = ground (arith, front, first, e, here);
          policy = ground (arith, front, first, e, here);
          memory = ground (arith, front, first, e, here);
          ids = ground (arith, front, first, e, here);
          names = ground (arith, front, first, e, here);
          tc = ground (arith, front, first, e, here);
          list = ground (arith, front, first, e, here);
        }
        | inr (b, e) ↦ record {
          tree = ground (arith, front, first, e, here);
          policy = ground (arith, front, first, e, here);
          memory = ground (arith, front, first, e, here);
          ids = ground (arith, front, first, e, here);
          names = ground (arith, front, first, e, here);
          tc = ground (arith, front, first, e, here);
          list = ground (arith, front, first, e, here);
        }
      ]

pub process_fuel :
    (now y n : ℕ) (s : Scheduler)
    → leb (s.tcb y).deadline now ≡ false
    → ((fuel : ℕ) → n ≤ fuel → process_from fuel now (s.tc.next y) s ≡ some s)
    → (fuel : ℕ) → suc n ≤ fuel
    → process_from fuel now (some y) s ≡ some s
unfolding process_from
process_fuel now y n s test rest zero le = absurd (omega (arith, le))
process_fuel now y n s test rest (suc fuel) le = rw (test, ◌>>=◌) (rest fuel (omega arith))

-- the loop of `process_blocked_tasks` over tasks whose time has not come
pub process_from-early :
    (now : ℕ) (ys : List ℕ) (h : Option ℕ) (s : Scheduler)
    → Chain s.tc.next h ys
    → All (λ y. now < (s.tcb y).deadline) ys
    → (fuel : ℕ) → length ys ≤ fuel
    → process_from fuel now h s ≡ some s
unfolding process_from
process_from-early now [] h s c late fuel le = ap (λ g. process_from fuel now g s) c
process_from-early now (y ∷ ys) h s c late fuel le =
    let rest = process_from-early now ys (s.tc.next y) s c.1 late.1 in
    let test : leb (s.tcb y).deadline now ≡ false = ground (arith, late.0) in
    ap (λ g. process_from fuel now g s) c.0 ∙ process_fuel now y (length ys) s test rest fuel le

pub record Delayed (t : ℕ) (s s' : Scheduler) : Type 0 where
  pub tree : s'.priority_tree ≡ s.priority_tree
  pub policy : s'.current_policy ≡ s.current_policy
  pub memory : s'.mallocs ≡ s.mallocs
  pub ids : s'.task_id_map ≡ s.task_id_map
  pub names : s'.task_name_map ≡ s.task_name_map
  pub next : s'.tc.next ≡ assign s.tc.next t s.blocked_list
  pub list : s'.blocked_list ≡ some t

pub delayed-Delayed : (t ticks now : ℕ) (s : Scheduler) → Delayed t s (delayed t ticks now s)
unfolding push_blocked
delayed-Delayed t ticks now s = elim (Option-cases s.blocked_list) [
  | inl e ↦ rw e (record {
    tree = refl;
    policy = refl;
    memory = refl;
    ids = refl;
    names = refl;
    next = refl;
    list = refl;
  })
  | inr (b, e) ↦ rw e (record {
    tree = refl;
    policy = refl;
    memory = refl;
    ids = refl;
    names = refl;
    next = refl;
    list = refl;
  })
]

pub late_kept :
    (now t : ℕ) (ys : List ℕ) (f g : ℕ → ℕ)
    → count_in t ys ≡ 0
    → ((u : ℕ) → (u == t) ≡ false → g u ≡ f u)
    → All (λ y. now < f y) ys
    → All (λ y. now < g y) ys
late_kept now t [] f g out same late = tt
late_kept now t (y ∷ ys) f g out same late =
    let ne : (y == t) ≡ false = ground arith in
    (omega (arith, same y ne, late.0), late_kept now t ys f g (ground arith) same late.1)

pub front_other :
    (t b : ℕ) (ys : List ℕ) (next : ℕ → Option ℕ) (h : Option ℕ)
    → Chain next h ys
    → count_in t ys ≡ 0
    → h ≡ some b
    → (t == b) ≡ false
front_other t b [] next h c out e = cc (c, e)
front_other t b (y ∷ ys) next h c out e =
    let ne : (t == y) ≡ false = ground arith in
    let same : y ≡ b = some-injective y b (sym c.0 ∙ e) in subst (λ z. (t == z) ≡ false) same ne

pub task_delay-current :
    (t ticks start : ℕ) (s : Scheduler)
    → 1 ≤ ticks
    → s.current_task ≡ some t
    → task_delay ticks start s
      ≡ (remove_task t (delayed t ticks start s) >>= (λ s'. some (true, s')))
unfolding task_delay
task_delay-current t zero start s le e = absurd (omega arith)
task_delay-current t (suc ticks) start s le e =
    ap
      (λ (o : Option ℕ). elim o [
        | none ↦ none
        | some u ↦ remove_task u (delayed u (suc ticks) start s) >>= (λ s'. some (true, s'))
      ])
      e
