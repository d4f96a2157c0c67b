-- ===== src/LoadBalancer/Moves/Idle.antt =====
-- mini_rtos/src/load_balancer.c: `lb_init`, and `lb_balance_task` with no core in use.
use self_mini_os.Common.{
  ℕ, ◌<◌, ◌≡◌, ◌∙◌, refl, sym, ap, ◌⊎◌, inl, inr, Bool, true, false, Option, none, some, length,
  if◌then◌else◌, arith, u32_max, ◌>>=◌,
}
use mathlib.Core.Path.{subst}
use self_mini_os.LoadBalancer.{
  lb_init, LbConfig, no_stats, LbPolicy, round_robin, least_loaded, priority_aware, memory_affinity,
  thermal_aware, hybrid, unknown, CoreMetrics, TaskRequirements, LbState, in_use, scan, target_core,
  balance_task, misses, coolness, task_load,
}
use self_mini_os.LoadBalancer.Moves.Balance.{in_use-some, Keeps, balance_task-Keeps}

if_true : {A : Type 0} (b : Bool) (x y : A) → b ≡ true → (if b then x else y) ≡ x
if_true b x y e = rw e refl

-- the loops over no core
idle :
    (value : ℕ → CoreMetrics → Option ℕ) (s : LbState)
    → s.active_cores ≡ 0
    → ◌>>=◌ {B = ℕ × ℕ} (in_use s) (λ cores. some (scan value cores 0 0 u32_max, s.next_core))
      ≡ some (0, s.next_core)
unfolding scan
idle value s none_used = rw (in_use-some s (omega arith), ◌>>=◌, none_used) refl

pub target_core-idle :
    (policy : LbPolicy) (s : LbState) (task : TaskRequirements)
    → s.active_cores ≡ 0
    → ((policy ≡ round_robin) × (target_core policy s task ≡ none))
      ⊎ (target_core policy s task ≡ some (0, s.next_core))
unfolding target_core
target_core-idle round_robin s task e = inl (refl, rw e refl)
target_core-idle unknown s task e = inr refl
target_core-idle memory_affinity s task e = inr (idle misses s e)
target_core-idle thermal_aware s task e = inr (idle coolness s e)
target_core-idle least_loaded s task e = inr (idle (task_load task) s e)
target_core-idle priority_aware s task e = inr (idle (task_load task) s e)
target_core-idle hybrid s task e = inr (idle (task_load task) s e)

-- what `lb_balance_task` does with no core in use: by the round robin policy it divides by zero, and by any
-- other it gives the task to core 0, with one task more in all
abbrev pub IdleChoice : LbPolicy → LbState → Option (ℕ × LbState) → Type 0
IdleChoice round_robin s r = r ≡ none
IdleChoice _ s r = (s' : LbState) × (r ≡ some (0, s')) × Keeps s.core_metrics s'.core_metrics 1

balance_task-IdleChoice :
    (policy : LbPolicy) (s : LbState) (task : TaskRequirements)
    → s.config.policy ≡ policy
    → s.active_cores ≡ 0
    → 0 < length s.core_metrics
    → IdleChoice policy s (balance_task s task)
unfolding balance_task target_core
balance_task-IdleChoice round_robin s task e none_used some_core = rw (e, none_used, ◌>>=◌) refl
balance_task-IdleChoice unknown s task e none_used some_core =
    balance_task-Keeps s task 0 s.next_core (ap (λ p. target_core p s task) e) some_core
balance_task-IdleChoice memory_affinity s task e none_used some_core =
    balance_task-Keeps s task 0 s.next_core
      (ap (λ p. target_core p s task) e ∙ idle misses s none_used) some_core
balance_task-IdleChoice thermal_aware s task e none_used some_core =
    balance_task-Keeps s task 0 s.next_core
      (ap (λ p. target_core p s task) e ∙ idle coolness s none_used) some_core
balance_task-IdleChoice least_loaded s task e none_used some_core =
    balance_task-Keeps s task 0 s.next_core
      (ap (λ p. target_core p s task) e ∙ idle (task_load task) s none_used) some_core
balance_task-IdleChoice priority_aware s task e none_used some_core =
    balance_task-Keeps s task 0 s.next_core
      (ap (λ p. target_core p s task) e ∙ idle (task_load task) s none_used) some_core
balance_task-IdleChoice hybrid s task e none_used some_core =
    balance_task-Keeps s task 0 s.next_core
      (ap (λ p. target_core p s task) e ∙ idle (task_load task) s none_used) some_core

lb_init-fresh :
    (s : LbState) (config : LbConfig)
    → s.initialized ≡ false
    → (lb_init s config).1 ≡ record s {
      initialized = true;
      config = config;
      stats = no_stats;
      active_cores = 0;
      total_load = 0;
    }
unfolding lb_init
lb_init-fresh s config fresh = rw fresh refl

lb_init-twice :
    (s : LbState) (config : LbConfig) → s.initialized ≡ true → lb_init s config ≡ (false, s)
unfolding lb_init
lb_init-twice s config used = if_true s.initialized _ _ used

-- The first lb_init leaves no core in use. A call of lb_balance_task, with at least one core in the table,
-- then divides by zero by the round robin policy, and by any other gives the task to core 0, and the
-- tasks of all the cores, as a word of 32 bits, become one more. A second lb_init returns false and
-- changes nothing.
pub lb_init_lem :
    (s : LbState) (config other : LbConfig) (task : TaskRequirements)
    → s.initialized ≡ false
    → 0 < length s.core_metrics
    → let s1 = (lb_init s config).1 in
      (s1.active_cores ≡ 0)
      × (lb_init s1 other ≡ (false, s1))
      × IdleChoice config.policy s1 (balance_task s1 task)
lb_init_lem s config other task fresh some_core =
    let begun = lb_init-fresh s config fresh in
    (
      ap (λ z. z.active_cores) begun,
      lb_init-twice (lb_init s config).1 other (ap (λ z. z.initialized) begun),
      balance_task-IdleChoice config.policy (lb_init s config).1 task
          (ap (λ z. z.config.policy) begun) (ap (λ z. z.active_cores) begun)
          (subst (λ cores. 0 < length cores) (sym (ap (λ z. z.core_metrics) begun)) some_core),
    )
