-- ===== src/LoadBalancer.antt =====
-- mini_rtos/src/load_balancer.c and mini_rtos/include/load_balancer.h: the choice of a core for a task,
-- and the moves of tasks between cores. The operations take `lb_state.lock`, so each is one step; the
-- counters `next_core` and `lb_state` are one record. `none` stands for an access outside of
-- `core_metrics` and for a division by zero.
pub mod Moves
pub mod Choice
use self_mini_os.Common.{
  ℕ, suc, ◌+◌, ◌*◌, ◌/◌, ◌%◌, ◌^◌, Bool, true, false, not, ◌&&◌, ◌||◌, Option, none, some, List, [],
  ◌∷◌, length, get_elem?, set, take, ltb, leb, ◌==◌, if◌then◌else◌, add32, sub32, mul32, u32_mod,
  u32_max, ◌>>=◌, min, max,
}

-- `lb_policy_t`; `unknown` is any other value
pub data LbPolicy : Type 0 where
  round_robin least_loaded priority_aware memory_affinity thermal_aware hybrid unknown : LbPolicy

-- `core_metrics_t`
pub record CoreMetrics : Type 0 where
  pub cpu_usage : ℕ
  pub task_count : ℕ
  pub memory_pressure : ℕ
  pub cache_misses : ℕ
  pub temperature : ℕ
  pub power_consumption : ℕ

-- `task_requirements_t`
pub record TaskRequirements : Type 0 where
  pub priority : ℕ
  pub cpu_requirement : ℕ
  pub memory_requirement : ℕ
  pub deadline : ℕ
  pub realtime : Bool
  pub affinity_mask : ℕ

-- `lb_stats_t`
pub record LbStats : Type 0 where
  pub total_migrations : ℕ
  pub balanced_tasks : ℕ
  pub failed_balancing : ℕ
  pub policy_switches : ℕ
  pub thermal_throttling : ℕ
  pub deadline_misses : ℕ

-- `lb_config_t`
pub record LbConfig : Type 0 where
  pub policy : LbPolicy
  pub update_interval : ℕ
  pub migration_threshold : ℕ
  pub max_migrations : ℕ
  pub thermal_throttling : Bool
  pub dynamic_policy : Bool

-- `lb_state`, with the static `next_core` of `lb_balance_task`
pub record LbState : Type 0 where
  pub initialized : Bool
  pub config : LbConfig
  pub core_metrics : List CoreMetrics
  pub stats : LbStats
  pub active_cores : ℕ
  pub total_load : ℕ
  pub next_core : ℕ

abbrev pub thermal_threshold : ℕ
thermal_threshold = 85

abbrev pub memory_pressure_threshold : ℕ
memory_pressure_threshold = 90

abbrev pub load_imbalance_threshold : ℕ
load_imbalance_threshold = 20

-- a counter of 64 bits
abbrev pub count_up : ℕ → ℕ
count_up n = (n + 1) % 2 ^ 64

abbrev pub no_stats : LbStats
no_stats = record {
  total_migrations = 0;
  balanced_tasks = 0;
  failed_balancing = 0;
  policy_switches = 0;
  thermal_throttling = 0;
  deadline_misses = 0;
}

pub lb_init : LbState → LbConfig → Bool × LbState
lb_init s config = if s.initialized then (false, s) else (
  true,
  record s {
    initialized = true;
    config = config;
    stats = no_stats;
    active_cores = 0;
    total_load = 0;
  },
)

pub calculate_core_load : CoreMetrics → ℕ
calculate_core_load m =
    (m.cpu_usage * 4 + m.memory_pressure * 2 + m.temperature + m.task_count * 2) % u32_mod / 9

-- the cores that the loops visit
pub in_use : LbState → Option (List CoreMetrics)
in_use s =
    if leb s.active_cores (length s.core_metrics)
    then some (take s.active_cores s.core_metrics)
    else none

-- the loops that look for a least value, from the core `i` on; `none` is `continue`
pub scan : (ℕ → CoreMetrics → Option ℕ) → List CoreMetrics → ℕ → ℕ → ℕ → ℕ
scan value [] i best least = best
scan value (m ∷ ms) i best least = elim (value i m) [
  | none ↦ scan value ms (suc i) best least
  | some v ↦ elim (ltb v least) [
    | true ↦ scan value ms (suc i) i v
    | false ↦ scan value ms (suc i) best least
  ]
]

-- the body of the loop of `find_best_core`
pub task_load : TaskRequirements → ℕ → CoreMetrics → Option ℕ
unfolding calculate_core_load
task_load task i m =
    let load = calculate_core_load m in
    if not (task.affinity_mask / 2 ^ i % 2 == 1)
      || leb thermal_threshold m.temperature
      || leb memory_pressure_threshold m.memory_pressure
    then none
    else if ltb 0 task.priority
    then some (mul32 load (sub32 10 task.priority) / 10)
    else some load

pub find_best_core : TaskRequirements → List CoreMetrics → ℕ
find_best_core task cores = scan (task_load task) cores 0 0 u32_max

abbrev pub misses : ℕ → CoreMetrics → Option ℕ
misses i m = some m.cache_misses

abbrev pub coolness : ℕ → CoreMetrics → Option ℕ
coolness i m = if ltb m.temperature thermal_threshold then some m.temperature else none

-- the `switch` of `lb_balance_task`: the core, and `next_core` afterwards
pub target_core : LbPolicy → LbState → TaskRequirements → Option (ℕ × ℕ)
unfolding find_best_core
target_core round_robin s task =
    if s.active_cores == 0 then none else some (s.next_core % s.active_cores, add32 s.next_core 1)
target_core least_loaded s task =
    in_use s >>= (λ cores. some (find_best_core task cores, s.next_core))
target_core priority_aware s task =
    in_use s >>= (λ cores. some (find_best_core task cores, s.next_core))
target_core memory_affinity s task =
    in_use s >>= (λ cores. some (scan misses cores 0 0 u32_max, s.next_core))
target_core thermal_aware s task =
    in_use s >>= (λ cores. some (scan coolness cores 0 0 u32_max, s.next_core))
target_core hybrid s task = in_use s >>= (λ cores. some (find_best_core task cores, s.next_core))
target_core unknown s task = some (0, s.next_core)

pub balance_task : LbState → TaskRequirements → Option (ℕ × LbState)
balance_task s task = do
  (core, next) ← target_core s.config.policy s task
  m ← get_elem? s.core_metrics core
  let m' : CoreMetrics = record m {
    task_count = add32 m.task_count 1;
    cpu_usage = add32 m.cpu_usage task.cpu_requirement;
  }
  some (
    core,
    record s {
      core_metrics = set s.core_metrics core m';
      stats = record s.stats { balanced_tasks = count_up s.stats.balanced_tasks };
      next_core = next;
    },
  )
