-- ===== src/LoadBalancer/Moves.antt =====
-- mini_rtos/src/load_balancer.c: the operations that move tasks between cores, or read and write the
-- metrics and the configuration. `handle_thermal_event` is `lb_handle_thermal_event`, and so on.
pub mod Balance
pub mod Conserved
pub mod Idle
mod Tests
use self_mini_os.Common.{
  ℕ, suc, ◌+◌, ◌*◌, ◌/◌, ◌%◌, ◌^◌, Bool, true, false, not, ◌&&◌, ◌||◌, Option, none, some, List, [],
  ◌∷◌, length, get_elem?, set, take, ltb, leb, ◌==◌, if◌then◌else◌, add32, sub32, mul32, u32_mod,
  u32_max, ◌>>=◌, min, max,
}
use self_mini_os.LoadBalancer.{
  LbPolicy, CoreMetrics, LbStats, LbConfig, LbState, thermal_threshold, memory_pressure_threshold,
  load_imbalance_threshold, count_up, calculate_core_load, in_use, scan,
}

-- the two writes that move `n` tasks from one core to another
pub move_tasks : List CoreMetrics → ℕ → ℕ → ℕ → Option (List CoreMetrics)
move_tasks cores src dst n = do
  m ← get_elem? cores src
  let cores' = set cores src (record m { task_count = sub32 m.task_count n })
  m' ← get_elem? cores' dst
  some (set cores' dst (record m' { task_count = add32 m'.task_count n }))

-- the first core from `i` on, other than `core_id`, that is cool
pub find_cool : ℕ → List CoreMetrics → ℕ → Option ℕ
find_cool core_id [] i = none
find_cool core_id (m ∷ ms) i =
    let rest = find_cool core_id ms (suc i) in
    if i == core_id then rest else if ltb m.temperature thermal_threshold then some i else rest

-- the moves of `lb_handle_thermal_event` and `lb_handle_memory_pressure`, if there is a core for them
pub move_share : LbState → ℕ → ℕ → Option ℕ → Option LbState
move_share s core_id share none = some s
move_share s core_id share (some dst) = do
  m ← get_elem? s.core_metrics core_id
  cores ← move_tasks s.core_metrics core_id dst (m.task_count / share)
  some (record s { core_metrics = cores })

pub handle_thermal_event : LbState → ℕ → ℕ → Option LbState
unfolding in_use move_share find_cool
handle_thermal_event s core_id temperature =
    if not s.config.thermal_throttling
    then some s
    else get_elem? s.core_metrics core_id
      >>= (λ m. in_use s >>= (λ cores. move_share s core_id 2 (find_cool core_id cores 0)))

-- the pressure of a core other than `core_id`
abbrev pub pressure_beside : ℕ → ℕ → CoreMetrics → Option ℕ
pressure_beside core_id i m = if i == core_id then none else some m.memory_pressure

pub handle_memory_pressure : LbState → ℕ → ℕ → Option LbState
unfolding in_use move_share
handle_memory_pressure s core_id pressure = do
  cores ← in_use s
  let best = scan (pressure_beside core_id) cores 0 core_id pressure
  if best == core_id then some s else move_share s core_id 4 (some best)

pub migrate_task : LbState → ℕ → ℕ → ℕ → Option (Bool × LbState)
unfolding move_tasks
migrate_task s task_id src dst =
    if src == dst
    then some (false, s)
    else get_elem? s.core_metrics dst >>= (λ m.
      if leb thermal_threshold m.temperature
      then some (
        false,
        record s {
          stats = record s.stats { failed_balancing = count_up s.stats.failed_balancing };
        },
      )
      else move_tasks s.core_metrics src dst 1 >>= (λ cores. some (
        true,
        record s {
          core_metrics = cores;
          stats = record s.stats { total_migrations = count_up s.stats.total_migrations };
        },
      )))

pub update_metrics : LbState → ℕ → CoreMetrics → Option LbState
unfolding handle_thermal_event handle_memory_pressure
update_metrics s core_id m = do
  old ← get_elem? s.core_metrics core_id
  let s1 = record s { core_metrics = set s.core_metrics core_id m }
  let s2 = record s1 {
    stats = record s1.stats { thermal_throttling = count_up s1.stats.thermal_throttling };
  }
  s3 ←
      if leb thermal_threshold m.temperature && s1.config.thermal_throttling
      then handle_thermal_event s2 core_id m.temperature
      else some s1
  if leb memory_pressure_threshold m.memory_pressure
      then handle_memory_pressure s3 core_id m.memory_pressure
      else some s3

pub adjust_policy : LbState → LbPolicy → LbState
adjust_policy s policy = if not s.config.dynamic_policy then s else record s {
  config = record s.config { policy = policy };
  stats = record s.stats { policy_switches = count_up s.stats.policy_switches };
}

-- the largest and the least load in the loop of `lb_check_balance`
pub load_range : List CoreMetrics → ℕ → ℕ → ℕ × ℕ
load_range [] most least = (most, least)
load_range (m ∷ ms) most least =
    load_range ms (max most (calculate_core_load m)) (min least (calculate_core_load m))

pub check_balance : LbState → Option Bool
check_balance s = do
  cores ← in_use s
  let (most, least) = load_range cores 0 u32_max
  some (leb (sub32 most least) load_imbalance_threshold)
