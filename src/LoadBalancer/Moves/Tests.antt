-- ===== src/LoadBalancer/Moves/Tests.antt =====
-- The load balancer of mini_rtos/src/load_balancer.c with three cores: the first one is hot, and the last
-- one has less to do than the second.
use self_mini_os.Common.{ℕ, ◌≡◌, refl, Bool, true, false, some, [], ◌∷◌, List, arith, u32_max}
use self_mini_os.LoadBalancer.{
  least_loaded, CoreMetrics, TaskRequirements, LbConfig, LbState, no_stats, scan, task_load,
  find_best_core, calculate_core_load, balance_task, lb_init,
}
use self_mini_os.LoadBalancer.Choice.{Picks, scan-Picks}
use self_mini_os.LoadBalancer.Moves.{migrate_task, handle_thermal_event, handle_memory_pressure}
use self_mini_os.LoadBalancer.Moves.Balance.{Keeps}
use self_mini_os.LoadBalancer.Moves.Conserved.{moves_lem}
use self_mini_os.LoadBalancer.Moves.Idle.{IdleChoice, lb_init_lem}

abbrev core : ℕ → ℕ → ℕ → CoreMetrics
core usage count heat = record {
  cpu_usage = usage;
  task_count = count;
  memory_pressure = 10;
  cache_misses = 0;
  temperature = heat;
  power_consumption = 0;
}

abbrev three_cores : List CoreMetrics
three_cores = core 5 4 90 ∷ core 60 6 50 ∷ core 40 2 50 ∷ []

abbrev by_load : LbConfig
by_load = record {
  policy = least_loaded;
  update_interval = 10;
  migration_threshold = 20;
  max_migrations = 4;
  thermal_throttling = true;
  dynamic_policy = false;
}

abbrev busy : LbState
busy = record {
  initialized = true;
  config = by_load;
  core_metrics = three_cores;
  stats = no_stats;
  active_cores = 3;
  total_load = 0;
  next_core = 0;
}

abbrev new_task : TaskRequirements
new_task = record {
  priority = 0;
  cpu_requirement = 7;
  memory_requirement = 0;
  deadline = 0;
  realtime = false;
  affinity_mask = 7;
}

find_best_core_runs : find_best_core new_task three_cores ≡ 2
unfolding find_best_core scan task_load calculate_core_load
find_best_core_runs = refl

-- a task that may run on the first core only gets it though it is hot, and so does one that may run on
-- no core
affinity_is_lost : find_best_core (record new_task { affinity_mask = 0 }) three_cores ≡ 0
unfolding find_best_core scan task_load calculate_core_load
affinity_is_lost = refl

scan-Picks_example :
    Picks
      (task_load new_task)
      three_cores
      0
      u32_max
      (scan (task_load new_task) three_cores 0 0 u32_max)
scan-Picks_example = scan-Picks (task_load new_task) three_cores 0 u32_max

moves_lem_example :
    ((done : Bool) × (s' : LbState) × (migrate_task busy 9 0 1 ≡ some (done, s'))
      × Keeps three_cores s'.core_metrics 0)
    × ((s' : LbState) × (handle_thermal_event busy 0 90 ≡ some s')
        × Keeps three_cores s'.core_metrics 0)
    × ((s' : LbState) × (handle_memory_pressure busy 0 90 ≡ some s')
        × Keeps three_cores s'.core_metrics 0)
moves_lem_example = moves_lem busy 9 0 1 90 (omega arith) (omega arith) (omega arith)

abbrev unused : LbState
unused = record busy { initialized = false }

lb_init_lem_example :
    let s1 = (lb_init unused by_load).1 in
    (s1.active_cores ≡ 0)
    × (lb_init s1 by_load ≡ (false, s1))
    × IdleChoice least_loaded s1 (balance_task s1 new_task)
lb_init_lem_example = lb_init_lem unused by_load by_load new_task refl (omega arith)
