-- ===== src/LoadBalancer/Moves/Conserved.antt =====
-- mini_rtos/src/load_balancer.c: a task is assigned to one core in use, and moves lose no task.
use self_mini_os.Common.{
  ℕ, ◌<◌, ◌≤◌, ◌≡◌, refl, inl, inr, Bool, true, false, some, length, leb, ◌==◌, arith, Bool-cases,
  ◌>>=◌, get_elem?-lt,
}
use self_mini_os.LoadBalancer.{LbState, count_up, thermal_threshold}
use self_mini_os.LoadBalancer.Moves.{handle_thermal_event, handle_memory_pressure, migrate_task}
use self_mini_os.LoadBalancer.Moves.Balance.{
  Keeps, move_tasks-Keeps, handle_thermal_event-Keeps, handle_memory_pressure-Keeps,
}

migrate_task-Keeps :
    (s : LbState) (task_id src dst : ℕ)
    → src < length s.core_metrics
    → dst < length s.core_metrics
    → (done : Bool) × (s' : LbState) × (migrate_task s task_id src dst ≡ some (done, s'))
      × Keeps s.core_metrics s'.core_metrics 0
unfolding migrate_task
migrate_task-Keeps s task_id src dst low low' =
    let same : Keeps s.core_metrics s.core_metrics 0 = record {
      same_cores = refl;
      same_tasks = omega arith;
    } in
    let (m, at) = get_elem?-lt s.core_metrics src low in
    let (x, at') = get_elem?-lt s.core_metrics dst low' in
    elim (Bool-cases (src == dst)) [
      | inl e ↦ (false, s, rw e refl, same)
      | inr e ↦ elim (Bool-cases (leb thermal_threshold x.temperature)) [
        | inl hot ↦ (
          false,
          record s {
            stats = record s.stats { failed_balancing = count_up s.stats.failed_balancing };
          },
          rw (e, at', ◌>>=◌, hot) refl,
          same,
        )
        | inr cool ↦
            let (cores, run, h) =
              move_tasks-Keeps s.core_metrics src dst 1 m at low' (ground arith) (omega arith) in
            (
              true,
              record s {
                core_metrics = cores;
                stats = record s.stats { total_migrations = count_up s.stats.total_migrations };
              },
              rw (e, at', ◌>>=◌, cool, run) refl,
              h,
            )
      ]
    ]

-- On cores within the table, lb_migrate_task, lb_handle_thermal_event and lb_handle_memory_pressure stay
-- inside the table of cores, whatever the metrics say, and the tasks of all the cores, as a word of 32
-- bits, are as many as before.
pub moves_lem :
    (s : LbState) (task_id src dst value : ℕ)
    → s.active_cores ≤ length s.core_metrics
    → src < length s.core_metrics
    → dst < length s.core_metrics
    → ((done : Bool) × (s' : LbState) × (migrate_task s task_id src dst ≡ some (done, s'))
        × Keeps s.core_metrics s'.core_metrics 0)
      × ((s' : LbState) × (handle_thermal_event s src value ≡ some s')
          × Keeps s.core_metrics s'.core_metrics 0)
      × ((s' : LbState) × (handle_memory_pressure s src value ≡ some s')
          × Keeps s.core_metrics s'.core_metrics 0)
moves_lem s task_id src dst value fit low low' = (
  migrate_task-Keeps s task_id src dst low low',
  handle_thermal_event-Keeps s src value fit low,
  handle_memory_pressure-Keeps s src value fit low,
)
