-- ===== src/LoadBalancer/Moves/Balance.antt =====
-- mini_rtos/src/load_balancer.c: what the operations do to the numbers of tasks.
use self_mini_os.Common.{
  ℕ, zero, suc, ◌+◌, ◌/◌, ◌%◌, ◌<◌, ◌≤◌, ◌≡◌, ◌≢◌, refl, ◌∙◌, ◌⊎◌, inl, inr, Bool, true, false, not,
  Option, none, some, List, [], ◌∷◌, length, get_elem?, set, take, ltb, ◌==◌, if◌then◌else◌, arith,
  Bool-cases, add32, sub32, u32_mod, ◌>>=◌, length-set, get_elem?-lt, get_elem?-set_ne, length-take,
}
use self_mini_os.LoadBalancer.{
  TaskRequirements, target_core, balance_task, count_up, CoreMetrics, LbState, thermal_threshold,
  in_use, scan,
}
use self_mini_os.LoadBalancer.Moves.{
  move_tasks, move_share, find_cool, pressure_beside, handle_thermal_event, handle_memory_pressure,
}
use self_mini_os.LoadBalancer.Choice.{scan-Picks}

-- the tasks of all the cores
abbrev pub tasks : List CoreMetrics → ℕ
tasks [] = 0
tasks (m ∷ ms) = m.task_count + tasks ms

pub tasks-set :
    (xs : List CoreMetrics) (i : ℕ) (m m' : CoreMetrics)
    → get_elem? xs i ≡ some m
    → tasks (set xs i m') + m.task_count ≡ tasks xs + m'.task_count
tasks-set [] i m m' e = cc e
tasks-set (x ∷ xs) zero m m' e = let same : x ≡ m = cc e in rw same (omega arith)
tasks-set (x ∷ xs) (suc i) m m' e = omega (arith, tasks-set xs i m m' e)

-- the cores stay, and so does the number of tasks, in a word of 32 bits
pub record Keeps (cores cores' : List CoreMetrics) (n : ℕ) : Type 0 where
  pub same_cores : length cores' ≡ length cores
  pub same_tasks : tasks cores' % u32_mod ≡ (tasks cores + n) % u32_mod

pub move_tasks-Keeps :
    (cores : List CoreMetrics) (src dst n : ℕ) (m : CoreMetrics)
    → get_elem? cores src ≡ some m
    → dst < length cores
    → src ≢ dst
    → n ≤ m.task_count + u32_mod
    → (cores' : List CoreMetrics) × (move_tasks cores src dst n ≡ some cores')
      × Keeps cores cores' 0
unfolding move_tasks
move_tasks-Keeps cores src dst n m at low ne small =
    let m1 : CoreMetrics = record m { task_count = sub32 m.task_count n } in
    let cores1 = set cores src m1 in
    let (x, at') = get_elem?-lt cores dst low in
    let at1 : get_elem? cores1 dst ≡ some x = get_elem?-set_ne cores m1 ne ∙ at' in
    let x1 : CoreMetrics = record x { task_count = add32 x.task_count n } in
    (
      set cores1 dst x1,
      rw (at, ◌>>=◌, at1) refl,
      record {
        same_cores = length-set cores1 dst x1 ∙ length-set cores src m1;
        same_tasks = omega (arith, tasks-set cores src m m1 at, tasks-set cores1 dst x x1 at1);
      },
    )

pub get_elem?-bound :
    (xs : List CoreMetrics) (i : ℕ) (m : CoreMetrics) → get_elem? xs i ≡ some m → i < length xs
get_elem?-bound [] i m e = cc e
get_elem?-bound (x ∷ xs) zero m e = omega arith
get_elem?-bound (x ∷ xs) (suc i) m e = omega (arith, get_elem?-bound xs i m e)

find_cool-bound :
    (core_id : ℕ) (xs : List CoreMetrics) (i : ℕ)
    → (find_cool core_id xs i ≡ none)
      ⊎ ((r : ℕ) × (find_cool core_id xs i ≡ some r) × (core_id ≢ r) × (r < i + length xs))
unfolding find_cool
find_cool-bound core_id [] i = inl refl
find_cool-bound core_id (m ∷ ms) i =
    let rest : (find_cool core_id ms (suc i) ≡ none)
        ⊎ ((r : ℕ) × (find_cool core_id ms (suc i) ≡ some r)
            × (core_id ≢ r)
            × (r < i + suc (length ms))) =
      elim (find_cool-bound core_id ms (suc i)) [
        | inl e ↦ inl e
        | inr (r, e, ne, low) ↦ inr (r, e, ne, omega arith)
      ] in
    elim (Bool-cases (i == core_id)) [
      | inl e ↦ rw (e, find_cool) rest
      | inr e ↦ elim (Bool-cases (ltb m.temperature thermal_threshold)) [
        | inl cool ↦ rw (e, cool, find_cool) (inr (i, refl, ground arith, omega arith))
        | inr hot ↦ rw (e, hot, find_cool) rest
      ]
    ]

move_share-Keeps :
    (s : LbState) (core_id share : ℕ) (found : Option ℕ)
    → ((n : ℕ) → n / share ≤ n)
    → core_id < length s.core_metrics
    → (found ≡ none) ⊎ ((r : ℕ) × (found ≡ some r) × (core_id ≢ r) × (r < length s.core_metrics))
    → (s' : LbState) × (move_share s core_id share found ≡ some s')
      × Keeps s.core_metrics s'.core_metrics 0
unfolding move_share
move_share-Keeps s core_id share found part low (inl e) =
    rw e (s, refl, record { same_cores = refl; same_tasks = omega arith })
move_share-Keeps s core_id share found part low (inr (r, e, ne, low')) =
    let (m, at) = get_elem?-lt s.core_metrics core_id low in
    let n = m.task_count / share in
    let (cores, run, h) =
      move_tasks-Keeps s.core_metrics core_id r n m at low' ne (omega (arith, part m.task_count)) in
    rw (e, move_share) (record s { core_metrics = cores }, rw (at, ◌>>=◌, run) refl, h)

if_not : {A : Type 0} (b : Bool) (x y : A) → b ≡ true → (if not b then x else y) ≡ y
if_not b x y e = rw e refl

if_not_off : {A : Type 0} (b : Bool) (x y : A) → b ≡ false → (if not b then x else y) ≡ x
if_not_off b x y e = rw e refl

-- the cores of the loops
pub in_use-some :
    (s : LbState)
    → s.active_cores ≤ length s.core_metrics
    → in_use s ≡ some (take s.active_cores s.core_metrics)
unfolding in_use
in_use-some s h = ground arith

pub handle_thermal_event-Keeps :
    (s : LbState) (core_id temperature : ℕ)
    → s.active_cores ≤ length s.core_metrics
    → core_id < length s.core_metrics
    → (s' : LbState) × (handle_thermal_event s core_id temperature ≡ some s')
      × Keeps s.core_metrics s'.core_metrics 0
unfolding handle_thermal_event
handle_thermal_event-Keeps s core_id temperature h low =
    elim (Bool-cases s.config.thermal_throttling) [
      | inr off ↦ (s, if_not_off _ _ _ off, record { same_cores = refl; same_tasks = omega arith })
      | inl on ↦
          let (m, at) = get_elem?-lt s.core_metrics core_id low in
          let cores = take s.active_cores s.core_metrics in
          let bound = length-take s.active_cores s.core_metrics in
          let (s', run, k) =
            move_share-Keeps s core_id 2 (find_cool core_id cores 0) (λ n. omega arith) low
              (elim (find_cool-bound core_id cores 0) [
                | inl e ↦ inl e
                | inr (r, e, ne, lt) ↦ inr (r, e, ne, omega arith)
              ]) in
          (s', if_not _ _ _ on ∙ rw (at, ◌>>=◌, in_use-some s h, ◌>>=◌) run, k)
    ]

pressure-bound :
    (core_id pressure : ℕ) (xs : List CoreMetrics)
    → (scan (pressure_beside core_id) xs 0 core_id pressure ≡ core_id)
      ⊎ (scan (pressure_beside core_id) xs 0 core_id pressure < length xs)
pressure-bound core_id pressure xs =
    elim (scan-Picks (pressure_beside core_id) xs core_id pressure) [
      | inl (all, e) ↦ inl e
      | inr (m, v, lt, h) ↦ inr (get_elem?-bound xs _ m h.here)
    ]

pub handle_memory_pressure-Keeps :
    (s : LbState) (core_id pressure : ℕ)
    → s.active_cores ≤ length s.core_metrics
    → core_id < length s.core_metrics
    → (s' : LbState) × (handle_memory_pressure s core_id pressure ≡ some s')
      × Keeps s.core_metrics s'.core_metrics 0
unfolding handle_memory_pressure
handle_memory_pressure-Keeps s core_id pressure h low =
    let cores = take s.active_cores s.core_metrics in
    let bound = length-take s.active_cores s.core_metrics in
    let best = scan (pressure_beside core_id) cores 0 core_id pressure in
    elim (Bool-cases (best == core_id)) [
      | inl e ↦ (
        s,
        rw (in_use-some s h, ◌>>=◌, e) refl,
        record { same_cores = refl; same_tasks = omega arith },
      )
      | inr e ↦
          let (s', run, k) =
            move_share-Keeps s core_id 4 (some best) (λ n. omega arith) low
              (inr (
                best,
                refl,
                ground arith,
                elim (pressure-bound core_id pressure cores) [
                  | inl same ↦ absurd (ground arith)
                  | inr lt ↦ omega arith
                ],
              )) in
          (s', rw (in_use-some s h, ◌>>=◌, e) run, k)
    ]

-- a task for a core that the policy has chosen
pub balance_task-Keeps :
    (s : LbState) (task : TaskRequirements) (core next : ℕ)
    → target_core s.config.policy s task ≡ some (core, next)
    → core < length s.core_metrics
    → (s' : LbState) × (balance_task s task ≡ some (core, s'))
      × Keeps s.core_metrics s'.core_metrics 1
unfolding balance_task
balance_task-Keeps s task core next run low =
    let (m, at) = get_elem?-lt s.core_metrics core low in
    let m' : CoreMetrics = record m {
      task_count = add32 m.task_count 1;
      cpu_usage = add32 m.cpu_usage task.cpu_requirement;
    } in
    (
      record s {
        core_metrics = set s.core_metrics core m';
        stats = record s.stats { balanced_tasks = count_up s.stats.balanced_tasks };
        next_core = next;
      },
      rw (run, ◌>>=◌, at) refl,
      record {
        same_cores = length-set s.core_metrics core m';
        same_tasks = omega (arith, tasks-set s.core_metrics core m m' at);
      },
    )
