-- ===== src/Traffic/Admin.antt =====
-- mini_rtos/src/traffic_control.c: the calls that set up and tune the classes, shape traffic and
-- read the statistics.
use self_mini_os.Common.{
  ℕ, ◌/◌, Bool, true, false, Option, none, some, ltb, leb, ◌==◌, if◌then◌else◌, get_elem?, add32,
  mul32,
}
use self_mini_os.Traffic.{
  TcPolicy, strict, TcClassConfig, TcStats, TcShaper, TcQueue, Traffic, max_classes, check_rate,
  on_class, zero_queue, zero_stats, drop_one,
}

abbrev flush : TcQueue → TcQueue
flush q = record q { head = none; tail = none; count = 0 }

pub flush_queue : Traffic → ℕ → Traffic
flush_queue tc class = if leb max_classes class then tc else on_class class flush tc

pub shutdown : Traffic → Traffic
unfolding flush_queue
shutdown tc =
    let flushed =
      flush_queue (flush_queue (flush_queue (flush_queue (flush_queue tc 0) 1) 2) 3) 4 in
    if tc.initialized then record flushed { initialized = false } else tc

pub create_class : Traffic → Option TcClassConfig → ℕ → Bool × Traffic
create_class tc none now = (false, tc)
create_class tc (some config) now =
    let bandwidth = config.bandwidth in
    let shaper : TcShaper = record {
      token_rate = bandwidth.max_rate;
      bucket_size = bandwidth.burst_size;
      current_tokens = bandwidth.burst_size;
      last_update = now;
    } in
    if leb max_classes config.class
    then (false, tc)
    else (true, on_class config.class (λ q. record q { config = config; shaper = shaper }) tc)

pub modify_class : Traffic → ℕ → Option TcClassConfig → Bool × Traffic
modify_class tc class none = (false, tc)
modify_class tc class (some config) =
    let bandwidth = config.bandwidth in
    let change : TcQueue → TcQueue = λ q.
      let shaper = q.shaper in
      record q {
        config = config;
        shaper = record shaper {
          token_rate = bandwidth.max_rate;
          bucket_size = bandwidth.burst_size;
        };
      } in
    if leb max_classes class then (false, tc) else (true, on_class class change tc)

pub delete_class : Traffic → ℕ → Bool × Traffic
unfolding flush_queue
delete_class tc class =
    if leb max_classes class
    then (false, tc)
    else (true, on_class class (λ q. zero_queue) (flush_queue tc class))

pub shape_traffic : Traffic → ℕ → ℕ → ℕ → Bool × Traffic
shape_traffic tc class size now =
    let (ok, tc') = check_rate tc class size now in
    if leb max_classes class
    then (false, tc)
    else if ok
    then (true, tc')
    else (false, on_class class drop_one tc')

pub get_stats : Traffic → ℕ → Option TcStats
get_stats tc class = elim (get_elem? tc.queues class) [ none ↦ none | some q ↦ some q.stats ]

pub reset_stats : Traffic → ℕ → Traffic
reset_stats tc class =
    if leb max_classes class then tc else on_class class (λ q. record q { stats = zero_stats }) tc

-- `(stats->drops * 100) / total`
pub drop_rate : TcStats → ℕ
drop_rate st =
    let total = add32 st.packets_sent st.drops in
    if total == 0 then 0 else mul32 st.drops 100 / total

pub get_drop_rate : Traffic → ℕ → ℕ
get_drop_rate tc class = elim (get_elem? tc.queues class) [ none ↦ 0 | some q ↦ drop_rate q.stats ]

pub set_policy : Traffic → ℕ → TcPolicy → Bool × Traffic
set_policy tc class policy =
    let change : TcQueue → TcQueue =
      λ q. let c = q.config in record q { config = record c { policy = policy } } in
    if leb max_classes class then (false, tc) else (true, on_class class change tc)

pub get_policy : Traffic → ℕ → TcPolicy
get_policy tc class = elim (get_elem? tc.queues class) [
  | none ↦ strict
  | some q ↦ let c = q.config in c.policy
]

pub set_cpu_share : Traffic → ℕ → ℕ → Traffic
set_cpu_share tc class percentage =
    let change : TcQueue → TcQueue =
      λ q. let c = q.config in record q { config = record c { weight = percentage } } in
    if leb max_classes class
    then tc
    else if ltb 100 percentage
    then tc
    else on_class class change tc

pub set_memory_limit : Traffic → ℕ → ℕ → Traffic
set_memory_limit tc class bytes =
    let change : TcQueue → TcQueue = λ q.
      let c = q.config in
      let b = c.bandwidth in
      record q { config = record c { bandwidth = record b { max_rate = bytes } } } in
    if leb max_classes class then tc else on_class class change tc

pub set_io_priority : Traffic → ℕ → ℕ → Traffic
set_io_priority tc class priority =
    let change : TcQueue → TcQueue =
      λ q. let c = q.config in record q { config = record c { priority = priority } } in
    if leb max_classes class then tc else on_class class change tc
