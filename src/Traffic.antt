-- ===== src/Traffic.antt =====
-- mini_rtos/src/traffic_control.c and mini_rtos/include/traffic_control.h, and the fields `flags` and
-- `next` of the task control block in mini_rtos/include/scheduler.h.
-- A task is the number of its control block, and `next` and `flags` are functions of it, as the
-- queues thread all their tasks on the one field. A traffic class is a number, since
-- `tc_get_task_class` casts a byte. The time that `get_system_time` returns is an argument. A result
-- `none` of `enqueue_task` is a write outside `tc_queues` or through a null `tail`.
pub mod Admin
pub mod Chains
pub mod Order
pub mod Dequeue
pub mod Tokens
pub mod Audit
mod Tests
use self_mini_os.Common.{
  ℕ, zero, suc, ◌+◌, ◌-◌, ◌*◌, ◌/◌, ◌%◌, ◌^◌, min, Bool, true, false, Option, none, some, List, [],
  ◌∷◌, ltb, leb, ◌==◌, if◌then◌else◌, length, get_elem?, set, get_or, add32, sub32, mul32, u32_max,
}

abbrev pub max_classes : ℕ
max_classes = 5

pub data TcPolicy : Type 0 where
  strict wrr drr fair_queue : TcPolicy

pub record TcBandwidth : Type 0 where
  pub min_rate : ℕ
  pub max_rate : ℕ
  pub burst_size : ℕ
  pub latency : ℕ

pub record TcClassConfig : Type 0 where
  pub class : ℕ
  pub policy : TcPolicy
  pub bandwidth : TcBandwidth
  pub weight : ℕ
  pub quantum : ℕ
  pub priority : ℕ

pub record TcStats : Type 0 where
  pub bytes_sent : ℕ
  pub bytes_received : ℕ
  pub packets_sent : ℕ
  pub packets_received : ℕ
  pub drops : ℕ
  pub overruns : ℕ
  pub latency_sum : ℕ
  pub latency_samples : ℕ

pub record TcShaper : Type 0 where
  pub token_rate : ℕ
  pub bucket_size : ℕ
  pub current_tokens : ℕ
  pub last_update : ℕ

pub record TcQueue : Type 0 where
  pub head : Option ℕ
  pub tail : Option ℕ
  pub count : ℕ
  pub total_weight : ℕ
  pub shaper : TcShaper
  pub stats : TcStats
  pub config : TcClassConfig

-- `tc_queues` and `tc_initialized`, with the fields of the tasks
pub record Traffic : Type 0 where
  pub queues : List TcQueue
  pub initialized : Bool
  pub next : ℕ → Option ℕ
  pub flags : ℕ → ℕ

-- `task->next = v` and `task->flags = v`
abbrev pub assign {ℓ} : {A : Type ℓ} → (ℕ → A) → ℕ → A → ℕ → A
assign f t v u = if u == t then v else f u

-- the token bucket
pub update_shaper : TcShaper → ℕ → TcShaper
update_shaper s now =
    let elapsed = sub32 now s.last_update in
    let new_tokens = mul32 elapsed s.token_rate / 1000 in
    record s {
      current_tokens = min s.bucket_size (add32 s.current_tokens new_tokens);
      last_update = now;
    }

pub consume_tokens : TcShaper → ℕ → ℕ → Bool × TcShaper
consume_tokens s tokens now =
    let u = update_shaper s now in
    if leb tokens u.current_tokens
    then (true, record u { current_tokens = u.current_tokens - tokens })
    else (false, u)

-- a structure after `memset` with zeros
abbrev pub zero_stats : TcStats
zero_stats = record {
  bytes_sent = 0;
  bytes_received = 0;
  packets_sent = 0;
  packets_received = 0;
  drops = 0;
  overruns = 0;
  latency_sum = 0;
  latency_samples = 0;
}

abbrev pub zero_queue : TcQueue
zero_queue = record {
  head = none;
  tail = none;
  count = 0;
  total_weight = 0;
  shaper = record { token_rate = 0; bucket_size = 0; current_tokens = 0; last_update = 0 };
  stats = zero_stats;
  config = record {
    class = 0;
    policy = strict;
    bandwidth = record { min_rate = 0; max_rate = 0; burst_size = 0; latency = 0 };
    weight = 0;
    quantum = 0;
    priority = 0;
  };
}

-- round `i` of the loop of `tc_init`
pub init_queue : ℕ → ℕ → TcQueue
init_queue i now =
    let c = zero_queue.config in
    record zero_queue {
      config = record c {
        class = i;
        priority = max_classes - i - 1;
        bandwidth = record { min_rate = 0; max_rate = u32_max; burst_size = 16384; latency = 1000 };
      };
      shaper = record {
        token_rate = u32_max;
        bucket_size = 16384;
        current_tokens = 16384;
        last_update = now;
      };
    }

-- the clock gives the time that each round reads
pub init_queues : (ℕ → ℕ) → ℕ → ℕ → List TcQueue
init_queues clock i zero = []
init_queues clock i (suc n) = init_queue i (clock i) ∷ init_queues clock (suc i) n

pub init : Traffic → (ℕ → ℕ) → Traffic
init tc clock =
    if tc.initialized
    then tc
    else record tc { queues = init_queues clock 0 max_classes; initialized = true }

-- a change of one element of `tc_queues`
abbrev pub modify {ℓ} : {A : Type ℓ} → ℕ → (A → A) → List A → List A
modify i f [] = []
modify zero f (q ∷ qs) = f q ∷ qs
modify (suc i) f (q ∷ qs) = q ∷ modify i f qs

abbrev pub on_class : ℕ → (TcQueue → TcQueue) → Traffic → Traffic
on_class class f tc = record tc { queues = modify class f tc.queues }

-- `(task->flags & ~0xFF000000) | (class << 24)`, whose two parts share no bit
pub assign_task_class : Traffic → ℕ → ℕ → Bool × Traffic
assign_task_class tc task class = if leb max_classes class then (false, tc) else (
  true,
  record tc { flags = assign tc.flags task (tc.flags task % 2 ^ 24 + class * 2 ^ 24) },
)

-- `(task->flags >> 24) & 0xFF`
pub get_task_class : Traffic → ℕ → ℕ
get_task_class tc task = tc.flags task / 2 ^ 24 % 256

pub check_rate : Traffic → ℕ → ℕ → ℕ → Bool × Traffic
check_rate tc class size now = elim (get_elem? tc.queues class) [
  | none ↦ (false, tc)
  | some q ↦
      let (ok, shaper) = consume_tokens q.shaper size now in
      (ok, record tc { queues = set tc.queues class (record q { shaper = shaper }) })
]

-- the link of a task behind the tail, in `tc_enqueue_task`
pub link_task : (ℕ → Option ℕ) → TcQueue → ℕ → Option ((ℕ → Option ℕ) × TcQueue)
link_task next q task =
    let count = add32 q.count 1 in
    elim q.head [
      | none ↦
          some
            (assign next task none, record q { head = some task; tail = some task; count = count })
      | some h ↦ elim q.tail [
        | none ↦ none
        | some l ↦ some (
          assign (assign next l (some task)) task none,
          record q { tail = some task; count = count },
        )
      ]
    ]

abbrev pub drop_one : TcQueue → TcQueue
drop_one q = let st = q.stats in record q { stats = record st { drops = add32 st.drops 1 } }

-- the two ends of `tc_enqueue_task`, behind the check of the rate
pub enqueue_at : Traffic → ℕ → ℕ → Bool → TcQueue → Option (Bool × Traffic)
unfolding link_task
enqueue_at tc task class ok q =
    if ok
    then elim (link_task tc.next q task) [
      | none ↦ none
      | some (next, q') ↦ some (true, record tc { next = next; queues = set tc.queues class q' })
    ]
    else some (false, record tc { queues = set tc.queues class (drop_one q) })

-- `tc_enqueue_task`. For a class of 5 or more `tc_check_rate` refuses, and the drop is then counted in an
-- element behind the end of `tc_queues`: that write is `none`.
pub enqueue_task : Traffic → ℕ → ℕ → Option (Bool × Traffic)
unfolding get_task_class check_rate enqueue_at
enqueue_task tc task now =
    let class = get_task_class tc task in
    let (ok, tc1) = check_rate tc class 1 now in
    elim (get_elem? tc1.queues class) [ none ↦ none | some q ↦ enqueue_at tc1 task class ok q ]

-- the head of a queue is taken, in `tc_dequeue_task`
pub unlink_head : (ℕ → Option ℕ) → ℕ → TcQueue → TcQueue
unlink_head next task q =
    let st = q.stats in
    record q {
      head = next task;
      tail = elim (next task) [ none ↦ none | some t ↦ q.tail ];
      count = sub32 q.count 1;
      stats = record st { packets_sent = add32 st.packets_sent 1 };
    }

-- the loop of `tc_dequeue_task`
pub take_first : (ℕ → Option ℕ) → List TcQueue → Option (ℕ × List TcQueue)
take_first next [] = none
take_first next (q ∷ qs) = elim q.head [
  | some task ↦ some (task, unlink_head next task q ∷ qs)
  | none ↦ elim (take_first next qs) [ none ↦ none | some (task, qs') ↦ some (task, q ∷ qs') ]
]

pub dequeue_task : Traffic → Option ℕ × Traffic
dequeue_task tc = elim (take_first tc.next tc.queues) [
  | none ↦ (none, tc)
  | some (task, qs) ↦ (some task, record tc { next = assign tc.next task none; queues = qs })
]

-- the walk of `tc_verify_configuration` along `next`; `none` is a walk that is longer than the fuel
pub walk : (ℕ → Option ℕ) → ℕ → Option ℕ → Option ℕ
walk next fuel none = some 0
walk next zero (some t) = none
walk next (suc fuel) (some t) = elim (walk next fuel (next t)) [
  | none ↦ none
  | some n ↦ some (add32 n 1)
]

-- the classes that `tc_verify_configuration` warns about
pub mismatches : (ℕ → Option ℕ) → ℕ → ℕ → List TcQueue → List ℕ
mismatches next fuel i [] = []
mismatches next fuel i (q ∷ qs) =
    let rest = mismatches next fuel (suc i) qs in
    elim (walk next fuel q.head) [
      | none ↦ i ∷ rest
      | some n ↦ if n == q.count then rest else i ∷ rest
    ]

pub verify_configuration : Traffic → ℕ → List ℕ
unfolding mismatches walk
verify_configuration tc fuel = mismatches tc.next fuel 0 tc.queues
