-- ===== src/Timer/Base.antt =====
-- mini_rtos/src/timer.c: creation, start and stop of timers, and the base of a processor.
use self_mini_os.Common.{
  ℕ, zero, suc, ◌+◌, ◌*◌, ◌/◌, ◌%◌, ◌^◌, Bool, true, false, Option, none, some, List, ltb, ◌==◌,
  if◌then◌else◌, ◌>>=◌, u32_max, add32,
}
use self_mini_os.Traffic.{assign}
use self_mini_os.Timer.{
  TimerType, high_res, inactive, Timers, timer_wheel_size, timer_wheel_levels, timer_wheel_add,
  timer_wheel_remove, timer_wheel_advance,
}

-- the loop over a list of `timer_base_get_next_expiry`
pub least_of : ℕ → Option ℕ → Timers → ℕ → Option ℕ
least_of fuel none s least = some least
least_of zero (some t) s least = none
least_of (suc fuel) (some t) s least =
    least_of fuel (s.next t) s (if ltb (s.expires t) least then s.expires t else least)

-- its loops over the slots: `n` of them, from the last one counted down
pub least_below : ℕ → ℕ → Timers → ℕ → Option ℕ
unfolding least_of
least_below fuel zero s least = some least
least_below fuel (suc n) s least =
    least_below fuel n s least
    >>= (λ found. least_of fuel (s.wheel (n / timer_wheel_size) (n % timer_wheel_size)) s found)

pub timer_base_get_next_expiry : ℕ → Timers → Option ℕ
unfolding least_below
timer_base_get_next_expiry fuel s =
    least_below fuel (timer_wheel_levels * timer_wheel_size) s u32_max

-- `timer_create`, with the block that `rtos_malloc` returns and the number of the processor
pub timer_create : Option ℕ → ℕ → TimerType → ℕ → Timers → Option ℕ × Timers
timer_create none here type flags s = (none, s)
timer_create (some t) here type flags s = (
  some t,
  record s {
    type = assign s.type t type;
    flags = assign s.flags t flags;
    state = assign s.state t inactive;
    next = assign s.next t none;
    prev = assign s.prev t none;
    cpu = assign s.cpu t here;
    stats = record s.stats {
      total_timers = add32 s.stats.total_timers 1;
      high_res_timers =
          if flags / 2 ^ 5 % 2 == 1
          then add32 s.stats.high_res_timers 1
          else s.stats.high_res_timers;
      deferrable_timers =
          if flags / 2 ^ 3 % 2 == 1
          then add32 s.stats.deferrable_timers 1
          else s.stats.deferrable_timers;
    };
  },
)

-- `timer_start`, on the wheel of the processor of the timer; true is 0, and false is -1
unfoldable pub timer_start : ℕ → ℕ → ℕ → Option ℕ → Timers → Bool × Timers
timer_start t expires period none s = (false, s)
timer_start t expires period (some f) s =
    let s1 = record s {
      expires = assign s.expires t expires;
      period = assign s.period t period;
      callback = assign s.callback t (some f);
    } in
    let s2 = timer_wheel_add t s1 in
    (true, record s2 { stats = record s2.stats { active_timers = add32 s2.stats.active_timers 1 } })

-- `timer_stop`; `active_timers--` on a word
unfoldable pub timer_stop : ℕ → Timers → Timers
unfolding timer_wheel_remove
timer_stop t s =
    let s1 = timer_wheel_remove t s in
    record s1 { stats = record s1.stats { active_timers = add32 s1.stats.active_timers u32_max } }

-- `hrtimer_create`
pub hrtimer_create : Option ℕ → ℕ → ℕ → Timers → Option ℕ × Timers
unfolding timer_create
hrtimer_create block here flags s =
    timer_create block here high_res (if flags / 2 ^ 5 % 2 == 1 then flags else flags + 2 ^ 5) s

-- `timer_base_t` of one processor, with the timers on its wheel; the statistics, which all processors
-- share, are with these
pub record TimerBase : Type 0 where
  pub timers : Timers
  pub next_expiry : ℕ
  pub resolution : ℕ
  pub active : ℕ

-- `hrtimer_start`
pub hrtimer_start : ℕ → ℕ → Option ℕ → TimerBase → Bool × TimerBase
unfolding timer_start
hrtimer_start t expires_ns callback b =
    let (done, s) = timer_start t (expires_ns / b.resolution % 2 ^ 32) 0 callback b.timers in
    (done, record b { timers = s })

pub timer_base_advance : (List ℕ → ℕ) → ℕ → TimerBase → Option TimerBase
unfolding timer_wheel_advance timer_base_get_next_expiry
timer_base_advance latency fuel b =
    if b.active == 0
    then some b
    else timer_wheel_advance latency fuel b.timers >>= (λ s.
      timer_base_get_next_expiry fuel s >>= (λ e. some (record b { timers = s; next_expiry = e })))

-- `reset_timer_stats`
pub reset_timer_stats : Timers → Timers
reset_timer_stats s = record s {
  stats = record {
    total_timers = 0;
    active_timers = 0;
    expired_timers = 0;
    high_res_timers = 0;
    deferrable_timers = 0;
    total_latency = 0;
    max_latency = 0;
    min_latency = u32_max;
  };
}

-- `timer_subsystem_init`, for one processor; it leaves `next_expiry` as it is
pub timer_subsystem_init : TimerBase → TimerBase
unfolding reset_timer_stats
timer_subsystem_init b = record b {
  resolution = 1000;
  active = 1;
  timers = reset_timer_stats (record b.timers { wheel = λ l i. none; current_tick = 0 });
}
