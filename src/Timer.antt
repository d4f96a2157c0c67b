-- ===== src/Timer.antt =====
-- mini_rtos/src/timer.c with mini_rtos/include/timer.h: the timer wheel of a processor, on which four levels of
-- eight lists hold the timers.
-- A timer is the number of its block, and each field of `timer_t` is a function of that number. What a
-- callback does outside is not modelled, only that it is called: `calls` lists the timers whose callbacks
-- have run, the last one first. `latency` gives the time that a call takes, from the calls before it. A
-- callback that calls the functions of this file is not modelled, nor are the mutexes, which no function locks.
pub mod Base
pub mod Slots
pub mod Rounds
pub mod Cascades
pub mod Ticks
pub mod Advance
pub mod Firing
mod Tests
use self_mini_os.Common.{
  ℕ, zero, suc, ◌+◌, ◌-◌, ◌*◌, ◌/◌, ◌%◌, ◌^◌, Bool, true, false, ◌&&◌, Option, none, some, List, [],
  ◌∷◌, ltb, leb, ◌==◌, if◌then◌else◌, ◌>>=◌, u32_max, add32,
}
use self_mini_os.Traffic.{assign}

-- `timer_type_t`
pub data TimerType : Type 0 where
  oneshot periodic high_res cpu_specific deferrable : TimerType

-- `timer_state_t`
pub data TimerState : Type 0 where
  inactive enqueued running expired cancelled : TimerState

-- the fields of `timer_stats_t` that are written
pub record TimerStats : Type 0 where
  pub total_timers : ℕ
  pub active_timers : ℕ
  pub expired_timers : ℕ
  pub high_res_timers : ℕ
  pub deferrable_timers : ℕ
  pub total_latency : ℕ
  pub max_latency : ℕ
  pub min_latency : ℕ

pub record Timers : Type 0 where
  pub expires : ℕ → ℕ
  pub period : ℕ → ℕ
  pub callback : ℕ → Option ℕ
  pub type : ℕ → TimerType
  pub state : ℕ → TimerState
  pub flags : ℕ → ℕ
  pub cpu : ℕ → ℕ
  pub next : ℕ → Option ℕ
  pub prev : ℕ → Option ℕ
  pub wheel : ℕ → ℕ → Option ℕ
  pub current_tick : ℕ
  pub stats : TimerStats
  pub calls : List ℕ

abbrev pub timer_wheel_size : ℕ
timer_wheel_size = 8

abbrev pub timer_wheel_levels : ℕ
timer_wheel_levels = 4

-- `wheel[level][index] = head`
abbrev pub set_slot {ℓ} : {A : Type ℓ} → (ℕ → ℕ → A) → ℕ → ℕ → A → ℕ → ℕ → A
set_slot wheel level index head l i = if (l == level) && (i == index) then head else wheel l i

pub get_wheel_index : ℕ → ℕ → ℕ
get_wheel_index expires level = expires / 2 ^ (timer_wheel_size * level) % timer_wheel_size

-- the loop of `timer_wheel_add` over the levels, with `rest` of them left. From the last level on the
-- source shifts a word by all its bits; whether that is taken for zero or not, the level is the last one.
pub find_level : ℕ → ℕ → ℕ → ℕ
find_level expires level zero = timer_wheel_levels - 1
find_level expires level (suc rest) =
    let more = find_level expires (suc level) rest in
    if expires / 2 ^ (timer_wheel_size * (level + 1)) == 0 then level else more

abbrev pub level_of : ℕ → ℕ
level_of expires = find_level expires 0 timer_wheel_levels

abbrev pub set_prev : Option ℕ → Option ℕ → (ℕ → Option ℕ) → ℕ → Option ℕ
set_prev none v prev = prev
set_prev (some t) v prev = assign prev t v

pub timer_wheel_add : ℕ → Timers → Timers
timer_wheel_add t s =
    let level = level_of (s.expires t) in
    let index = get_wheel_index (s.expires t) level in
    let head = s.wheel level index in
    record s {
      next = assign s.next t head;
      prev = set_prev head (some t) s.prev;
      wheel = set_slot s.wheel level index (some t);
      state = assign s.state t enqueued;
    }

-- the loop of `timer_wheel_remove`, from a level on: the slot whose first timer is `t`
pub find_head : ℕ → Timers → ℕ → ℕ → Option (ℕ × ℕ)
find_head t s level zero = none
find_head t s level (suc rest) =
    let more = find_head t s (suc level) rest in
    let index = get_wheel_index (s.expires t) level in
    elim (s.wheel level index) [
      | none ↦ more
      | some u ↦ if u == t then some (level, index) else more
    ]

-- the links to `t` from in front
pub unlink_front : ℕ → Timers → Timers
unfolding find_head
unlink_front t s = elim (s.prev t) [
  | some p ↦ record s { next = assign s.next p (s.next t) }
  | none ↦ elim (find_head t s 0 timer_wheel_levels) [
    | none ↦ s
    | some (level, index) ↦ record s { wheel = set_slot s.wheel level index (s.next t) }
  ]
]

pub timer_wheel_remove : ℕ → Timers → Timers
unfolding unlink_front
timer_wheel_remove t s =
    let s1 = unlink_front t s in
    record s1 {
      prev = assign (set_prev (s1.next t) (s1.prev t) s1.prev) t none;
      state = assign s1.state t inactive;
      next = assign s1.next t none;
    }

-- the loop of `cascade_timers`; a list that is longer than the fuel gives `none`
pub add_again : ℕ → Option ℕ → Timers → Option Timers
add_again fuel none s = some s
add_again zero (some t) s = none
add_again (suc fuel) (some t) s = add_again fuel (s.next t) (timer_wheel_add t s)

-- `cascade_timers`, for a level above 0, as which alone it is called
pub cascade_timers : ℕ → ℕ → Timers → Option Timers
cascade_timers fuel level s =
    let index = get_wheel_index s.current_tick level in
    add_again fuel (s.wheel level index) (record s { wheel = set_slot s.wheel level index none })

-- the three nested tests whether the tick is the first of a round of a level
pub cascade : ℕ → Timers → Option Timers
cascade fuel s =
    if s.current_tick % 2 ^ 8 == 0
    then cascade_timers fuel 1 s >>= (λ s1.
      if s1.current_tick % 2 ^ 16 == 0
      then cascade_timers fuel 2 s1
        >>= (λ s2. if s2.current_tick % 2 ^ 24 == 0 then cascade_timers fuel 3 s2 else some s2)
      else some s1)
    else some s

abbrev pub called : Option ℕ → ℕ → List ℕ → List ℕ
called none t cs = cs
called (some f) t cs = t ∷ cs

-- the statistics after a call that took `time`
pub timed : Option ℕ → ℕ → TimerStats → TimerStats
timed none time stats = stats
timed (some f) time stats = record stats {
  total_latency = (stats.total_latency + time) % 2 ^ 64;
  max_latency = if ltb stats.max_latency time then time else stats.max_latency;
  min_latency = if ltb time stats.min_latency then time else stats.min_latency;
  expired_timers = add32 stats.expired_timers 1;
}

module _ (latency : List ℕ → ℕ) where
  -- the call of the callback, and the statistics behind it
  abbrev pub call : ℕ → Timers → Timers
  call t s = record s {
    calls = called (s.callback t) t s.calls;
    stats = timed (s.callback t) (latency s.calls) s.stats;
  }

  -- what follows the callback
  pub renew : TimerType → ℕ → Timers → Timers
  renew periodic t s =
      timer_wheel_add t
        (record s { expires = assign s.expires t (add32 (s.expires t) (s.period t)) })
  renew _ t s = record s { state = assign s.state t inactive }

  -- a round of the loop of `timer_wheel_advance`
  pub process : ℕ → Timers → Timers
  process t s =
      if leb (s.expires t) s.current_tick
      then renew (s.type t) t (call t (record s { state = assign s.state t expired }))
      else timer_wheel_add t s

  -- the loop; a list that is longer than the fuel gives `none`
  pub process_all : ℕ → Option ℕ → Timers → Option Timers
  process_all fuel none s = some s
  process_all zero (some t) s = none
  process_all (suc fuel) (some t) s = process_all fuel (s.next t) (process t s)

  pub timer_wheel_advance : ℕ → Timers → Option Timers
  timer_wheel_advance fuel s =
      let index = s.current_tick % timer_wheel_size in
      process_all fuel (s.wheel 0 index) (record s { wheel = set_slot s.wheel 0 index none })
      >>= (λ s1. cascade fuel s1)
      >>= (λ s2. some (record s2 { current_tick = add32 s2.current_tick 1 }))
