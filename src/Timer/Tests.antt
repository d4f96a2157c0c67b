-- ===== src/Timer/Tests.antt =====
-- The timers of mini_rtos/src/timer.c on an empty wheel.
use self_mini_os.Common.{
  ℕ, ◌≤◌, ◌≡◌, refl, Option, none, some, List, [], ◌∷◌, arith, u32_max, ◌>>=◌,
}
use self_mini_os.Traffic.Chains.{count_in}
use self_mini_os.Timer.{
  Timers, oneshot, inactive, timer_wheel_advance, process_all, timer_wheel_add, find_level,
  get_wheel_index, cascade, cascade_timers, add_again, process,
}
use self_mini_os.Timer.Base.{timer_start, timer_stop}
use self_mini_os.Timer.Slots.{Lists, Holds}
use self_mini_os.Timer.Firing.{
  advances, timer_wheel_advance_lem, timer_start-fires, timer_start-never_fires,
}

abbrev no_latency : List ℕ → ℕ
no_latency cs = 0

-- the second timer is periodic
abbrev idle : Timers
idle = record {
  expires = λ t. 0;
  period = λ t. 0;
  callback = λ t. none;
  type = λ t. oneshot;
  state = λ t. inactive;
  flags = λ t. 0;
  cpu = λ t. 0;
  next = λ t. none;
  prev = λ t. none;
  wheel = λ l i. none;
  current_tick = 0;
  stats = record {
    total_timers = 0;
    active_timers = 0;
    expired_timers = 0;
    high_res_timers = 0;
    deferrable_timers = 0;
    total_latency = 0;
    max_latency = 0;
    min_latency = u32_max;
  };
  calls = [];
}

abbrev no_lists : Lists
no_lists l i = []

idle-Holds : Holds idle no_lists
idle-Holds = record {
  chain = λ l i. refl;
  home = λ l i t n. absurd (omega (arith, n));
  once = λ l i t. omega arith;
}

abbrev waiting : Timers
waiting = (timer_start 1 5 0 (some 7) idle).1

timer_start-fires_example :
    (s1 : Timers) × (s2 : Timers) × (enough : ℕ) × ((fuel : ℕ)
      → enough ≤ fuel
      → (advances no_latency fuel 5 waiting ≡ some s1)
        × (timer_wheel_advance no_latency fuel s1 ≡ some s2))
    × (s1.current_tick ≡ 5)
    × (count_in 1 s1.calls ≡ 0)
    × (count_in 1 s2.calls ≡ 1)
timer_start-fires_example =
    timer_start-fires no_latency 1 5 0 7 idle no_lists idle-Holds (λ l i. refl) (omega arith)
      (omega arith)

timer_start-never_fires_example :
    (s' : Timers) × (enough : ℕ) × ((fuel : ℕ)
      → enough ≤ fuel
      → advances no_latency fuel 1000 (timer_start 1 256 0 (some 7) idle).1 ≡ some s')
    × (count_in 1 s'.calls ≡ 0)
timer_start-never_fires_example =
    timer_start-never_fires no_latency 1 256 0 7 idle no_lists idle-Holds (λ l i. refl) 1000
      (omega arith)

timer_wheel_advance_lem_example :
    (s' : Timers) × (L : Lists) × (enough : ℕ) × ((fuel : ℕ)
      → enough ≤ fuel
      → timer_wheel_advance no_latency fuel idle ≡ some s')
    × Holds s' L
    × (s'.current_tick ≡ 1)
timer_wheel_advance_lem_example = timer_wheel_advance_lem no_latency idle no_lists idle-Holds

-- three timers in one slot, which tick 1 puts back in the opposite order; the new first one keeps its old
-- neighbour as `prev`, so that `timer_stop` leaves it in its slot and cuts the two others off
abbrev crowded : Timers
crowded =
    let s1 = (timer_start 3 25 0 (some 7) idle).1 in
    let s2 = (timer_start 2 17 0 (some 7) s1).1 in (timer_start 1 9 0 (some 7) s2).1

abbrev links : Option Timers → List (Option ℕ)
links none = []
links (some s) = s.wheel 0 1 ∷ s.next 3 ∷ s.next 2 ∷ s.next 1 ∷ s.prev 3 ∷ []

put_back : links (advances no_latency 9 2 crowded) ≡ some 3 ∷ some 2 ∷ some 1 ∷ none ∷ some 2 ∷ []
unfolding advances timer_wheel_advance timer_start process_all timer_wheel_add find_level
    get_wheel_index cascade cascade_timers add_again process
put_back = refl

cut_off :
    links (advances no_latency 9 2 crowded >>= (λ s. some (timer_stop 3 s)))
    ≡ some 3 ∷ none ∷ some 2 ∷ none ∷ none ∷ []
unfolding advances timer_wheel_advance timer_start timer_stop process_all timer_wheel_add find_level
    get_wheel_index cascade cascade_timers add_again process
cut_off = refl
