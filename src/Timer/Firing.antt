-- ===== src/Timer/Firing.antt =====
-- mini_rtos/src/timer.c: when the callback of a timer runs.
use self_mini_os.Common.{
  ℕ, zero, suc, ◌+◌, ◌-◌, ◌≤◌, ◌<◌, ◌≡◌, refl, sym, ap, ◌∙◌, ◌⊎◌, inl, inr, Option, some, List,
  arith, ◌>>=◌, add32, u32_mod,
}
use self_mini_os.Traffic.{assign}
use self_mini_os.Traffic.Chains.{count_in, assign_self}
use self_mini_os.Timer.{Timers, timer_wheel_add, timer_wheel_advance}
use self_mini_os.Timer.Base.{timer_start}
use self_mini_os.Timer.Slots.{Lists, Holds, IsQueued, put, put_self, timer_wheel_add-Holds}
use self_mini_os.Timer.Rounds.{Waits, same-Holds}
use self_mini_os.Timer.Advance.{timer_wheel_advance-Advanced}

-- `n` calls of `timer_wheel_advance`
unfoldable pub advances : (List ℕ → ℕ) → ℕ → ℕ → Timers → Option Timers
advances latency fuel zero s = some s
advances latency fuel (suc n) s =
    timer_wheel_advance latency fuel s >>= (λ s'. advances latency fuel n s')

-- `timer_wheel_advance` ends, with as much fuel as some number says, and leaves every slot the chain of its
-- timers, each at the place of its time and none twice; the tick goes up by one.
pub timer_wheel_advance_lem :
    (latency : List ℕ → ℕ) (s : Timers) (L : Lists)
    → Holds s L
    → (s' : Timers) × (L' : Lists) × (enough : ℕ) × ((fuel : ℕ)
        → enough ≤ fuel
        → timer_wheel_advance latency fuel s ≡ some s')
      × Holds s' L'
      × (s'.current_tick ≡ add32 s.current_tick 1)
timer_wheel_advance_lem latency s L v =
    let (s', L', enough, run, a) = timer_wheel_advance-Advanced latency s L v in
    (s', L', enough, run, a.holds, a.tick)

-- a timer whose time does not come in `n` ticks
abbrev IsLate : ℕ → ℕ → Timers → Type 0
IsLate n u s = (256 ≤ s.expires u) ⊎ ((s.current_tick + n ≤ s.expires u) × (s.expires u < 256))

record Quiet (n u : ℕ) (s s' : Timers) (L' : Lists) : Type 0 where
  holds : Holds s' L'
  waits : Waits u s s' L'
  callback : s'.callback ≡ s.callback
  tick : s.current_tick + n < u32_mod → s'.current_tick ≡ s.current_tick + n

IsLate-first :
    (n u : ℕ) (s : Timers)
    → IsLate (suc n) u s
    → (256 ≤ s.expires u) ⊎ (s.current_tick < s.expires u)
IsLate-first n u s (inl far) = inl far
IsLate-first n u s (inr (le, near)) = inr (omega (arith, le))

IsLate-rest :
    (n u : ℕ) (s s' : Timers)
    → s'.expires u ≡ s.expires u
    → s'.current_tick ≡ add32 s.current_tick 1
    → IsLate (suc n) u s
    → IsLate n u s'
IsLate-rest n u s s' e t (inl far) = inl (omega (arith, e))
IsLate-rest n u s s' e t (inr (le, near)) =
    inr (ground (arith, e, t, le, near), omega (arith, e, near))

advances-Quiet :
    (latency : List ℕ → ℕ) (n u : ℕ) (s : Timers) (L : Lists)
    → Holds s L
    → IsQueued u L
    → IsLate n u s
    → (s' : Timers) × (L' : Lists) × (enough : ℕ) × ((fuel : ℕ)
        → enough ≤ fuel
        → advances latency fuel n s ≡ some s')
      × Quiet n u s s' L'
unfolding advances
advances-Quiet latency zero u s L v q late = (
  s,
  L,
  0,
  λ fuel le. refl,
  record {
    holds = v;
    waits = record { expires = refl; calls = refl; queued = q };
    callback = refl;
    tick = λ low. omega arith;
  },
)
advances-Quiet latency (suc n) u s L v q late =
    let (s1, L1, m1, run1, a) = timer_wheel_advance-Advanced latency s L v in
    let w = a.waits u q (IsLate-first n u s late) in
    let (s2, L2, m2, run2, b) =
      advances-Quiet latency n u s1 L1 a.holds w.queued
        (IsLate-rest n u s s1 w.expires a.tick late) in
    (
      s2,
      L2,
      m1 + m2,
      λ fuel le.
          ap (λ o. o >>= (λ z. advances latency fuel n z)) (run1 fuel (omega arith))
          ∙ run2 fuel (omega arith),
      record {
        holds = b.holds;
        waits = record {
          expires = b.waits.expires ∙ w.expires;
          calls = b.waits.calls ∙ w.calls;
          queued = b.waits.queued;
        };
        callback = b.callback ∙ a.callback;
        tick = λ low. ground (arith, a.tick, b.tick);
      },
    )

module _ (latency : List ℕ → ℕ) (t expires period f : ℕ) (s : Timers) (L : Lists) (v : Holds s L)
    (out : (l i : ℕ) → count_in t (L l i) ≡ 0) where
  abbrev started : Timers
  started = (timer_start t expires period (some f) s).1

  record Started (L' : Lists) : Type 0 where
    holds : Holds started L'
    queued : IsQueued t L'
    at : started.expires t ≡ expires
    does : started.callback t ≡ some f
    calls : started.calls ≡ s.calls
    tick : started.current_tick ≡ s.current_tick

  timer_start-Started : (L' : Lists) × Started L'
  unfolding timer_start timer_wheel_add
  timer_start-Started =
      let s1 : Timers = record s {
        expires = assign s.expires t expires;
        period = assign s.period t period;
        callback = assign s.callback t (some f);
      } in
      let v1 : Holds s1 L = same-Holds t s s1 L refl refl (λ u d. rw d) out v in
      let h = timer_wheel_add-Holds t s1 L v1 out in
      (
        put t s1 L,
        record {
          holds = record { chain = h.chain; home = h.home; once = h.once };
          queued = put_self t s1 L (out _ _);
          at = assign_self s.expires t expires;
          does = assign_self s.callback t (some f);
          calls = refl;
          tick = refl;
        },
      )

  -- A timer that is in no list of the wheel and is started for one of the first 256 ticks, not before the
  -- current one, has its callback run in the tick that it is started for: not in those before, and once
  -- in that one. All these ticks end, with enough fuel, and no other call comes between them.
  pub timer_start-fires :
      s.current_tick ≤ expires
      → expires < 256
      → (s1 : Timers) × (s2 : Timers) × (enough : ℕ) × ((fuel : ℕ)
          → enough ≤ fuel
          → (advances latency fuel (expires - s.current_tick) started ≡ some s1)
            × (timer_wheel_advance latency fuel s1 ≡ some s2))
        × (s1.current_tick ≡ expires)
        × (count_in t s1.calls ≡ count_in t s.calls)
        × (count_in t s2.calls ≡ suc (count_in t s.calls))
  timer_start-fires le near =
      let (L1, a) = timer_start-Started in
      let n = expires - s.current_tick in
      let (s1, L2, m, run, b) =
        advances-Quiet latency n t started L1 a.holds a.queued
          (inr (omega (arith, a.at, a.tick), omega (arith, a.at))) in
      let (s2, L3, m', run', c) = timer_wheel_advance-Advanced latency s1 L2 b.holds in
      let now : s1.current_tick ≡ expires =
        b.tick (omega (arith, a.tick, le, near)) ∙ omega (arith, a.tick, le) in
      let before : count_in t s1.calls ≡ count_in t s.calls =
        b.waits.calls ∙ ap (count_in t) a.calls in
      (
        s1,
        s2,
        m + m',
        λ fuel more. (run fuel (omega arith), run' fuel (omega arith)),
        now,
        before,
        c.fires t f b.waits.queued (omega (arith, b.waits.expires, a.at, near))
              (b.waits.expires ∙ a.at ∙ sym now) (ap (λ g. g t) b.callback ∙ a.does)
            ∙ ap suc before,
      )

  -- A timer that is in no list of the wheel and is started for tick 256 or a later one never has its
  -- callback run, however many ticks follow and nothing else. All these ticks end, with enough fuel.
  pub timer_start-never_fires :
      (n : ℕ)
      → 256 ≤ expires
      → (s' : Timers) × (enough : ℕ) × ((fuel : ℕ)
          → enough ≤ fuel
          → advances latency fuel n started ≡ some s')
        × (count_in t s'.calls ≡ count_in t s.calls)
  timer_start-never_fires n far =
      let (L1, a) = timer_start-Started in
      let (s', L2, m, run, b) =
        advances-Quiet latency n t started L1 a.holds a.queued (inl (omega (arith, a.at))) in
      (s', m, run, b.waits.calls ∙ ap (count_in t) a.calls)
