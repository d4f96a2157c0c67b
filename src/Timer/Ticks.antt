-- ===== src/Timer/Ticks.antt =====
-- mini_rtos/src/timer.c: whole loops, and `timer_wheel_advance`.
use self_mini_os.Common.{
  ℕ, zero, suc, ◌≤◌, ◌<◌, ◌≡◌, refl, ap, ◌∙◌, inl, inr, true, Option, some, List, [], ◌∷◌, ◌==◌,
  length, arith, Bool-cases,
}
use self_mini_os.Traffic.Chains.{count_in}
use self_mini_os.Timer.{Timers, process, process_all}
use self_mini_os.Timer.Slots.{Lists, Holds, Pending}
use self_mini_os.Timer.Rounds.{Step, Calm, Waits, process-Rounded}

module _ (s s1 s2 : Timers) (L L1 L2 : Lists) (t : ℕ) (xs : List ℕ) (gone : count_in t xs ≡ 0)
    (a : Step s s1 L L1 (t ∷ [])) (b : Step s1 s2 L1 L2 xs) where
  step-Calm : (u : ℕ) → count_in u (t ∷ xs) ≡ 0 → Calm u s s2 L L2
  step-Calm u n =
      let c = a.calm u (ground arith) in
      let d = b.calm u (ground arith) in
      record {
        expires = d.expires ∙ c.expires;
        calls = d.calls ∙ c.calls;
        lists = λ l i. d.lists l i ∙ c.lists l i;
      }

  step_early : (u : ℕ) → count_in u (t ∷ xs) ≡ 1 → s.current_tick < s.expires u → Waits u s s2 L2
  step_early u n lt = elim (Bool-cases (u == t)) [
    | inl e ↦
        let c = a.early u (rw e refl) lt in
        let same : u ≡ t = ground arith in
        let d = b.calm u (ap (λ w. count_in w xs) same ∙ gone) in
        let (l, i, m) = c.queued in
        record {
          expires = d.expires ∙ c.expires;
          calls = d.calls ∙ c.calls;
          queued = (l, i, d.lists l i ∙ m);
        }
    | inr e ↦
        let c = a.calm u (rw e refl) in
        let d = b.early u (ground arith) (omega (arith, a.tick, c.expires)) in
        record { expires = d.expires ∙ c.expires; calls = d.calls ∙ c.calls; queued = d.queued }
  ]

  step_fires :
      (u f : ℕ)
      → count_in u (t ∷ xs) ≡ 1
      → s.expires u ≤ s.current_tick
      → s.callback u ≡ some f
      → count_in u s2.calls ≡ suc (count_in u s.calls)
  step_fires u f n le c = elim (Bool-cases (u == t)) [
    | inl e ↦
        let same : u ≡ t = ground arith in
        (b.calm u (ap (λ w. count_in w xs) same ∙ gone)).calls ∙ a.fires u f (rw e refl) le c
    | inr e ↦
        let q = a.calm u (rw e refl) in
        b.fires u f (ground arith) (omega (arith, a.tick, q.expires)) (ap (λ g. g u) a.callback ∙ c)
        ∙ ap suc q.calls
  ]

  compose : Step s s2 L L2 (t ∷ xs)
  compose = record {
    holds = b.holds;
    tick = b.tick ∙ a.tick;
    callback = b.callback ∙ a.callback;
    calm = step-Calm;
    early = step_early;
    fires = step_fires;
  }

no_Step : (s : Timers) (L : Lists) → Holds s L → Step s s L L []
no_Step s L v = record {
  holds = v;
  tick = refl;
  callback = refl;
  calm = λ u n. record { expires = refl; calls = refl; lists = λ l i. refl };
  early = λ u n lt. cc n;
  fires = λ u f n le c. cc n;
}

process_all_fuel :
    (latency : List ℕ → ℕ) (s s' : Timers) (t n : ℕ)
    → ((fuel : ℕ) → n ≤ fuel → process_all latency fuel (s.next t) (process latency t s) ≡ some s')
    → (fuel : ℕ) → suc n ≤ fuel
    → process_all latency fuel (some t) s ≡ some s'
unfolding process_all
process_all_fuel latency s s' t n run zero le = absurd (omega (arith, le))
process_all_fuel latency s s' t n run (suc fuel) le = run fuel (omega arith)

-- the loop of `timer_wheel_advance` ends, with as much fuel as the list has timers
pub process_all-Step :
    (latency : List ℕ → ℕ) (xs : List ℕ) (s : Timers) (L : Lists) (h : Option ℕ)
    → Holds s L
    → Pending s L h xs
    → (s' : Timers) × (L' : Lists) × ((fuel : ℕ)
        → length xs ≤ fuel
        → process_all latency fuel h s ≡ some s')
      × Step s s' L L' xs
unfolding process_all
process_all-Step latency [] s L h v p =
    (s, L, λ fuel le. ap (λ g. process_all latency fuel g s) p.chain, no_Step s L v)
process_all-Step latency (t ∷ xs) s L h v p =
    let (L1, a, p1) = process-Rounded latency s L t xs h v p in
    let (s2, L2, run, b) =
      process_all-Step latency xs (process latency t s) L1 (s.next t) a.holds p1 in
    let gone : count_in t xs ≡ 0 =
      let e : (t == t) ≡ true = ground arith in ground (arith, p.once t) in
    (
      s2,
      L2,
      λ fuel le.
          ap (λ g. process_all latency fuel g s) p.chain.0
          ∙ process_all_fuel latency s s2 t (length xs) run fuel le,
      compose s (process latency t s) s2 L L1 L2 t xs gone a b,
    )
