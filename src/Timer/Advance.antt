-- ===== src/Timer/Advance.antt =====
-- mini_rtos/src/timer.c: what a call of `timer_wheel_advance` does with each timer.
use self_mini_os.Common.{
  ℕ, zero, suc, ◌+◌, ◌%◌, ◌≤◌, ◌<◌, ◌≡◌, sym, ap, ◌∙◌, ◌⊎◌, inl, inr, Option, none, some, List, [],
  length, arith, Bool-cases, leb, ◌>>=◌, add32,
}
use self_mini_os.Traffic.Chains.{count_in}
use self_mini_os.Timer.{
  Timers, set_slot, get_wheel_index, find_level, level_of, timer_wheel_advance, cascade,
  timer_wheel_size,
}
use self_mini_os.Timer.Slots.{Lists, Holds, IsQueued, cut, absent}
use self_mini_os.Timer.Rounds.{Step, Waits}
use self_mini_os.Timer.Cascades.{Kept, cascade-Kept, cut-split}
use self_mini_os.Timer.Ticks.{process_all-Step}

find_level-positive : (e level rest : ℕ) → 1 ≤ level → 1 ≤ find_level e level rest
unfolding find_level
find_level-positive e level zero le = omega arith
find_level-positive e level (suc rest) le =
    ground (arith, find_level-positive e (suc level) rest (omega arith))

-- the timers of the first 256 ticks are those of the lowest level
pub level_of-far : (e : ℕ) → 256 ≤ e → 1 ≤ level_of e
unfolding find_level
level_of-far e far = ground (arith, find_level-positive e 1 3 (omega arith))

pub level_of-near : (e : ℕ) → e < 256 → level_of e ≡ 0
unfolding find_level
level_of-near e near = ground arith

index_low : (e : ℕ) → get_wheel_index e 0 ≡ e % 8
unfolding get_wheel_index
index_low e = omega arith

-- a timer is at the place of its time
at_home :
    (s : Timers) (L : Lists) (u : ℕ)
    → Holds s L
    → IsQueued u L
    → s.expires u < 256
    → count_in u (L 0 (s.expires u % 8)) ≡ 1
at_home s L u v (l, i, n) near =
    let (a, b) = v.home l i u (omega (arith, n)) in
    let low : l ≡ 0 = sym a ∙ level_of-near (s.expires u) near in
    let index : s.expires u % 8 ≡ i =
      sym (index_low (s.expires u)) ∙ ap (get_wheel_index (s.expires u)) (sym low) ∙ b in
    ap (λ m. count_in u (L m (s.expires u % 8))) (sym low) ∙ ap (λ j. count_in u (L l j)) index ∙ n

pub record Advanced (s s' : Timers) (L L' : Lists) : Type 0 where
  pub holds : Holds s' L'
  pub tick : s'.current_tick ≡ add32 s.current_tick 1
  pub callback : s'.callback ≡ s.callback
  pub waits :
      (u : ℕ)
      → IsQueued u L
      → (256 ≤ s.expires u) ⊎ (s.current_tick < s.expires u)
      → Waits u s s' L'
  pub fires :
      (u f : ℕ)
      → IsQueued u L
      → s.expires u < 256
      → s.expires u ≡ s.current_tick
      → s.callback u ≡ some f
      → count_in u s'.calls ≡ suc (count_in u s.calls)

not_low :
    (s : Timers) (L : Lists) (u i : ℕ) → Holds s L → 256 ≤ s.expires u → count_in u (L 0 i) ≡ 0
not_low s L u i v far =
    absent (count_in u (L 0 i))
      (λ n. omega (arith, (v.home 0 i u n).0, level_of-far (s.expires u) far))

module _ (s s1 s2 : Timers) (L L1 L2 : Lists) (i : ℕ) (v : Holds s L)
    (a : Step (record s { wheel = set_slot s.wheel 0 i none }) s1 (set_slot L 0 i []) L1 (L 0 i))
    (k : Kept s1 s2 L1 L2) where
  cut-Calm : (u : ℕ) → count_in u (L 0 i) ≡ 0 → IsQueued u L → Waits u s s2 L2
  cut-Calm u n q = elim (cut-split 0 i u L q) [
    | inl b ↦ absurd (omega (arith, b, n))
    | inr (l, j, m) ↦
        let c = a.calm u n in
        record {
          expires = ap (λ g. g u) k.expires ∙ c.expires;
          calls = ap (count_in u) k.calls ∙ c.calls;
          queued = k.queued u (l, j, c.lists l j ∙ m);
        }
  ]

  cut_early : (u : ℕ) → 1 ≤ count_in u (L 0 i) → s.current_tick < s.expires u → Waits u s s2 L2
  cut_early u n lt =
      let c = a.early u (omega (arith, v.once 0 i u)) lt in
      record {
        expires = ap (λ g. g u) k.expires ∙ c.expires;
        calls = ap (count_in u) k.calls ∙ c.calls;
        queued = k.queued u c.queued;
      }

  cut-Waits :
      (u : ℕ)
      → IsQueued u L
      → (256 ≤ s.expires u) ⊎ (s.current_tick < s.expires u)
      → Waits u s s2 L2
  cut-Waits u q (inl far) = cut-Calm u (not_low s L u i v far) q
  cut-Waits u q (inr lt) = elim (Bool-cases (leb 1 (count_in u (L 0 i)))) [
    | inl e ↦ cut_early u (ground arith) lt
    | inr e ↦ cut-Calm u (ground arith) q
  ]

-- With enough fuel a tick ends.
pub timer_wheel_advance-Advanced :
    (latency : List ℕ → ℕ) (s : Timers) (L : Lists)
    → Holds s L
    → (s' : Timers) × (L' : Lists) × (enough : ℕ) × ((fuel : ℕ)
        → enough ≤ fuel
        → timer_wheel_advance latency fuel s ≡ some s')
      × Advanced s s' L L'
unfolding timer_wheel_advance
timer_wheel_advance-Advanced latency s L v =
    let i = s.current_tick % timer_wheel_size in
    let (v0, p) = cut 0 i s L v in
    let (s1, L1, run, a) =
      process_all-Step latency (L 0 i) (record s { wheel = set_slot s.wheel 0 i none })
        (set_slot L 0 i []) (s.wheel 0 i) v0 p in
    let (s2, L2, m, run', k) = cascade-Kept s1 L1 a.holds in
    let s3 : Timers = record s2 { current_tick = add32 s2.current_tick 1 } in
    let waits = cut-Waits s s1 s2 L L1 L2 i v a k in
    (
      s3,
      L2,
      length (L 0 i) + m,
      λ fuel le.
          ap
            (λ o.
              o
              >>= (λ z. cascade fuel z)
              >>= (λ z. some (record z { current_tick = add32 z.current_tick 1 })))
            (run fuel (omega arith))
          ∙ ap
              (λ (o : Option Timers).
                o >>= (λ z. some (record z { current_tick = add32 z.current_tick 1 })))
              (run' fuel (omega arith)),
      record {
        holds = record { chain = k.holds.chain; home = k.holds.home; once = k.holds.once };
        tick = ap (λ x. add32 x 1) (k.tick ∙ a.tick);
        callback = k.callback ∙ a.callback;
        waits = λ u q w.
            let z = waits u q w in
            record { expires = z.expires; calls = z.calls; queued = z.queued };
        fires = λ u f q near now c.
            let here : count_in u (L 0 i) ≡ 1 =
              ap (λ x. count_in u (L 0 (x % 8))) (sym now) ∙ at_home s L u v q near in
            ap (count_in u) k.calls ∙ a.fires u f here (omega (arith, now)) c;
      },
    )
