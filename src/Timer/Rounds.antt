-- ===== src/Timer/Rounds.antt =====
-- mini_rtos/src/timer.c: the loops of `cascade_timers` and of `timer_wheel_advance` over a list cut off from the
-- wheel.
use self_mini_os.Common.{
  ℕ, suc, ◌≤◌, ◌<◌, ◌≡◌, refl, sym, ap, ◌∙◌, inl, inr, true, false, Option, none, some, List, [],
  ◌∷◌, ◌==◌, arith, Bool-cases, leb, add32,
}
use mathlib.Core.Path.{subst}
use self_mini_os.Traffic.{assign}
use self_mini_os.Traffic.Chains.{count_in, Chain, Chain-frame, assign_ne}
use self_mini_os.Timer.{
  TimerType, oneshot, periodic, high_res, cpu_specific, deferrable, Timers, get_wheel_index,
  level_of, timer_wheel_add, call, called, renew, process, expired, inactive,
}
use self_mini_os.Timer.Slots.{
  Lists, Holds, Pending, IsQueued, put, put_self, put_other, timer_wheel_add-Holds,
}

-- the rest of a list whose first timer is put into the wheel
pub add-Pending :
    (s : Timers) (L : Lists) (t : ℕ) (xs : List ℕ) (h : Option ℕ)
    → Pending s L h (t ∷ xs)
    → Pending (timer_wheel_add t s) (put t s L) (s.next t) xs
unfolding timer_wheel_add
add-Pending s L t xs h p =
    let e : (t == t) ≡ true = ground arith in
    let gone : count_in t xs ≡ 0 = ground (arith, p.once t) in
    record {
      chain = Chain-frame s.next (s.next t) xs t _ gone p.chain.1;
      out = λ u l i m. elim (Bool-cases (u == t)) [
        | inl q ↦ absurd (ground (arith, gone))
        | inr q ↦ put_other t u l i s L q ∙ p.out u l i (rw q m)
      ];
      once = λ u. ground (arith, p.once u);
    }

-- what a step leaves of a timer that it does not concern
pub record Calm (u : ℕ) (s s' : Timers) (L L' : Lists) : Type 0 where
  pub expires : s'.expires u ≡ s.expires u
  pub calls : count_in u s'.calls ≡ count_in u s.calls
  pub lists : (l i : ℕ) → count_in u (L' l i) ≡ count_in u (L l i)

-- a timer that waits in the wheel
pub record Waits (u : ℕ) (s s' : Timers) (L' : Lists) : Type 0 where
  pub expires : s'.expires u ≡ s.expires u
  pub calls : count_in u s'.calls ≡ count_in u s.calls
  pub queued : IsQueued u L'

-- a step over the timers `xs`, cut off from the wheel
pub record Step (s s' : Timers) (L L' : Lists) (xs : List ℕ) : Type 0 where
  pub holds : Holds s' L'
  pub tick : s'.current_tick ≡ s.current_tick
  pub callback : s'.callback ≡ s.callback
  pub calm : (u : ℕ) → count_in u xs ≡ 0 → Calm u s s' L L'
  pub early : (u : ℕ) → count_in u xs ≡ 1 → s.current_tick < s.expires u → Waits u s s' L'
  pub fires :
      (u f : ℕ)
      → count_in u xs ≡ 1
      → s.expires u ≤ s.current_tick
      → s.callback u ≡ some f
      → count_in u s'.calls ≡ suc (count_in u s.calls)

pub first_out :
    (s : Timers) (L : Lists) (t : ℕ) (xs : List ℕ) (h : Option ℕ)
    → Pending s L h (t ∷ xs)
    → (l i : ℕ) → count_in t (L l i) ≡ 0
first_out s L t xs h p l i =
    let e : (t == t) ≡ true = ground arith in p.out t l i (rw e (omega arith))

only : (u t : ℕ) → count_in u (t ∷ []) ≡ 1 → u ≡ t
only u t e = ground arith

other : (u t : ℕ) → count_in u (t ∷ []) ≡ 0 → (u == t) ≡ false
other u t e = ground arith

-- a timer that is put back
add-Step :
    (s : Timers) (L : Lists) (t : ℕ) (xs : List ℕ) (h : Option ℕ)
    → Holds s L
    → Pending s L h (t ∷ xs)
    → s.current_tick < s.expires t
    → Step s (timer_wheel_add t s) L (put t s L) (t ∷ [])
unfolding timer_wheel_add
add-Step s L t xs h v p late = record {
  holds = timer_wheel_add-Holds t s L v (first_out s L t xs h p);
  tick = refl;
  callback = refl;
  calm = λ u n. record {
    expires = refl;
    calls = refl;
    lists = λ l i. put_other t u l i s L (other u t n);
  };
  early = λ u n lt. record {
    expires = refl;
    calls = refl;
    queued =
        subst (λ v. IsQueued v (put t s L)) (sym (only u t n))
          (put_self t s L (first_out s L t xs h p _ _));
  };
  fires = λ u f n le c. absurd (omega (arith, ap s.expires (only u t n)));
}

-- a change of the timer `t`, which is not in the wheel, and of no link
pub same-Holds :
    (t : ℕ) (s s' : Timers) (L : Lists)
    → s'.next ≡ s.next
    → s'.wheel ≡ s.wheel
    → ((u : ℕ) → (u == t) ≡ false → s'.expires u ≡ s.expires u)
    → ((l i : ℕ) → count_in t (L l i) ≡ 0)
    → Holds s L
    → Holds s' L
same-Holds t s s' L a b c out h = record {
  chain = λ l i.
      subst (λ n. Chain n (s'.wheel l i) (L l i)) (sym a)
        (subst (λ w. Chain s.next (w l i) (L l i)) (sym b) (h.chain l i));
  home = λ l i u m.
      let ne : (u == t) ≡ false = elim (Bool-cases (u == t)) [
        | inl q ↦
            let same : u ≡ t = ground arith in
            absurd (omega (arith, ap (λ v. count_in v (L l i)) same, out l i))
        | inr q ↦ q
      ] in
      let (d, e) = h.home l i u m in
      (ap level_of (c u ne) ∙ d, ap (λ x. get_wheel_index x l) (c u ne) ∙ e);
  once = h.once;
}

called_other :
    (o : Option ℕ) (t u : ℕ) (cs : List ℕ)
    → (u == t) ≡ false
    → count_in u (called o t cs) ≡ count_in u cs
called_other none t u cs ne = refl
called_other (some f) t u cs ne = rw ne refl

called_self :
    (o : Option ℕ) (t f : ℕ) (cs : List ℕ)
    → o ≡ some f
    → count_in t (called o t cs) ≡ suc (count_in t cs)
called_self none t f cs e = cc e
called_self (some g) t f cs e = let q : (t == t) ≡ true = ground arith in rw q refl

module _ (latency : List ℕ → ℕ) (s : Timers) (L : Lists) (t : ℕ) (xs : List ℕ) (h : Option ℕ) where
  abbrev Rounded : Timers → Type 0
  Rounded s' = (L' : Lists) × Step s s' L L' (t ∷ []) × Pending s' L' (s.next t) xs

  module _ (v : Holds s L) (p : Pending s L h (t ∷ xs)) where
    late-Rounded : s.current_tick < s.expires t → Rounded (timer_wheel_add t s)
    late-Rounded late = (put t s L, add-Step s L t xs h v p late, add-Pending s L t xs h p)

    module _ (due : s.expires t ≤ s.current_tick) where
      abbrev s1 : Timers
      s1 = call latency t (record s { state = assign s.state t expired })

      fires_now :
          (u f : ℕ)
          → count_in u (t ∷ []) ≡ 1
          → s.callback u ≡ some f
          → count_in u s1.calls ≡ suc (count_in u s.calls)
      fires_now u f n c =
          let same = only u t n in
          ap (λ w. count_in w s1.calls) same
          ∙ called_self (s.callback t) t f s.calls (ap s.callback (sym same) ∙ c)
          ∙ ap (λ w. suc (count_in w s.calls)) (sym same)

      not_early : (u : ℕ) → count_in u (t ∷ []) ≡ 1 → ¬ (s.current_tick < s.expires u)
      not_early u n lt = omega (arith, ap s.expires (only u t n))

      -- the timer is not put back
      drop-Rounded : Rounded (record s1 { state = assign s1.state t inactive })
      drop-Rounded = (
        L,
        record {
          holds =
              same-Holds t s (record s1 { state = assign s1.state t inactive }) L refl refl
                (λ u d. refl) (first_out s L t xs h p) v;
          tick = refl;
          callback = refl;
          calm = λ u n. record {
            expires = refl;
            calls = called_other (s.callback t) t u s.calls (other u t n);
            lists = λ l i. refl;
          };
          early = λ u n lt. absurd (not_early u n lt);
          fires = λ u f n le c. fires_now u f n c;
        },
        record {
          chain = p.chain.1;
          out = λ u l i m. p.out u l i (ground arith);
          once = λ u. ground (arith, p.once u);
        },
      )

      -- the timer is put back with a new time
      again-Rounded : Rounded (
          timer_wheel_add t
            (record s1 { expires = assign s1.expires t (add32 (s1.expires t) (s1.period t)) }))
      unfolding timer_wheel_add
      again-Rounded =
          let s2 : Timers = record s1 {
            expires = assign s1.expires t (add32 (s1.expires t) (s1.period t));
          } in
          let out = first_out s L t xs h p in
          let v2 : Holds s2 L =
            same-Holds t s s2 L refl refl (λ u d. assign_ne s.expires t u _ d) out v in
          let p2 : Pending s2 L h (t ∷ xs) = record {
            chain = p.chain;
            out = p.out;
            once = p.once;
          } in
          (
            put t s2 L,
            record {
              holds = timer_wheel_add-Holds t s2 L v2 out;
              tick = refl;
              callback = refl;
              calm = λ u n. record {
                expires = assign_ne s.expires t u _ (other u t n);
                calls = called_other (s.callback t) t u s.calls (other u t n);
                lists = λ l i. put_other t u l i s2 L (other u t n);
              };
              early = λ u n lt. absurd (not_early u n lt);
              fires = λ u f n le c. fires_now u f n c;
            },
            add-Pending s2 L t xs h p2,
          )

      renew-Rounded : (type : TimerType) → Rounded (renew latency type t s1)
      unfolding renew
      renew-Rounded oneshot = drop-Rounded
      renew-Rounded periodic = again-Rounded
      renew-Rounded high_res = drop-Rounded
      renew-Rounded cpu_specific = drop-Rounded
      renew-Rounded deferrable = drop-Rounded

    pub process-Rounded : Rounded (process latency t s)
    unfolding process
    process-Rounded = elim (Bool-cases (leb (s.expires t) s.current_tick)) [
      | inl e ↦ rw e (renew-Rounded (ground arith) (s.type t))
      | inr e ↦ rw e (late-Rounded (ground arith))
    ]
