-- ===== src/Timer/Cascades.antt =====
-- mini_rtos/src/timer.c: `cascade_timers`, and the tests by which `timer_wheel_advance` calls it.
use self_mini_os.Common.{
  ℕ, zero, suc, ◌+◌, ◌%◌, ◌^◌, ◌≤◌, ◌≡◌, refl, sym, ap, ◌∙◌, ◌⊎◌, inl, inr, Bool, true, false, ◌&&◌,
  Option, none, some, List, [], ◌∷◌, ◌==◌, if◌then◌else◌, length, arith, Bool-cases, ◌>>=◌,
}
use mathlib.Core.Path.{subst}
use self_mini_os.Traffic.Chains.{count_in}
use self_mini_os.Timer.{
  Timers, set_slot, get_wheel_index, timer_wheel_add, add_again, cascade_timers, cascade,
}
use self_mini_os.Timer.Slots.{
  Lists, Holds, Pending, IsQueued, put, put_self, put_other, timer_wheel_add-Holds, cut, slot_eq,
}
use self_mini_os.Timer.Rounds.{add-Pending, first_out}

-- only the lists of the wheel change, and no timer leaves them
pub record Kept (s s' : Timers) (L L' : Lists) : Type 0 where
  pub holds : Holds s' L'
  pub expires : s'.expires ≡ s.expires
  pub calls : s'.calls ≡ s.calls
  pub tick : s'.current_tick ≡ s.current_tick
  pub callback : s'.callback ≡ s.callback
  pub queued : (u : ℕ) → IsQueued u L → IsQueued u L'

Kept-trans :
    (s s1 s2 : Timers) (L L1 L2 : Lists) → Kept s s1 L L1 → Kept s1 s2 L1 L2 → Kept s s2 L L2
Kept-trans s s1 s2 L L1 L2 a b = record {
  holds = b.holds;
  expires = b.expires ∙ a.expires;
  calls = b.calls ∙ a.calls;
  tick = b.tick ∙ a.tick;
  callback = b.callback ∙ a.callback;
  queued = λ u q. b.queued u (a.queued u q);
}

add-Kept :
    (s : Timers) (L : Lists) (t : ℕ)
    → Holds s L
    → ((l i : ℕ) → count_in t (L l i) ≡ 0)
    → Kept s (timer_wheel_add t s) L (put t s L)
unfolding timer_wheel_add
add-Kept s L t v out = record {
  holds = timer_wheel_add-Holds t s L v out;
  expires = refl;
  calls = refl;
  tick = refl;
  callback = refl;
  queued = λ u (l, i, n). elim (Bool-cases (u == t)) [
    | inl e ↦
        let same : u ≡ t = ground arith in
        subst (λ w. IsQueued w (put t s L)) (sym same) (put_self t s L (out _ _))
    | inr e ↦ (l, i, put_other t u l i s L e ∙ n)
  ];
}

add_again_fuel :
    (s s' : Timers) (t n : ℕ)
    → ((fuel : ℕ) → n ≤ fuel → add_again fuel (s.next t) (timer_wheel_add t s) ≡ some s')
    → (fuel : ℕ) → suc n ≤ fuel
    → add_again fuel (some t) s ≡ some s'
unfolding add_again
add_again_fuel s s' t n run zero le = absurd (omega (arith, le))
add_again_fuel s s' t n run (suc fuel) le = run fuel (omega arith)

-- the loop ends, and puts the timers of the list back into the wheel
add_again-Kept :
    (xs : List ℕ) (s : Timers) (L : Lists) (h : Option ℕ)
    → Holds s L
    → Pending s L h xs
    → (s' : Timers) × (L' : Lists) × ((fuel : ℕ) → length xs ≤ fuel → add_again fuel h s ≡ some s')
      × Kept s s' L L'
      × ((u : ℕ) → 1 ≤ count_in u xs → IsQueued u L')
unfolding add_again
add_again-Kept [] s L h v p = (
  s,
  L,
  λ fuel le. ap (λ g. add_again fuel g s) p.chain,
  record {
    holds = v;
    expires = refl;
    calls = refl;
    tick = refl;
    callback = refl;
    queued = λ u q. q;
  },
  λ u n. absurd (omega arith),
)
add_again-Kept (t ∷ xs) s L h v p =
    let out = first_out s L t xs h p in
    let a = add-Kept s L t v out in
    let (s2, L2, run, b, all) =
      add_again-Kept xs (timer_wheel_add t s) (put t s L) (s.next t) a.holds
        (add-Pending s L t xs h p) in
    (
      s2,
      L2,
      λ fuel le.
          ap (λ g. add_again fuel g s) p.chain.0 ∙ add_again_fuel s s2 t (length xs) run fuel le,
      Kept-trans s (timer_wheel_add t s) s2 L (put t s L) L2 a b,
      λ u n. elim (Bool-cases (u == t)) [
        | inl e ↦
            let same : u ≡ t = ground arith in
            b.queued u (subst (λ w. IsQueued w (put t s L)) (sym same) (put_self t s L (out _ _)))
        | inr e ↦ all u (ground arith)
      ],
    )

-- a timer of the wheel is in the list cut off or still in the wheel
pub cut-split :
    (l i u : ℕ) (L : Lists)
    → IsQueued u L
    → (1 ≤ count_in u (L l i)) ⊎ IsQueued u (set_slot L l i [])
cut-split l i u L (m, j, n) = elim (Bool-cases ((m == l) && (j == i))) [
  | inl e ↦
      let (a, b) = slot_eq m j l i e in
      inl (
        omega
          (arith, ap (λ k. count_in u (L k i)) (sym a), ap (λ k. count_in u (L m k)) (sym b), n))
  | inr e ↦ inr (m, j, rw e n)
]

-- `cascade_timers` ends, and loses no timer
pub cascade_timers-Kept :
    (level : ℕ) (s : Timers) (L : Lists)
    → Holds s L
    → (s' : Timers) × (L' : Lists) × (enough : ℕ) × ((fuel : ℕ)
        → enough ≤ fuel
        → cascade_timers fuel level s ≡ some s')
      × Kept s s' L L'
unfolding cascade_timers
cascade_timers-Kept level s L v =
    let index = get_wheel_index s.current_tick level in
    let s1 : Timers = record s { wheel = set_slot s.wheel level index none } in
    let (v1, p) = cut level index s L v in
    let (s2, L2, run, k, all) =
      add_again-Kept (L level index) s1 (set_slot L level index []) (s.wheel level index) v1 p in
    (
      s2,
      L2,
      length (L level index),
      run,
      record {
        holds = k.holds;
        expires = k.expires;
        calls = k.calls;
        tick = k.tick;
        callback = k.callback;
        queued =
            λ u q. elim (cut-split level index u L q) [ inl a ↦ all u a | inr b ↦ k.queued u b ];
      },
    )

same-Kept : (s : Timers) (L : Lists) → Holds s L → Kept s s L L
same-Kept s L v = record {
  holds = v;
  expires = refl;
  calls = refl;
  tick = refl;
  callback = refl;
  queued = λ u q. q;
}

abbrev pub Runs : (ℕ → Timers → Option Timers) → Timers → Lists → Type 0
Runs f s L =
    (s' : Timers) × (L' : Lists) × (enough : ℕ) × ((fuel : ℕ) → enough ≤ fuel → f fuel s ≡ some s')
    × Kept s s' L L'

-- a cascade of one level if a test holds, with more behind it
guarded :
    (b : Bool) (level : ℕ) (rest : ℕ → Timers → Option Timers) (s : Timers) (L : Lists)
    → ((z : Timers) (M : Lists) → Holds z M → Runs rest z M)
    → Holds s L
    → Runs (λ fuel z. if b then cascade_timers fuel level z >>= rest fuel else some z) s L
guarded false level rest s L more v = (s, L, 0, λ fuel le. refl, same-Kept s L v)
guarded true level rest s L more v =
    let (s1, L1, m1, run1, k1) = cascade_timers-Kept level s L v in
    let (s2, L2, m2, run2, k2) = more s1 L1 k1.holds in
    (
      s2,
      L2,
      m1 + m2,
      λ fuel le. ap (λ o. o >>= rest fuel) (run1 fuel (omega arith)) ∙ run2 fuel (omega arith),
      Kept-trans s s1 s2 L L1 L2 k1 k2,
    )

last_guarded :
    (b : Bool) (s : Timers) (L : Lists)
    → Holds s L
    → Runs (λ fuel z. if b then cascade_timers fuel 3 z else some z) s L
last_guarded false s L v = (s, L, 0, λ fuel le. refl, same-Kept s L v)
last_guarded true s L v = cascade_timers-Kept 3 s L v

pub cascade-Kept : (s : Timers) (L : Lists) → Holds s L → Runs cascade s L
unfolding cascade
cascade-Kept s L v =
    guarded (s.current_tick % 2 ^ 8 == 0) 1
      (λ fuel s1.
        if s1.current_tick % 2 ^ 16 == 0
        then cascade_timers fuel 2 s1
          >>= (λ s2. if s2.current_tick % 2 ^ 24 == 0 then cascade_timers fuel 3 s2 else some s2)
        else some s1)
      s L
      (λ z M w.
        guarded (z.current_tick % 2 ^ 16 == 0) 2
          (λ fuel s2. if s2.current_tick % 2 ^ 24 == 0 then cascade_timers fuel 3 s2 else some s2) z
          M (λ y N x. last_guarded (y.current_tick % 2 ^ 24 == 0) y N x) w)
      v
