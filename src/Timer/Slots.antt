-- ===== src/Timer/Slots.antt =====
-- mini_rtos/src/timer.c: the lists of the wheel as lists of timers, and `timer_wheel_add` on them.
use self_mini_os.Common.{
  ℕ, zero, suc, ◌≤◌, ◌≡◌, refl, sym, ap, ◌∙◌, inl, inr, true, false, ◌&&◌, Option, none, List, [],
  ◌∷◌, ◌==◌, arith, Bool-cases,
}
use mathlib.Core.Path.{subst}
use self_mini_os.Traffic.{assign}
use self_mini_os.Traffic.Chains.{count_in, Chain, Chain-frame, assign_self}
use self_mini_os.Timer.{Timers, set_slot, get_wheel_index, level_of, timer_wheel_add}

abbrev pub Lists : Type 0
Lists = ℕ → ℕ → List ℕ

-- every slot is the chain of its timers, which belong there by the time they expire at, each once
pub record Holds (s : Timers) (L : Lists) : Type 0 where
  pub chain : (l i : ℕ) → Chain s.next (s.wheel l i) (L l i)
  pub home :
      (l i t : ℕ)
      → 1 ≤ count_in t (L l i)
      → (level_of (s.expires t) ≡ l) × (get_wheel_index (s.expires t) l ≡ i)
  pub once : (l i t : ℕ) → count_in t (L l i) ≤ 1

-- a list cut off from the wheel
pub record Pending (s : Timers) (L : Lists) (h : Option ℕ) (xs : List ℕ) : Type 0 where
  pub chain : Chain s.next h xs
  pub out : (t l i : ℕ) → 1 ≤ count_in t xs → count_in t (L l i) ≡ 0
  pub once : (t : ℕ) → count_in t xs ≤ 1

abbrev pub IsQueued : ℕ → Lists → Type 0
IsQueued t L = (l : ℕ) × (i : ℕ) × (count_in t (L l i) ≡ 1)

pub absent : (n : ℕ) → ((1 ≤ n) → ⊥) → n ≡ 0
absent zero hit = refl
absent (suc n) hit = absurd (hit (omega arith))

abbrev pub put : ℕ → Timers → Lists → Lists
put t s L =
    let level = level_of (s.expires t) in
    let index = get_wheel_index (s.expires t) level in set_slot L level index (t ∷ L level index)

pub slot_eq : (l i m j : ℕ) → ((l == m) && (i == j)) ≡ true → (l ≡ m) × (i ≡ j)
slot_eq l i m j e = (ground arith, ground arith)

pub put_self :
    (t : ℕ) (s : Timers) (L : Lists)
    → count_in t
        (L (level_of (s.expires t)) (get_wheel_index (s.expires t) (level_of (s.expires t))))
      ≡ 0
    → IsQueued t (put t s L)
put_self t s L out =
    let level = level_of (s.expires t) in
    let index = get_wheel_index (s.expires t) level in
    let e : ((level == level) && (index == index)) ≡ true = ground arith in
    let f : (t == t) ≡ true = ground arith in (level, index, rw (e, f) (ap suc out))

pub put_other :
    (t u l i : ℕ) (s : Timers) (L : Lists)
    → (u == t) ≡ false
    → count_in u (put t s L l i) ≡ count_in u (L l i)
put_other t u l i s L ne =
    let level = level_of (s.expires t) in
    let index = get_wheel_index (s.expires t) level in
    elim (Bool-cases ((l == level) && (i == index))) [
      | inl e ↦
          let (a, b) = slot_eq l i level index e in
          rw (e, ne)
            (ap (λ m. count_in u (L m index)) (sym a) ∙ ap (λ j. count_in u (L l j)) (sym b))
      | inr e ↦ rw e refl
    ]

pub timer_wheel_add-Holds :
    (t : ℕ) (s : Timers) (L : Lists)
    → Holds s L
    → ((l i : ℕ) → count_in t (L l i) ≡ 0)
    → Holds (timer_wheel_add t s) (put t s L)
unfolding timer_wheel_add
timer_wheel_add-Holds t s L h out =
    let level = level_of (s.expires t) in
    let index = get_wheel_index (s.expires t) level in
    let head = s.wheel level index in
    record {
      chain = λ l i. elim (Bool-cases ((l == level) && (i == index))) [
        | inl e ↦ rw e (
          refl,
          subst (λ n. Chain (assign s.next t head) n (L level index))
              (sym (assign_self s.next t head))
              (Chain-frame s.next head (L level index) t head (out level index)
                (h.chain level index)),
        )
        | inr e ↦ rw e (Chain-frame s.next (s.wheel l i) (L l i) t head (out l i) (h.chain l i))
      ];
      home = λ l i u m. elim (Bool-cases (u == t)) [
        | inl q ↦
            let same : u ≡ t = ground arith in
            elim (Bool-cases ((l == level) && (i == index))) [
              | inl e ↦
                  let (a, b) = slot_eq l i level index e in
                  (
                    ap (λ v. level_of (s.expires v)) same ∙ sym a,
                    ap (λ v. get_wheel_index (s.expires v) l) same
                        ∙ ap (get_wheel_index (s.expires t)) a
                        ∙ sym b,
                  )
              | inr e ↦ h.home l i u (subst (λ xs. 1 ≤ count_in u xs) (rw e refl) m)
            ]
        | inr q ↦ h.home l i u (subst (λ n. 1 ≤ n) (put_other t u l i s L q) m)
      ];
      once = λ l i u. elim (Bool-cases (u == t)) [
        | inl q ↦
            let same : u ≡ t = ground arith in
            let gone : count_in u (L level index) ≡ 0 =
              ap (λ v. count_in v (L level index)) same ∙ out level index in
            elim (Bool-cases ((l == level) && (i == index))) [
              | inl e ↦ rw (e, q) (omega (arith, gone))
              | inr e ↦ rw e (h.once l i u)
            ]
        | inr q ↦ omega (arith, put_other t u l i s L q, h.once l i u)
      ];
    }

-- a slot emptied, with its list cut off
pub cut :
    (l i : ℕ) (s : Timers) (L : Lists)
    → Holds s L
    → let s' : Timers = record s { wheel = set_slot s.wheel l i none } in
      Holds s' (set_slot L l i []) × Pending s' (set_slot L l i []) (s.wheel l i) (L l i)
cut l i s L h = (
  record {
    chain = λ m j. elim (Bool-cases ((m == l) && (j == i))) [
      | inl e ↦ rw e refl
      | inr e ↦ rw e (h.chain m j)
    ];
    home = λ m j u n. elim (Bool-cases ((m == l) && (j == i))) [
      | inl e ↦
          let gone : set_slot L l i [] m j ≡ [] = rw e refl in
          absurd (omega (arith, subst (λ xs. 1 ≤ count_in u xs) gone n))
      | inr e ↦ h.home m j u (subst (λ xs. 1 ≤ count_in u xs) (rw e refl) n)
    ];
    once = λ m j u. elim (Bool-cases ((m == l) && (j == i))) [
      | inl e ↦ rw e (omega arith)
      | inr e ↦ rw e (h.once m j u)
    ];
  },
  record {
    chain = h.chain l i;
    out = λ t m j n. elim (Bool-cases ((m == l) && (j == i))) [
      | inl e ↦ rw e refl
      | inr e ↦ rw e (
          absent (count_in t (L m j)) (λ there.
            let (a, b) = h.home l i t n in
            let (c, d) = h.home m j t there in
            let same : m ≡ l = sym c ∙ a in
            let same' : j ≡ i = sym d ∙ ap (get_wheel_index (s.expires t)) same ∙ b in
            ground (arith, same, same')))
    ];
    once = h.once l i;
  },
)
