-- ===== src/Traffic/Tokens.antt =====
-- mini_rtos/src/traffic_control.c: what the token bucket of `consume_tokens` lets through.
use self_mini_os.Common.{
  ℕ, ◌+◌, ◌-◌, ◌*◌, ◌/◌, ◌%◌, ◌≤◌, ◌<◌, ◌≡◌, refl, ap, ◌∙◌, true, List, [], ◌∷◌, if◌then◌else◌, leb,
  min, arith, u32_mod, u32_max, Bool-cases, leb→le, inl, inr, sub32,
}
use mathlib.Core.Path.{subst}
use self_mini_os.Traffic.{TcShaper, update_shaper, consume_tokens, init_queue}

-- the units that a list of calls, each a time and a size, is granted; the clock shows the low word of
-- the time
abbrev pub granted : TcShaper → List (ℕ × ℕ) → ℕ
granted s [] = 0
granted s ((now, size) ∷ calls) =
    let (ok, u) = consume_tokens s size (now % u32_mod) in
    (if ok then size else 0) + granted u calls

-- times that do not go back, up to a horizon
abbrev pub Rising : ℕ → List (ℕ × ℕ) → ℕ → Type 0
Rising t [] horizon = t ≤ horizon
Rising t ((now, size) ∷ calls) horizon = (t ≤ now) × Rising now calls horizon

Rising-le : (t : ℕ) (calls : List (ℕ × ℕ)) (horizon : ℕ) → Rising t calls horizon → t ≤ horizon
Rising-le t [] horizon h = h
Rising-le t ((now, size) ∷ calls) horizon h = omega (arith, Rising-le now calls horizon h.1)

update_shaper-bounded :
    (s : TcShaper) (now : ℕ)
    → ((update_shaper s now).current_tokens ≤ s.bucket_size)
      × ((update_shaper s now).last_update ≡ now)
unfolding update_shaper
update_shaper-bounded s now = (omega arith, refl)

-- After any call, whatever wraps, the bucket holds no more than its size, and its clock is the time
-- of the call.
pub consume_tokens-bounded :
    (s : TcShaper) (size now : ℕ)
    → ((consume_tokens s size now).1.current_tokens ≤ s.bucket_size)
      × ((consume_tokens s size now).1.last_update ≡ now)
unfolding consume_tokens
consume_tokens-bounded s size now =
    elim (Bool-cases (leb size (update_shaper s now).current_tokens)) [
      | inl e ↦
          rw e (omega (arith, (update_shaper-bounded s now).0), (update_shaper-bounded s now).1)
      | inr e ↦ rw e (update_shaper-bounded s now)
    ]

scale : (a b c r : ℕ) → a ≤ b → b ≤ c → (b - a) * r + (c - b) * r ≡ (c - a) * r
scale a b c r h k =
    let sum : (b - a) + (c - b) ≡ c - a = omega arith in
    let spread : (b - a) * r + (c - b) * r ≡ ((b - a) + (c - b)) * r = omega arith in
    spread ∙ ap (λ d. d * r) sum

-- what the source computes for the time that passed is never more than it
elapsed-le : (t now : ℕ) → t ≤ now → sub32 (now % u32_mod) (t % u32_mod) ≤ now - t
elapsed-le t now h = omega arith

mul_mono : (a b r : ℕ) → a ≤ b → a * r ≤ b * r
mul_mono a b r h =
    let split : (b - a) * r + a * r ≡ b * r = spread (b - a) a b r (omega arith) in omega arith
  where
    spread : (x y z r : ℕ) → x + y ≡ z → x * r + y * r ≡ z * r
    spread x y z r e =
        let sum : x * r + y * r ≡ (x + y) * r = omega arith in sum ∙ ap (λ d. d * r) e

-- what a refill adds is paid for by the time since the last one
refill :
    (s : TcShaper) (t now : ℕ)
    → s.last_update ≡ t % u32_mod
    → t ≤ now
    → (update_shaper s (now % u32_mod)).current_tokens * 1000
      ≤ s.current_tokens * 1000 + (now - t) * s.token_rate
unfolding update_shaper
refill s t now e h = rw e (
    omega (
      arith,
      mul_mono (sub32 (now % u32_mod) (t % u32_mod)) (now - t) s.token_rate (elapsed-le t now h),
    ))

-- one call takes what it grants out of the bucket
pay :
    (s : TcShaper) (size now : ℕ)
    → (if (consume_tokens s size now).0 then size else 0)
        + (consume_tokens s size now).1.current_tokens
      ≡ (update_shaper s now).current_tokens
unfolding consume_tokens
pay s size now = elim (Bool-cases (leb size (update_shaper s now).current_tokens)) [
  | inl e ↦ rw e (omega (arith, leb→le size (update_shaper s now).current_tokens e))
  | inr e ↦ rw e (omega arith)
]

same_rate : (s : TcShaper) (size now : ℕ) → (consume_tokens s size now).1.token_rate ≡ s.token_rate
unfolding consume_tokens update_shaper
same_rate s size now = elim (Bool-cases (leb size (update_shaper s now).current_tokens)) [
  | inl e ↦ rw e refl
  | inr e ↦ rw e refl
]

-- Whatever the calls ask for, the bucket never grants more than it held at the start and what its
-- rate allows until the last call, to a thousandth of a unit. The times are exact: the clock that the
-- calls read, the difference and the product may all wrap.
pub granted-le :
    (s : TcShaper) (t : ℕ) (calls : List (ℕ × ℕ)) (horizon : ℕ)
    → s.last_update ≡ t % u32_mod
    → Rising t calls horizon
    → granted s calls * 1000 ≤ s.current_tokens * 1000 + (horizon - t) * s.token_rate
granted-le s t [] horizon e h = omega arith
granted-le s t ((now, size) ∷ calls) horizon e h =
    let u = (consume_tokens s size (now % u32_mod)).1 in
    let rest =
      granted-le u now calls horizon (consume_tokens-bounded s size (now % u32_mod)).1 h.1 in
    let rest' : granted u calls * 1000 ≤ u.current_tokens * 1000 + (horizon - now) * s.token_rate =
      subst (λ r. granted u calls * 1000 ≤ u.current_tokens * 1000 + (horizon - now) * r)
        (same_rate s size (now % u32_mod)) rest in
    omega (
      arith,
      rest',
      pay s size (now % u32_mod),
      refill s t now e h.0,
      scale t now horizon s.token_rate h.0 (Rising-le now calls horizon h.1),
    )

emptied :
    (s : TcShaper) (t now : ℕ)
    → s.token_rate ≡ u32_max
    → s.last_update ≡ t
    → s.current_tokens ≡ 0
    → t < now
    → now < u32_mod
    → (update_shaper s now).current_tokens ≡ min s.bucket_size ((u32_mod - (now - t)) / 1000)
unfolding update_shaper
emptied s t now r e c h k = rw (r, e, c) (omega arith)

all_granted :
    (i t : ℕ)
    → t < u32_mod
    → consume_tokens (init_queue i t).shaper 16384 t ≡ (
      true,
      record { token_rate = u32_max; bucket_size = 16384; current_tokens = 0; last_update = t },
    )
unfolding consume_tokens init_queue update_shaper
all_granted i t low = let same : sub32 t t ≡ 0 = omega arith in rw same refl

-- The bucket that `tc_init` sets up at the time `t` grants all its 16384 tokens at once. At a later time
-- `now`, less than 2 ^ 32, the product of time and rate has wrapped: `update_shaper` then leaves the
-- thousandth part of 2 ^ 32 less the wait, but no more than 16384 tokens.
pub update_shaper-init_queue :
    (i t now : ℕ)
    → t < now
    → now < u32_mod
    → let (ok, s) = consume_tokens (init_queue i t).shaper 16384 t in
      (ok ≡ true)
      × ((update_shaper s now).current_tokens ≡ min 16384 ((u32_mod - (now - t)) / 1000))
update_shaper-init_queue i t now h k =
    let all = all_granted i t (omega arith) in
    (
      ap (λ r. r.0) all,
      ap (λ r. (update_shaper r.1 now).current_tokens) all
          ∙ emptied
              (record {
                token_rate = u32_max;
                bucket_size = 16384;
                current_tokens = 0;
                last_update = t;
              })
              t now refl refl refl h k,
    )
