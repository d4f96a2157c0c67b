-- ===== src/HashTable/Ring.antt =====
-- mini_rtos/src/hashtable.c: the indices that `find_slot` visits, `(h + m) % n` from the home `h` on.
use self_mini_os.Common.{ℕ, suc, ◌+◌, ◌-◌, ◌%◌, ◌<◌, ◌≡◌, ◌≢◌, ap, ◌∙◌, arith, ltb, if◌then◌else◌}
use native.Mathlib.Nat.{mod-eq_of_lt, mod-add-mod, mod-eq-sub-mod}
use native.Mathlib.Decide.{dec_lt}

module _ (h n : ℕ) (low : h < n) where
  -- below twice the size, `% n` takes `n` off at most once
  wrap_lem : (m : ℕ) → m < n → (h + m) % n ≡ (if ltb (h + m) n then h + m else h + m - n)
  wrap_lem m few = elim (dec_lt (h + m) n) [
    | yes p ↦ ground (arith, mod-eq_of_lt p)
    | no p ↦ ground (
      arith,
      mod-eq-sub-mod {n = h + m} {m = n} (omega arith),
      mod-eq_of_lt {n = h + m - n} {m = n} (omega arith),
    )
  ]

  pub wrap-lt : (m : ℕ) → (h + m) % n < n
  wrap-lt m = grind arith

  pub wrap-next : (m : ℕ) → m < n → ((h + m) % n + 1) % n ≡ (h + suc m) % n
  wrap-next m few = mod-add-mod (h + m) n 1 ∙ ap (λ x. x % n) (omega arith)

  pub wrap-ne-home : (m : ℕ) → 0 < m → m < n → (h + m) % n ≢ h
  wrap-ne-home m some few = ground (arith, wrap_lem m few)

  pub wrap-full : (h + n) % n ≡ h
  wrap-full = grind arith

  pub wrap-cover : (i : ℕ) → i < n → (m : ℕ) × (m < n) × (i ≡ (h + m) % n)
  wrap-cover i few = elim (dec_lt i h) [
    | yes p ↦
        let e = wrap_lem (i + n - h) (omega arith) in (i + n - h, omega arith, ground (arith, e))
    | no p ↦ let e = wrap_lem (i - h) (omega arith) in (i - h, omega arith, ground (arith, e))
  ]
