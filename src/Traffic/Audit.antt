-- ===== src/Traffic/Audit.antt =====
-- mini_rtos/src/traffic_control.c: the class that a task carries in its flags, and what
-- `tc_verify_configuration` reports.
use self_mini_os.Common.{
  ℕ, zero, suc, ◌+◌, ◌*◌, ◌%◌, ◌^◌, ◌≤◌, ◌<◌, ◌≡◌, refl, ap, true, false, Option, some, List, [],
  ◌∷◌, ◌==◌, length, arith, u32_mod, All, leb,
}
use self_mini_os.Traffic.{
  Traffic, TcQueue, assign_task_class, get_task_class, walk, mismatches, verify_configuration,
}
use self_mini_os.Traffic.Chains.{Chain, AllQueue, assign_self, assign_ne}
use self_mini_os.Traffic.Order.{IsValid}

-- what an assignment of a class does to a state
pub record Assigned (tc : Traffic) (task class : ℕ) (tc' : Traffic) : Type 0 where
  pub read_back : get_task_class tc' task ≡ class
  pub low_bits : tc'.flags task % 2 ^ 24 ≡ tc.flags task % 2 ^ 24
  pub others : (u : ℕ) → (u == task) ≡ false → tc'.flags u ≡ tc.flags u
  pub queues : tc'.queues ≡ tc.queues

-- A class below five is read back by `tc_get_task_class` as `tc_assign_task_class` stored it; the
-- other 24 bits of the flags, the flags of all other tasks and the queues stay as they were.
pub assign_task_class_lem :
    (tc : Traffic) (task class : ℕ)
    → class < 5
    → ((assign_task_class tc task class).0 ≡ true)
      × Assigned tc task class (assign_task_class tc task class).1
unfolding assign_task_class get_task_class
assign_task_class_lem tc task class low =
    let allowed : leb 5 class ≡ false = ground arith in
    let new = tc.flags task % 2 ^ 24 + class * 2 ^ 24 in
    let stored = assign_self tc.flags task new in
    rw allowed (
      refl,
      record {
        read_back = rw stored (omega arith);
        low_bits = rw stored (omega arith);
        others = λ u h. assign_ne tc.flags task u new h;
        queues = refl;
      },
    )

walk-Chain :
    (next : ℕ → Option ℕ) (fuel : ℕ) (h : Option ℕ) (xs : List ℕ)
    → length xs ≤ fuel
    → Chain next h xs
    → walk next fuel h ≡ some (length xs % u32_mod)
unfolding walk
walk-Chain next fuel h [] room c = rw (c, walk) refl
walk-Chain next zero h (x ∷ xs) room c = elim room [ ]
walk-Chain next (suc fuel) h (x ∷ xs) room c =
    rw (c.0, walk-Chain next fuel (next x) xs (omega arith) c.1, walk) (ap some (omega arith))

mismatches-AllQueue :
    (next : ℕ → Option ℕ) (fuel i : ℕ) (qs : List TcQueue) (xss : List (List ℕ))
    → All (λ xs. length xs ≤ fuel) xss
    → AllQueue next qs xss
    → mismatches next fuel i qs ≡ []
unfolding mismatches
mismatches-AllQueue next fuel i [] xss room c = refl
mismatches-AllQueue next fuel i (q ∷ qs) [] room c = absurd c
mismatches-AllQueue next fuel i (q ∷ qs) (xs ∷ xss) room c =
    let same : (length xs % u32_mod == length xs % u32_mod) ≡ true = ground arith in
    rw (walk-Chain next fuel q.head xs room.0 c.0.chain, c.0.counted, same, mismatches)
      (mismatches-AllQueue next fuel (suc i) qs xss room.1 c.1)

-- On a valid state the walks of `tc_verify_configuration` end, after as many steps as a queue has
-- tasks, and it reports no mismatch.
pub verify_configuration_lem :
    (tc : Traffic) (xss : List (List ℕ)) (fuel : ℕ)
    → IsValid tc xss
    → All (λ xs. length xs ≤ fuel) xss
    → verify_configuration tc fuel ≡ []
unfolding verify_configuration
verify_configuration_lem tc xss fuel v room =
    mismatches-AllQueue tc.next fuel 0 tc.queues xss room v.whole
