-- ===== src/Scheduler/Tasks/Next.antt =====
-- mini_rtos/src/scheduler.c: which task `get_next_task` chooses.
use self_mini_os.Common.{
  ℕ, ◌+◌, ◌*◌, ◌-◌, ◌^◌, ◌<◌, ◌≤◌, ◌≡◌, refl, sym, ap, ◌∙◌, inl, inr, Option, some, List, [], ◌∷◌,
  ◌>>=◌, arith, u32_max,
}
use mathlib.Core.Path.{subst}
use self_mini_os.RbTree.{RbTree}
use self_mini_os.RbTree.Query.{In, All-In, IsStrict, first, ends_lem}
use self_mini_os.Scheduler.{Scheduler, priority_key}
use self_mini_os.Scheduler.Steps.{IsScheduler, HasIds, nodes}
use self_mini_os.Scheduler.Tasks.{get_next_task, next_by_policy}

-- what a smaller key says of priorities and ids
key_le :
    (p i q j : ℕ)
    → p < 256
    → i < 2 ^ 24
    → q < 256
    → j < 2 ^ 24
    → u32_max - (p * 2 ^ 24 + i) ≤ u32_max - (q * 2 ^ 24 + j)
    → (q ≤ p) × (q ≡ p → j ≤ i)
key_le p i q j a b c d e = (omega arith, λ f. omega arith)

-- no task of the tree has a higher priority than `t`, and none of its priority a larger id
abbrev pub IsHighest : Scheduler → ℕ → Type 0
IsHighest s t =
    (y : ℕ × ℕ)
    → In y (nodes s)
    → ((s.tcb y.1).priority ≤ (s.tcb t).priority)
      × ((s.tcb y.1).priority ≡ (s.tcb t).priority → (s.tcb y.1).id ≤ (s.tcb t).id)

head-IsHighest :
    (s : Scheduler) (x : ℕ × ℕ) (xs : List (ℕ × ℕ))
    → IsScheduler s
    → HasIds s
    → nodes s ≡ x ∷ xs
    → IsHighest s x.1
unfolding priority_key
head-IsHighest s x xs v h e y m =
    let Bound = λ (z : ℕ × ℕ). ((s.tcb z.1).priority < 256) × ((s.tcb z.1).id < 2 ^ 24) in
    let there : In x (nodes s) = subst (In x) (sym e) (inl refl) in
    let (a, b) = All-In Bound x (nodes s) h.bound there in
    let (c, d) = All-In Bound y (nodes s) h.bound m in
    let strict : IsStrict (x ∷ xs) = subst IsStrict e v.queue.strict in
    let le : x.0 ≤ y.0 = elim (subst (In y) e m) [
      | inl q ↦ omega (arith, ap (λ (z : ℕ × ℕ). z.0) q)
      | inr q ↦ omega (arith, All-In (λ z. x.0 < z.0) y xs strict.0 q)
    ] in
    let keyed = All-In (λ z. z.0 ≡ priority_key s.tcb z.1) x (nodes s) v.queue.keyed there in
    let keyed' = All-In (λ z. z.0 ≡ priority_key s.tcb z.1) y (nodes s) v.queue.keyed m in
    key_le (s.tcb x.1).priority (s.tcb x.1).id (s.tcb y.1).priority (s.tcb y.1).id a b c d
      (omega (arith, le, keyed, keyed'))

-- Under `SCHED_PRIORITY`, with a task in the priority tree, whose keys are distinct and whose ids and
-- priorities fit their parts of a key, `get_next_task` returns a task of the tree, whatever its state, such
-- that none there has a higher priority, and of those of its priority the one of the largest id.
pub get_next_task-IsHighest :
    (nil_key : ℕ) (s : Scheduler) (y : ℕ × ℕ)
    → IsScheduler s
    → HasIds s
    → In y (nodes s)
    → (k : ℕ) × (t : ℕ) × (get_next_task nil_key s ≡ some t) × In (k, t) (nodes s) × IsHighest s t
unfolding get_next_task
get_next_task-IsHighest nil_key s y v h m = go (nodes s) refl m
  where
    go :
        (xs : List (ℕ × ℕ))
        → nodes s ≡ xs
        → In y xs
        → (k : ℕ) × (t : ℕ) × (next_by_policy s.current_policy nil_key s ≡ some t)
          × In (k, t) (nodes s)
          × IsHighest s t
    go [] e n = absurd n
    go ((k, t) ∷ xs) e n = (
      k,
      t,
      ap (λ p. next_by_policy p nil_key s) v.policy
          ∙ ap (λ (o : Option (ℕ × ℕ)). o >>= (λ n. some n.1))
              ((ends_lem s.priority_tree.root).0 ∙ ap first e),
      subst (In (k, t)) (sym e) (inl refl),
      head-IsHighest s (k, t) xs v h e,
    )

tail_of : List (ℕ × ℕ) → List (ℕ × ℕ)
tail_of [] = []
tail_of (x ∷ xs) = xs
