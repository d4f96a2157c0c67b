-- ===== src/Traffic/Dequeue.antt =====
-- mini_rtos/src/traffic_control.c: `tc_dequeue_task` serves the classes by strict priority, and the
-- tasks of a class in the order of arrival.
use self_mini_os.Common.{
  ℕ, suc, ◌+◌, ◌≤◌, ◌≡◌, refl, ap, ◌∙◌, Option, none, some, List, [], ◌∷◌, length, arith,
}
use self_mini_os.Traffic.{TcQueue, Traffic, assign, unlink_head, take_first, dequeue_task}
use self_mini_os.Traffic.Chains.{
  count_in, count_all, Queues, AllQueue, Chain-frame, Queues-frame, AllQueue-frame,
}
use self_mini_os.Traffic.Order.{IsValid}

-- the first task of the first class that has one
abbrev pub first_task : List (List ℕ) → Option (ℕ × List (List ℕ))
first_task [] = none
first_task ([] ∷ xss) = elim (first_task xss) [ none ↦ none | some (t, yss) ↦ some (t, [] ∷ yss) ]
first_task ((x ∷ xs) ∷ xss) = some (x, xs ∷ xss)

unlink_head-Queues :
    (next : ℕ → Option ℕ) (q : TcQueue) (x : ℕ) (xs : List ℕ)
    → count_in x xs ≡ 0
    → Queues next q (x ∷ xs)
    → Queues (assign next x none) (unlink_head next x q) xs
unfolding unlink_head
unlink_head-Queues next q x [] once c = record {
  chain = c.chain.1;
  end = rw c.chain.1;
  counted = omega (arith, c.counted);
}
unlink_head-Queues next q x (y ∷ ys) once c = record {
  chain = Chain-frame next (next x) (y ∷ ys) x none once c.chain.1;
  end = rw c.chain.1.0 c.end;
  counted = omega (arith, c.counted);
}

-- what the loop over `qs`, whose queues are the chains of `xss`, finds
abbrev Taken :
    (ℕ → Option ℕ)
    → List TcQueue
    → List (List ℕ)
    → Option (ℕ × List TcQueue)
    → Option (ℕ × List (List ℕ))
    → Type 0
Taken next qs xss none none = Unit
Taken next qs xss none (some _) = ⊥
Taken next qs xss (some _) none = ⊥
Taken next qs xss (some (t, qs')) (some (u, yss)) =
    (t ≡ u)
    × (AllQueue (assign next t none) qs' yss
        × ((length qs' ≡ length qs) × ((v : ℕ) → count_all v yss ≤ count_all v xss)))

pass_empty :
    (next : ℕ → Option ℕ) (q : TcQueue) (qs : List TcQueue) (xss : List (List ℕ))
    (r : Option (ℕ × List TcQueue)) (s : Option (ℕ × List (List ℕ)))
    → Queues next q []
    → Taken next qs xss r s
    → Taken next
        (q ∷ qs)
        ([] ∷ xss)
        (elim r [ none ↦ none | some (t, qs') ↦ some (t, q ∷ qs') ])
        (elim s [ none ↦ none | some (t, yss) ↦ some (t, [] ∷ yss) ])
pass_empty next q qs xss none none c h = tt
pass_empty next q qs xss none (some _) c h = h
pass_empty next q qs xss (some _) none c h = h
pass_empty next q qs xss (some (t, qs')) (some (u, yss)) c h = (
  h.0,
  ((Queues-frame next q [] t none refl c, h.1.0), (ap suc h.1.1.0, λ v. omega (arith, h.1.1.1 v))),
)

take_first-Taken :
    (next : ℕ → Option ℕ) (qs : List TcQueue) (xss : List (List ℕ))
    → ((u : ℕ) → count_all u xss ≤ 1)
    → AllQueue next qs xss
    → Taken next qs xss (take_first next qs) (first_task xss)
unfolding take_first
take_first-Taken next [] [] once c = tt
take_first-Taken next [] (xs ∷ xss) once c = absurd c
take_first-Taken next (q ∷ qs) [] once c = absurd c
take_first-Taken next (q ∷ qs) ([] ∷ xss) once c = rw c.0.chain (
    pass_empty next q qs xss (take_first next qs) (first_task xss) c.0
      (take_first-Taken next qs xss (λ u. omega (arith, once u)) c.1))
take_first-Taken next (q ∷ qs) ((x ∷ xs) ∷ xss) once c =
    let alone : count_in x xs + count_all x xss ≡ 0 = ground (arith, once x) in
    rw c.0.chain.0 (
      refl,
      (
        (
          unlink_head-Queues next q x xs (omega arith) c.0,
          AllQueue-frame next qs xss x none (omega arith) c.1,
        ),
        (refl, λ v. ground arith),
      ),
    )

-- a call finds all queues empty, or takes the first task of the first class that has one
abbrev pub Dequeued : Traffic → Option (ℕ × List (List ℕ)) → Type 0
Dequeued tc none = dequeue_task tc ≡ (none, tc)
Dequeued tc (some (t, yss)) = (tc' : Traffic) × (dequeue_task tc ≡ (some t, tc')) × IsValid tc' yss

finish :
    (tc : Traffic) (xss : List (List ℕ)) (r : Option (ℕ × List TcQueue))
    (s : Option (ℕ × List (List ℕ)))
    → take_first tc.next tc.queues ≡ r
    → IsValid tc xss
    → Taken tc.next tc.queues xss r s
    → Dequeued tc s
unfolding dequeue_task
finish tc xss none none e v h = rw (e, dequeue_task)
finish tc xss none (some _) e v h = absurd h
finish tc xss (some _) none e v h = absurd h
finish tc xss (some (t, qs)) (some (u, yss)) e v h = (
  record tc { next = assign tc.next t none; queues = qs },
  rw (e, h.0, dequeue_task),
  record { five = h.1.1.0 ∙ v.five; whole = h.1.0; once = λ w. omega (arith, h.1.1.1 w, v.once w) },
)

-- On a valid state, `tc_dequeue_task` returns the task that has waited longest in the first class
-- that has one, takes that task alone out of its queue and leaves a valid state; it returns null,
-- and changes nothing, only if all queues are empty.
pub dequeue_task_lem :
    (tc : Traffic) (xss : List (List ℕ)) → IsValid tc xss → Dequeued tc (first_task xss)
dequeue_task_lem tc xss v =
    finish tc xss (take_first tc.next tc.queues) (first_task xss) refl v
      (take_first-Taken tc.next tc.queues xss v.once v.whole)
