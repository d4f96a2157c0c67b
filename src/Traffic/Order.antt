-- ===== src/Traffic/Order.antt =====
-- mini_rtos/src/traffic_control.c: `tc_enqueue_task` and `tc_dequeue_task` keep the threaded queues
-- whole, serve each class in the order of arrival, and the classes by strict priority.
use self_mini_os.Common.{
  ℕ, zero, suc, ◌+◌, ◌%◌, ◌≤◌, ◌<◌, ◌≡◌, refl, sym, ◌∙◌, Bool, true, false, Option, none, some,
  List, [], ◌∷◌, ◌++◌, ◌==◌, if◌then◌else◌, length, arith, u32_mod, Bool-cases, ==_iff, get_elem?,
  set, length-append, length-set, ap, get_elem?-set_self, get_elem?-lt, Option-cases, inl, inr,
}
use mathlib.Core.Path.{subst}
use mathlib.Core.Option.{some-injective}
use self_mini_os.Traffic.{
  TcQueue, Traffic, assign, link_task, enqueue_task, enqueue_at, consume_tokens, check_rate,
  get_task_class, drop_one, modify,
}
use self_mini_os.Traffic.Chains.{
  count_in, count_all, last, Queues, AllQueue, count_in-append, assign_self, Queues-frame, last-in,
  Chain-append, last-append,
}

-- what linking a task does to its queue, and that the other queues do not notice
record Linked (next : ℕ → Option ℕ) (q : TcQueue) (xs : List ℕ) (t : ℕ) : Type 0 where
  next' : ℕ → Option ℕ
  queue : TcQueue
  runs : link_task next q t ≡ some (next', queue)
  linked : Queues next' queue (xs ++ t ∷ [])
  others :
      (p : TcQueue) (ys : List ℕ)
      → count_in t ys ≡ 0
      → ((u : ℕ) → count_in u xs + count_in u ys ≤ 1)
      → Queues next p ys
      → Queues next' p ys

link_task-Linked :
    (next : ℕ → Option ℕ) (q : TcQueue) (xs : List ℕ) (t : ℕ)
    → ((u : ℕ) → count_in u xs ≤ 1)
    → count_in t xs ≡ 0
    → Queues next q xs
    → Linked next q xs t
unfolding link_task
link_task-Linked next q [] t once out c = record {
  next' = assign next t none;
  queue = record q { head = some t; tail = some t; count = (q.count + 1) % u32_mod };
  runs = rw c.chain;
  linked = record {
    chain = (refl, assign_self next t none);
    end = refl;
    counted = omega (arith, c.counted);
  };
  others = λ p ys o h. Queues-frame next p ys t none o;
}
link_task-Linked next q (x ∷ xs) t once out c = elim (Option-cases (last (x ∷ xs))) [
  | inl e ↦ absurd (last-some x xs e)
  | inr (l, e) ↦ record {
    next' = assign (assign next l (some t)) t none;
    queue = record q { tail = some t; count = (q.count + 1) % u32_mod };
    runs = rw (c.chain.0, c.end, e);
    linked = record {
      chain = Chain-append next q.head x xs l t once out e c.chain;
      end = sym (last-append (x ∷ xs) t);
      counted = omega (arith, c.counted, length-append (x ∷ xs) (t ∷ []));
    };
    others = λ p ys o h d.
        Queues-frame (assign next l (some t)) p ys t none o
          (Queues-frame next p ys l (some t) (omega (arith, h l, last-in x l xs e)) d);
  }
]
  where
    last-some : (y : ℕ) (ys : List ℕ) → last (y ∷ ys) ≡ none → ⊥
    last-some y [] e = cc e
    last-some y (z ∷ zs) e = last-some z zs e

-- the same for the queues of all classes
record AllLinked (next : ℕ → Option ℕ) (qs : List TcQueue) (xss : List (List ℕ)) (i : ℕ)
    (q : TcQueue) (t : ℕ) : Type 0 where
  next' : ℕ → Option ℕ
  queue : TcQueue
  runs : link_task next q t ≡ some (next', queue)
  linked : AllQueue next' (set qs i queue) (modify i (λ xs. xs ++ t ∷ []) xss)
  others :
      (p : TcQueue) (ys : List ℕ)
      → count_in t ys ≡ 0
      → ((u : ℕ) → count_in u ys + count_all u xss ≤ 1)
      → Queues next p ys
      → Queues next' p ys

-- a queue whose list and counter are those of another
same_queue :
    (next : ℕ → Option ℕ) (p q : TcQueue) (xs : List ℕ)
    → q.head ≡ p.head
    → q.tail ≡ p.tail
    → q.count ≡ p.count
    → Queues next p xs
    → Queues next q xs
same_queue next p q xs h t n c = record {
  chain = rw h c.chain;
  end = t ∙ c.end;
  counted = n ∙ c.counted;
}

frame_all :
    (next next' : ℕ → Option ℕ) (xs : List ℕ) (t : ℕ) (qs : List TcQueue) (xss : List (List ℕ))
    → ((p : TcQueue) (ys : List ℕ)
        → count_in t ys ≡ 0
        → ((u : ℕ) → count_in u xs + count_in u ys ≤ 1)
        → Queues next p ys
        → Queues next' p ys)
    → count_all t xss ≡ 0
    → ((u : ℕ) → count_in u xs + count_all u xss ≤ 1)
    → AllQueue next qs xss
    → AllQueue next' qs xss
frame_all next next' xs t [] [] f out once c = tt
frame_all next next' xs t [] (ys ∷ yss) f out once c = absurd c
frame_all next next' xs t (q ∷ qs) [] f out once c = absurd c
frame_all next next' xs t (q ∷ qs) (ys ∷ yss) f out once c = (
  f q ys (omega arith) (λ u. omega (arith, once u)) c.0,
  frame_all next next' xs t qs yss f (omega arith) (λ u. omega (arith, once u)) c.1,
)

link_task-AllLinked :
    (next : ℕ → Option ℕ) (qs : List TcQueue) (xss : List (List ℕ)) (i : ℕ) (p q : TcQueue) (t : ℕ)
    → ((u : ℕ) → count_all u xss ≤ 1)
    → count_all t xss ≡ 0
    → AllQueue next qs xss
    → get_elem? qs i ≡ some p
    → q.head ≡ p.head
    → q.tail ≡ p.tail
    → q.count ≡ p.count
    → AllLinked next qs xss i q t
link_task-AllLinked next [] xss i p q t once out c at h e n = cc at
link_task-AllLinked next (x ∷ qs) [] i p q t once out c at h e n = absurd c
link_task-AllLinked next (x ∷ qs) (xs ∷ xss) zero p q t once out c at h e n =
    let old =
      same_queue next p q xs h e n (subst (λ y. Queues next y xs) (some-injective x p at) c.0) in
    let one = link_task-Linked next q xs t (λ u. omega (arith, once u)) (omega arith) old in
    record {
      next' = one.next';
      queue = one.queue;
      runs = one.runs;
      linked = (one.linked, frame_all next one.next' xs t qs xss one.others (omega arith) once c.1);
      others = λ r ys o d. one.others r ys o (λ u. omega (arith, d u));
    }
link_task-AllLinked next (x ∷ qs) (xs ∷ xss) (suc i) p q t once out c at h e n =
    let rest =
      link_task-AllLinked next qs xss i p q t (λ u. omega (arith, once u)) (omega arith) c.1 at h e
        n in
    record {
      next' = rest.next';
      queue = rest.queue;
      runs = rest.runs;
      linked = (rest.others x xs (omega arith) once c.0, rest.linked);
      others = λ r ys o d. rest.others r ys o (λ u. omega (arith, d u));
    }

pub record IsValid (tc : Traffic) (xss : List (List ℕ)) : Type 0 where
  pub five : length tc.queues ≡ 5
  pub whole : AllQueue tc.next tc.queues xss
  -- no task stands in two queues, or twice in one
  pub once : (u : ℕ) → count_all u xss ≤ 1

count_all-modify :
    (u i t : ℕ) (next : ℕ → Option ℕ) (qs : List TcQueue) (xss : List (List ℕ))
    → i < length qs
    → AllQueue next qs xss
    → count_all u (modify i (λ xs. xs ++ t ∷ []) xss) ≡ count_all u xss + count_in u (t ∷ [])
count_all-modify u i t next [] xss h c = elim h [ ]
count_all-modify u i t next (q ∷ qs) [] h c = absurd c
count_all-modify u zero t next (q ∷ qs) (xs ∷ xss) h c =
    omega (arith, count_in-append u xs (t ∷ []))
count_all-modify u (suc i) t next (q ∷ qs) (xs ∷ xss) h c =
    omega (arith, count_all-modify u i t next qs xss (omega arith) c.1)

-- the queues after a change of one that keeps its list
keep_queue :
    (next : ℕ → Option ℕ) (i : ℕ) (p q : TcQueue) (qs : List TcQueue) (xss : List (List ℕ))
    → get_elem? qs i ≡ some p
    → q.head ≡ p.head
    → q.tail ≡ p.tail
    → q.count ≡ p.count
    → AllQueue next qs xss
    → AllQueue next (set qs i q) xss
keep_queue next i p q [] xss at h t n c = cc at
keep_queue next i p q (x ∷ qs) [] at h t n c = absurd c
keep_queue next zero p q (x ∷ qs) (xs ∷ xss) at h t n c =
    (same_queue next p q xs h t n (subst (λ y. Queues next y xs) (some-injective x p at) c.0), c.1)
keep_queue next (suc i) p q (x ∷ qs) (xs ∷ xss) at h t n c =
    (c.0, keep_queue next i p q qs xss at h t n c.1)

one_more :
    (u t : ℕ) (xss : List (List ℕ))
    → count_all t xss ≡ 0
    → count_all u xss ≤ 1
    → count_all u xss + count_in u (t ∷ []) ≤ 1
one_more u t xss fresh once = elim (Bool-cases (u == t)) [
  | inl e ↦
      let same : u ≡ t = (==_iff u t).0 e in
      let none_yet = subst (λ y. count_all y xss ≡ 0) (sym same) fresh in
      rw e (omega (arith, none_yet))
  | inr e ↦ rw e (omega arith)
]

-- what `tc_enqueue_task` does
pub record Enqueued (tc : Traffic) (xss : List (List ℕ)) (task now : ℕ) : Type 0 where
  pub granted : Bool
  pub after : Traffic
  pub runs : enqueue_task tc task now ≡ some (granted, after)
  -- the flag is that of the rate check of the class of the task
  pub rate : granted ≡ (check_rate tc (get_task_class tc task) 1 now).0
  -- the task stands behind the others of its class, or nothing is queued
  pub valid :
      IsValid after
        (if granted then modify (get_task_class tc task) (λ xs. xs ++ task ∷ []) xss else xss)

-- a second write at an index
set_twice : {A : Type 0} (xs : List A) (i : ℕ) (a b : A) → set (set xs i a) i b ≡ set xs i b
set_twice [] i a b = refl
set_twice (x ∷ xs) zero a b = refl
set_twice (x ∷ xs) (suc i) a b = ap (λ ys. x ∷ ys) (set_twice xs i a b)

rated :
    (tc : Traffic) (class now : ℕ) (q : TcQueue)
    → get_elem? tc.queues class ≡ some q
    → let (ok, shaper) = consume_tokens q.shaper 1 now in
      check_rate tc class 1 now
      ≡ (ok, record tc { queues = set tc.queues class (record q { shaper = shaper }) })
unfolding check_rate
rated tc class now q at =
    ap
      (λ (o : Option TcQueue). elim o [
        | none ↦ (false, tc)
        | some p ↦
            let (ok, shaper) = consume_tokens p.shaper 1 now in
            (ok, record tc { queues = set tc.queues class (record p { shaper = shaper }) })
      ])
      at

-- the call behind its check of the rate
checked :
    (tc : Traffic) (task now : ℕ) (q : TcQueue)
    → get_task_class tc task < length tc.queues
    → get_elem? tc.queues (get_task_class tc task) ≡ some q
    → let class = get_task_class tc task in
      let (ok, shaper) = consume_tokens q.shaper 1 now in
      let shaped = record q { shaper = shaper } in
      (enqueue_task tc task now
        ≡ enqueue_at (record tc { queues = set tc.queues class shaped }) task class ok shaped)
      × ((check_rate tc class 1 now).0 ≡ ok)
unfolding enqueue_task
checked tc task now q low at =
    let class = get_task_class tc task in
    let (ok, shaper) = consume_tokens q.shaper 1 now in
    let shaped = record q { shaper = shaper } in
    let tc1 : Traffic = record tc { queues = set tc.queues class shaped } in
    let rate : check_rate tc class 1 now ≡ (ok, tc1) = rated tc class now q at in
    (
      ap
            (λ (r : Bool × Traffic). elim (get_elem? r.1.queues class) [
              | none ↦ none
              | some p ↦ enqueue_at r.1 task class r.0 p
            ])
            rate
          ∙ ap
              (λ (o : Option TcQueue). elim o [
                | none ↦ none
                | some p ↦ enqueue_at tc1 task class ok p
              ])
              (get_elem?-set_self tc.queues class shaped low),
      ap (λ r. r.0) rate,
    )

enqueue_at-Enqueued :
    (tc : Traffic) (xss : List (List ℕ)) (task now : ℕ) (q : TcQueue)
    → IsValid tc xss
    → count_all task xss ≡ 0
    → get_task_class tc task < 5
    → get_elem? tc.queues (get_task_class tc task) ≡ some q
    → Enqueued tc xss task now
unfolding enqueue_at
enqueue_at-Enqueued tc xss task now q v fresh low at =
    let class = get_task_class tc task in
    let (ok, shaper) = consume_tokens q.shaper 1 now in
    let shaped = record q { shaper = shaper } in
    let (run, rate) = checked tc task now q (omega (arith, v.five)) at in
    elim (Bool-cases ok) [
      | inl e ↦
          let l =
            link_task-AllLinked tc.next tc.queues xss class q shaped task v.once fresh v.whole at
              refl refl refl in
          record {
            granted = true;
            after = record tc { next = l.next'; queues = set tc.queues class l.queue };
            runs =
                run
                ∙ rw (e, l.runs)
                    (ap (λ qs. some (true, record tc { next = l.next'; queues = qs }))
                      (set_twice tc.queues class shaped l.queue));
            rate = sym (rate ∙ e);
            valid = record {
              five = length-set tc.queues class l.queue ∙ v.five;
              whole = l.linked;
              once = λ u. omega (
                arith,
                count_all-modify u class task tc.next tc.queues xss (omega (arith, v.five)) v.whole,
                one_more u task xss fresh (v.once u),
              );
            };
          }
      | inr e ↦ record {
        granted = false;
        after = record tc { queues = set tc.queues class (drop_one shaped) };
        runs =
            run
            ∙ rw e (
                ap (λ qs. some (false, record tc { queues = qs }))
                  (set_twice tc.queues class shaped (drop_one shaped)));
        rate = sym (rate ∙ e);
        valid = record {
          five = length-set tc.queues class (drop_one shaped) ∙ v.five;
          whole =
              keep_queue tc.next class q (drop_one shaped) tc.queues xss at refl refl refl v.whole;
          once = v.once;
        };
      }
    ]

-- On a valid state, and for a task that stands in no queue and has one of the five classes,
-- `tc_enqueue_task` writes no memory outside the queues, and puts the task behind the others of its
-- class if the rate check of that class lets it through; otherwise no queue changes. The state stays
-- valid: every queue is the chain of its tasks, with its tail and counter right, and no task stands
-- in two queues.
pub enqueue_task_lem :
    (tc : Traffic) (xss : List (List ℕ)) (task now : ℕ)
    → IsValid tc xss
    → count_all task xss ≡ 0
    → get_task_class tc task < 5
    → Enqueued tc xss task now
enqueue_task_lem tc xss task now v fresh low =
    let (q, at) = get_elem?-lt tc.queues (get_task_class tc task) (omega (arith, v.five)) in
    enqueue_at-Enqueued tc xss task now q v fresh low at
