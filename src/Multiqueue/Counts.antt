-- ===== src/Multiqueue/Counts.antt =====
-- mini_rtos/src/multiqueue.c: the counters and the two semaphores against the items in the queue.
use self_mini_os.Common.{
  ℕ, suc, Bool-cases, ◌+◌, ◌-◌, ◌≤◌, ◌<◌, ◌≡◌, refl, inl, inr, Bool, List, [], ◌∷◌, arith, leb,
  length, length-append, u32_mod, Option-cases,
}
use self_mini_os.Semaphore.{Semaphores}
use self_mini_os.Multiqueue.{
  QueueType, priority, deadline, round_robin, QueuePolicy, QueueItem, Queue, Request, Memory,
  enqueue_bytes, link_after, insert_by_priority, insert_by_deadline, insert_item, rotate, expired,
  keep_live, new_queue, link, unlink, timed_out, enqueue, dequeue, flush, resize, remove_expired,
  item_of,
}

length-link_after :
    (keep : QueueItem → Bool) (item : QueueItem) (xs : List QueueItem)
    → length (link_after keep item xs) ≡ length xs + 1
unfolding link_after
length-link_after keep item [] = omega arith
length-link_after keep item (y ∷ ys) = ground (arith, length-link_after keep item ys)

pub length-insert_item :
    (t : QueueType) (item : QueueItem) (xs : List QueueItem)
    → length (insert_item t item xs) ≡ length xs + 1
unfolding insert_item insert_by_priority insert_by_deadline
length-insert_item priority item [] = omega arith
length-insert_item priority item (x ∷ xs) =
    ground (arith, length-link_after (λ y. leb item.priority y.priority) item xs)
length-insert_item deadline item [] = omega arith
length-insert_item deadline item (x ∷ xs) =
    ground (arith, length-link_after (λ y. leb y.deadline item.deadline) item xs)
length-insert_item _ item xs = omega (arith, length-append xs (item ∷ []))

pub length-rotate : (t : QueueType) (xs : List QueueItem) → length (rotate t xs) ≡ length xs
unfolding rotate
length-rotate round_robin [] = refl
length-rotate round_robin (x ∷ []) = refl
length-rotate round_robin (x ∷ y ∷ ys) = omega (arith, length-append ys (x ∷ []))
length-rotate _ xs = refl

pub length-keep_live :
    (now : ℕ) (xs : List QueueItem) → length (keep_live now xs) + expired now xs ≡ length xs
unfolding keep_live expired
length-keep_live now [] = omega arith
length-keep_live now (x ∷ xs) = ground (arith, length-keep_live now xs)

-- `ys` are the items of `xs` whose deadline is later than `now`, in their order, and `n` the number of the
-- others
pub data Sifted (now : ℕ) : List QueueItem → List QueueItem → ℕ → Type 0 where
  sifted : Sifted now [] [] 0
  dropped :
      {x : QueueItem} {xs ys : List QueueItem} {n : ℕ}
      → x.deadline ≤ now
      → Sifted now xs ys n
      → Sifted now (x ∷ xs) ys (suc n)
  kept :
      {x : QueueItem} {xs ys : List QueueItem} {n : ℕ}
      → now < x.deadline
      → Sifted now xs ys n
      → Sifted now (x ∷ xs) (x ∷ ys) n

keep_live-Sifted :
    (now : ℕ) (xs : List QueueItem) → Sifted now xs (keep_live now xs) (expired now xs)
unfolding keep_live expired
keep_live-Sifted now [] = sifted
keep_live-Sifted now (x ∷ xs) = elim (Bool-cases (leb x.deadline now)) [
  | inl e ↦ rw e (dropped (ground arith) (keep_live-Sifted now xs))
  | inr e ↦ rw e (kept (ground arith) (keep_live-Sifted now xs))
]

module _ {Sem : Type 0} ⦃S : Semaphores Sem⦄ where
  -- the counters agree with the items, whatever the semaphores hold
  pub record IsCounted (q : Queue Sem) : Type 0 where
    pub counted : q.current_items ≡ length q.items
    pub bounded : length q.items ≤ q.max_items
    pub small : q.max_items < u32_mod
    pub used : q.stats.current_usage ≡ length q.items
    pub peak : length q.items ≤ q.stats.peak_usage

  -- `not_empty` counts the items and `not_full` the free places
  pub record IsBalanced (q : Queue Sem) : Type 0 where
    pub filled : S.value q.not_empty ≡ length q.items
    pub free : S.value q.not_full + length q.items ≡ q.max_items

  pub record IsValid (q : Queue Sem) : Type 0 where
    pub counts : IsCounted q
    pub balance : IsBalanced q

  pub new_queue-IsValid :
      (t : QueueType) (p : QueuePolicy) (n size : ℕ) → n < u32_mod → IsValid (new_queue t p n size)
  unfolding new_queue
  new_queue-IsValid t p n size h = ground (arith, S.value-create 0, S.value-create n)

  link-IsValid :
      (q : Queue Sem) (item : QueueItem)
      → IsCounted q
      → S.value q.not_empty ≡ length q.items
      → S.value q.not_full + length q.items + 1 ≡ q.max_items
      → IsValid (link q item)
  unfolding link
  link-IsValid q item c e f =
      ground (arith, length-insert_item q.type item q.items, S.value-post q.not_empty)

  enqueue_bytes-IsValid :
      (q : Queue Sem) (r : Request) (mem : Memory) (bytes : List ℕ)
      → IsValid q
      → IsValid (enqueue_bytes q r mem bytes).1
  unfolding enqueue_bytes timed_out
  enqueue_bytes-IsValid q r mem bytes v =
      let sem = (S.wait q.not_full r.timeout_ms).1 in
      ground (
        arith,
        S.value-wait_true q.not_full r.timeout_ms,
        S.value-wait_false q.not_full r.timeout_ms,
        S.value-post sem,
        link-IsValid (record q { not_full = sem }) (item_of r bytes),
      )

  -- `mqueue_enqueue` keeps the queue valid on every path: a null buffer, an item too large, a
  -- timeout, either failure of `malloc`, and success.
  pub enqueue-IsValid :
      (q : Queue Sem) (r : Request) (mem : Memory) → IsValid q → IsValid (enqueue q r mem).1
  unfolding enqueue
  enqueue-IsValid q r mem v = elim (Option-cases r.buffer) [
    | inl e ↦ rw (e, enqueue) v
    | inr (bytes, e) ↦ rw (e, enqueue) (enqueue_bytes-IsValid q r mem bytes v)
  ]

  -- `mqueue_dequeue` keeps the queue valid, whether it times out or takes an item.
  pub dequeue-IsValid :
      (q : Queue Sem) (timeout_ms : ℕ) → IsValid q → IsValid (dequeue q timeout_ms).1
  unfolding dequeue timed_out unlink
  dequeue-IsValid q t v = ground (
    arith,
    S.value-wait_true q.not_empty t,
    S.value-wait_false q.not_empty t,
    S.value-post q.not_full,
    length-rotate q.type q.items,
  )

  pub flush-IsValid : (q : Queue Sem) → IsValid q → IsValid (flush q)
  unfolding flush
  flush-IsValid q v =
      ground (arith, S.value-reset q.not_empty 0, S.value-reset q.not_full q.max_items)

  -- `mqueue_resize` keeps the queue valid, whether it refuses the new bound or takes it.
  pub resize-IsValid : (q : Queue Sem) (n : ℕ) → n < u32_mod → IsValid q → IsValid (resize q n).1
  unfolding resize
  resize-IsValid q n h v = ground (arith, S.value-reset q.not_full (n - q.current_items))

  -- From a valid queue, `mqueue_enqueue`, `mqueue_dequeue` and `mqueue_resize` each leave a valid one
  -- (counters and semaphores agree with the items), on every path: a null buffer, an item too large, a
  -- timeout, either failure of `malloc`, a bound refused, and success.
  pub calls-IsValid :
      (q : Queue Sem) (r : Request) (mem : Memory) (timeout_ms n : ℕ)
      → n < u32_mod
      → IsValid q
      → IsValid (enqueue q r mem).1 × IsValid (dequeue q timeout_ms).1 × IsValid (resize q n).1
  calls-IsValid q r mem t n h v =
      (enqueue-IsValid q r mem v, dequeue-IsValid q t v, resize-IsValid q n h v)

  remove_expired_counts :
      (q : Queue Sem) (now : ℕ)
      → IsValid q
      → let (gone, q') = remove_expired q now in
        IsCounted q'
        × (S.value q'.not_empty ≡ length q'.items + gone)
        × (S.value q'.not_full + length q'.items + gone ≡ q'.max_items)
  unfolding remove_expired
  remove_expired_counts q now v = ground (arith, length-keep_live now q.items)

  -- `mqueue_remove_expired` removes the items whose deadline is not later than the time given, keeps the
  -- others in their order, returns how many it removed, and keeps the counters right, but leaves both
  -- semaphores as they were: `not_empty` then holds as many units too many as items were removed, and
  -- `not_full` as many too few.
  pub remove_expired_unbalances :
      (q : Queue Sem) (now : ℕ)
      → IsValid q
      → let (gone, q') = remove_expired q now in
        Sifted now q.items q'.items gone
        × IsCounted q'
        × (S.value q'.not_empty ≡ length q'.items + gone)
        × (S.value q'.not_full + length q'.items + gone ≡ q'.max_items)
  unfolding remove_expired
  remove_expired_unbalances q now v =
      let (counts, filled, free) = remove_expired_counts q now v in
      (keep_live-Sifted now q.items, counts, filled, free)
