-- ===== src/Multiqueue/Order.antt =====
-- mini_rtos/src/multiqueue.c: the order of the items in priority and deadline queues, and what
-- dequeuing takes.
use self_mini_os.Common.{
  ℕ, ◌≡◌, refl, Bool, true, some, List, [], ◌∷◌, ◌++◌, arith, length, not, ap,
}
use self_mini_os.Semaphore.{Semaphores}
use self_mini_os.Multiqueue.{
  priority, deadline, round_robin, QueueItem, Queue, Request, Memory, enqueue_bytes, link_after,
  insert_by_priority, insert_by_deadline, insert_item, rotate, link, unlink, enqueue, dequeue,
  item_of,
}
use self_mini_os.Multiqueue.Stable.{
  select, by_priority, by_deadline, SortedBy, link_after-stable, link_after-SortedBy,
}
use self_mini_os.Multiqueue.Counts.{IsValid}

insert_by_priority-eq-link_after :
    (item : QueueItem) (xs : List QueueItem)
    → insert_by_priority item xs ≡ link_after (λ y. by_priority y item) item xs
unfolding insert_by_priority link_after
insert_by_priority-eq-link_after item [] = refl
insert_by_priority-eq-link_after item (x ∷ xs) = ground arith

insert_by_deadline-eq-link_after :
    (item : QueueItem) (xs : List QueueItem)
    → insert_by_deadline item xs ≡ link_after (λ y. by_deadline y item) item xs
unfolding insert_by_deadline link_after
insert_by_deadline-eq-link_after item [] = refl
insert_by_deadline-eq-link_after item (x ∷ xs) = ground arith

-- `item` stands in `ys` behind the items of `xs` that may stand before it, in their order, and
-- before all the others, in theirs, and `ys` is sorted
pub record StablyInserted (leq : QueueItem → QueueItem → Bool) (item : QueueItem)
    (xs ys : List QueueItem) : Type 0 where
  pub placed : ys ≡ select (λ y. leq y item) xs ++ item ∷ select (λ y. not (leq y item)) xs
  pub sorted : SortedBy leq ys

insert_by_priority-StablyInserted :
    (item : QueueItem) (xs : List QueueItem)
    → SortedBy by_priority xs
    → StablyInserted by_priority item xs (insert_by_priority item xs)
insert_by_priority-StablyInserted item xs s = rw insert_by_priority-eq-link_after (record {
  placed =
      link_after-stable by_priority (λ x y z p q. ground arith) (λ x y p. ground arith) item xs s;
  sorted =
      link_after-SortedBy by_priority (λ x y z p q. ground arith) (λ x y p. ground arith) item xs s;
})

insert_by_deadline-StablyInserted :
    (item : QueueItem) (xs : List QueueItem)
    → SortedBy by_deadline xs
    → StablyInserted by_deadline item xs (insert_by_deadline item xs)
insert_by_deadline-StablyInserted item xs s = rw insert_by_deadline-eq-link_after (record {
  placed =
      link_after-stable by_deadline (λ x y z p q. ground arith) (λ x y p. ground arith) item xs s;
  sorted =
      link_after-SortedBy by_deadline (λ x y z p q. ground arith) (λ x y p. ground arith) item xs s;
})

module _ {Sem : Type 0} ⦃S : Semaphores Sem⦄ where
  enqueue_items :
      (q : Queue Sem) (r : Request) (mem : Memory) {bytes : List ℕ}
      → r.buffer ≡ some bytes
      → (enqueue q r mem).0 ≡ true
      → (enqueue q r mem).1.items ≡ insert_item q.type (item_of r bytes) q.items
  unfolding enqueue enqueue_bytes link
  enqueue_items q r mem b ok = rw (b, enqueue) (ground arith)

  -- In a priority queue whose items are sorted, highest priority first, an `mqueue_enqueue` that
  -- succeeds leaves them sorted, with the new one behind all those of its own priority or a higher one, and the others in
  -- the order they had.
  pub enqueue-priority :
      (q : Queue Sem) (r : Request) (mem : Memory) {bytes : List ℕ}
      → q.type ≡ priority
      → SortedBy by_priority q.items
      → r.buffer ≡ some bytes
      → (enqueue q r mem).0 ≡ true
      → StablyInserted by_priority (item_of r bytes) q.items (enqueue q r mem).1.items
  unfolding insert_item
  enqueue-priority q r mem t s b ok =
      rw (enqueue_items q r mem b ok, t) (insert_by_priority-StablyInserted (item_of r _) q.items s)

  -- In a deadline queue, an `mqueue_enqueue` that succeeds leaves the items sorted, earliest deadline
  -- first, with the new one behind all those of its own deadline or an earlier one, and the others in
  -- the order they had.
  pub enqueue-deadline :
      (q : Queue Sem) (r : Request) (mem : Memory) {bytes : List ℕ}
      → q.type ≡ deadline
      → SortedBy by_deadline q.items
      → r.buffer ≡ some bytes
      → (enqueue q r mem).0 ≡ true
      → StablyInserted by_deadline (item_of r bytes) q.items (enqueue q r mem).1.items
  unfolding insert_item
  enqueue-deadline q r mem t s b ok =
      rw (enqueue_items q r mem b ok, t) (insert_by_deadline-StablyInserted (item_of r _) q.items s)

  -- A round-robin queue that holds at least two items hands out the second one: the head is moved to
  -- the tail before the dequeue, and the rest keep their order.
  pub dequeue-round_robin :
      (q : Queue Sem) (timeout_ms : ℕ) {x y : QueueItem} {ys : List QueueItem}
      → IsValid q
      → q.type ≡ round_robin
      → q.items ≡ x ∷ y ∷ ys
      → ((dequeue q timeout_ms).0 ≡ some (y.size, y.payload))
        × ((dequeue q timeout_ms).1.items ≡ ys ++ x ∷ [])
  unfolding dequeue rotate unlink
  dequeue-round_robin q t {x} {y} {ys} v e f =
      let there = S.wait_pos q.not_empty t (omega (arith, v.balance.filled, ap length f)) in
      ground (arith, there)
