-- ===== src/Multiqueue.antt =====
-- mini_rtos/src/multiqueue.c and mini_rtos/include/multiqueue.h: the operations on one queue.
-- The items are linked by `next` and `prev` and belong to the queue alone, so a queue holds the list
-- of them from `head` to `tail`. A null queue is refused by every operation and has no model here;
-- a null buffer is `none`. Whether `malloc` succeeds is an argument. Each operation runs under the
-- queue's mutex and is one step.
pub mod Counts
pub mod Stable
pub mod Order
pub mod Run
mod Tests
use self_mini_os.Common.{
  ℕ, suc, ◌-◌, ◌||◌, Bool, true, false, Option, none, some, List, [], ◌∷◌, ◌++◌, ltb, leb, ◌==◌,
  if◌then◌else◌, take, length, add32, sub32, not,
}
use self_mini_os.Semaphore.{Semaphores}

pub data QueueType : Type 0 where
  fifo priority deadline round_robin weighted : QueueType

pub data QueuePolicy : Type 0 where
  block overwrite discard : QueuePolicy

-- `queue_stats_t`
pub record QueueStats : Type 0 where
  pub enqueued : ℕ
  pub dequeued : ℕ
  pub dropped : ℕ
  pub timeouts : ℕ
  pub peak_usage : ℕ
  pub current_usage : ℕ

-- `queue_item_t`: `payload` is the copy behind `data`
pub record QueueItem : Type 0 where
  pub payload : List ℕ
  pub size : ℕ
  pub priority : ℕ
  pub deadline : ℕ
  pub weight : ℕ

-- `queue_t`
pub record Queue (Sem : Type 0) : Type 0 where
  pub type : QueueType
  pub policy : QueuePolicy
  pub max_items : ℕ
  pub current_items : ℕ
  pub item_size : ℕ
  pub items : List QueueItem
  pub stats : QueueStats
  pub not_empty : Sem
  pub not_full : Sem

-- the arguments of `mqueue_enqueue`
pub record Request : Type 0 where
  pub buffer : Option (List ℕ)
  pub size : ℕ
  pub priority : ℕ
  pub deadline : ℕ
  pub weight : ℕ
  pub timeout_ms : ℕ

-- the two calls of `malloc` in `mqueue_enqueue`
pub record Memory : Type 0 where
  pub item : Bool
  pub payload : Bool

-- the loop `while (current->next && keep(current->next))`, and the link after `current`
pub link_after : (QueueItem → Bool) → QueueItem → List QueueItem → List QueueItem
link_after keep item [] = item ∷ []
link_after keep item (y ∷ ys) = if keep y then y ∷ link_after keep item ys else item ∷ y ∷ ys

pub insert_by_priority : QueueItem → List QueueItem → List QueueItem
insert_by_priority item [] = item ∷ []
insert_by_priority item (x ∷ xs) =
    if ltb x.priority item.priority
    then item ∷ x ∷ xs
    else x ∷ link_after (λ y. leb item.priority y.priority) item xs

pub insert_by_deadline : QueueItem → List QueueItem → List QueueItem
insert_by_deadline item [] = item ∷ []
insert_by_deadline item (x ∷ xs) =
    if ltb item.deadline x.deadline
    then item ∷ x ∷ xs
    else x ∷ link_after (λ y. leb y.deadline item.deadline) item xs

-- the `switch` of `mqueue_enqueue`
pub insert_item : QueueType → QueueItem → List QueueItem → List QueueItem
insert_item priority item xs = insert_by_priority item xs
insert_item deadline item xs = insert_by_deadline item xs
insert_item _ item xs = xs ++ item ∷ []

-- the round-robin case of `mqueue_dequeue`: the head goes to the tail unless it is alone
pub rotate : QueueType → List QueueItem → List QueueItem
rotate round_robin (x ∷ y ∷ ys) = y ∷ (ys ++ x ∷ [])
rotate _ xs = xs

-- `memset(&queue->stats, 0, …)`
pub zero_stats : QueueStats
zero_stats = record {
  enqueued = 0;
  dequeued = 0;
  dropped = 0;
  timeouts = 0;
  peak_usage = 0;
  current_usage = 0;
}

-- the new item, with its copy of the first `size` bytes of the buffer
pub item_of : Request → List ℕ → QueueItem
item_of r bytes = record {
  payload = take r.size bytes;
  size = r.size;
  priority = r.priority;
  deadline = r.deadline;
  weight = r.weight;
}

-- the counters after an item is linked
pub count_in : QueueStats → ℕ → QueueStats
count_in st n = record st {
  enqueued = add32 st.enqueued 1;
  peak_usage = if ltb st.peak_usage n then n else st.peak_usage;
  current_usage = n;
}

-- the counters after an item is taken
pub count_out : QueueStats → ℕ → QueueStats
count_out st n = record st { dequeued = add32 st.dequeued 1; current_usage = n }

pub expired : ℕ → List QueueItem → ℕ
expired now [] = 0
expired now (x ∷ xs) = if leb x.deadline now then suc (expired now xs) else expired now xs

pub keep_live : ℕ → List QueueItem → List QueueItem
keep_live now [] = []
keep_live now (x ∷ xs) = if leb x.deadline now then keep_live now xs else x ∷ keep_live now xs

module _ {Sem : Type 0} ⦃S : Semaphores Sem⦄ where
  pub timed_out : Queue Sem → Queue Sem
  timed_out q =
      let st = q.stats in record q { stats = record st { timeouts = add32 st.timeouts 1 } }

  -- the part of `mqueue_create` that fills in the structure
  pub new_queue : QueueType → QueuePolicy → ℕ → ℕ → Queue Sem
  unfolding zero_stats
  new_queue type policy max_items item_size = record {
    type = type;
    policy = policy;
    max_items = max_items;
    current_items = 0;
    item_size = item_size;
    items = [];
    stats = zero_stats;
    not_empty = S.create 0;
    not_full = S.create max_items;
  }

  -- from the link of the new item to `semaphore_post(queue->not_empty)`
  pub link : Queue Sem → QueueItem → Queue Sem
  unfolding insert_item insert_by_priority insert_by_deadline count_in
  link q item =
      let n = add32 q.current_items 1 in
      record q {
        items = insert_item q.type item q.items;
        current_items = n;
        stats = count_in q.stats n;
        not_empty = S.post q.not_empty;
      }

  -- `mqueue_enqueue` at a buffer that is not null
  pub enqueue_bytes : Queue Sem → Request → Memory → List ℕ → Bool × Queue Sem
  enqueue_bytes q r mem bytes =
      let (taken, sem) = S.wait q.not_full r.timeout_ms in
      let waited = record q { not_full = sem } in
      if ltb q.item_size r.size
      then (false, q)
      else if not taken
      then (false, timed_out waited)
      else if not mem.item || not mem.payload
      then (false, record q { not_full = S.post sem })
      else (true, link waited (item_of r bytes))

  pub enqueue : Queue Sem → Request → Memory → Bool × Queue Sem
  enqueue q r mem = elim r.buffer [ none ↦ (false, q) | some bytes ↦ enqueue_bytes q r mem bytes ]

  -- from the link of the head to `semaphore_post(queue->not_full)`
  pub unlink : Queue Sem → List QueueItem → Queue Sem
  unfolding count_out
  unlink q rest =
      let n = sub32 q.current_items 1 in
      record q {
        items = rest;
        current_items = n;
        stats = count_out q.stats n;
        not_full = S.post q.not_full;
      }

  -- with the buffers given, the result is what is written to `*size` and `data`
  pub dequeue : Queue Sem → ℕ → Option (ℕ × List ℕ) × Queue Sem
  dequeue q timeout_ms =
      let (taken, sem) = S.wait q.not_empty timeout_ms in
      let waited = record q { not_empty = sem } in
      if not taken then (none, timed_out waited) else elim (rotate q.type q.items) [
        | [] ↦ (none, waited)
        | x ∷ rest ↦ (some (x.size, x.payload), unlink waited rest)
      ]

  pub peek : Queue Sem → Option (ℕ × List ℕ)
  peek q = elim q.items [ [] ↦ none | x ∷ rest ↦ some (x.size, x.payload) ]

  pub flush : Queue Sem → Queue Sem
  flush q =
      let st = q.stats in
      record q {
        items = [];
        current_items = 0;
        stats = record st { dropped = add32 st.dropped (length q.items); current_usage = 0 };
        not_empty = S.reset q.not_empty 0;
        not_full = S.reset q.not_full q.max_items;
      }

  pub is_full : Queue Sem → Bool
  is_full q = leb q.max_items q.current_items

  pub is_empty : Queue Sem → Bool
  is_empty q = q.current_items == 0

  pub set_type : Queue Sem → QueueType → Queue Sem
  set_type q type = record q { type = type }

  pub set_policy : Queue Sem → QueuePolicy → Queue Sem
  set_policy q policy = record q { policy = policy }

  pub resize : Queue Sem → ℕ → Bool × Queue Sem
  resize q max_items = if ltb max_items q.current_items then (false, q) else (
    true,
    record q { max_items = max_items; not_full = S.reset q.not_full (max_items - q.current_items) },
  )

  -- the number removed, and the queue; neither semaphore is touched
  pub remove_expired : Queue Sem → ℕ → ℕ × Queue Sem
  unfolding expired keep_live
  remove_expired q now =
      let st = q.stats in
      let gone = expired now q.items in
      let n = sub32 q.current_items gone in
      (
        gone,
        record q {
          items = keep_live now q.items;
          current_items = n;
          stats = record st { dropped = add32 st.dropped gone; current_usage = n };
        },
      )

pub find_by_priority : ℕ → List QueueItem → Option QueueItem
find_by_priority p [] = none
find_by_priority p (x ∷ xs) = if x.priority == p then some x else find_by_priority p xs

pub find_by_deadline : ℕ → List QueueItem → Option QueueItem
find_by_deadline d [] = none
find_by_deadline d (x ∷ xs) = if x.deadline == d then some x else find_by_deadline d xs
