-- ===== src/Multiqueue/Tests.antt =====
-- The queue operations of mini_rtos/src/multiqueue.c on small queues.
use self_mini_os.Common.{
  ℕ, ◌+◌, ◌-◌, ◌<◌, ◌≡◌, refl, inl, Bool, true, false, none, some, List, [], ◌∷◌, arith, ◌==◌,
  length, if◌then◌else◌,
}
use self_mini_os.Semaphore.{Semaphores}
use self_mini_os.Multiqueue.{
  QueueType, fifo, priority, round_robin, block, QueueItem, Queue, Request, enqueue_bytes,
  insert_item, insert_by_priority, link, enqueue, dequeue, item_of, remove_expired, resize,
  link_after,
}
use self_mini_os.Multiqueue.Stable.{by_priority}
use self_mini_os.Multiqueue.Order.{StablyInserted, enqueue-priority, dequeue-round_robin}
use self_mini_os.Multiqueue.Counts.{
  IsValid, IsCounted, Sifted, calls-IsValid, remove_expired_unbalances,
}
use self_mini_os.Multiqueue.Run.{
  Op, put, get, run, run_refines, spec_run, cells, plenty, spec_put_bytes, spec_get,
}

take_unit : ℕ → Bool × ℕ
take_unit n = if n == 0 then (false, n) else (true, n - 1)

take_unit-true : (n : ℕ) → (take_unit n).0 ≡ true → (take_unit n).1 + 1 ≡ n
unfolding take_unit
take_unit-true n h = ground arith

take_unit-false : (n : ℕ) → (take_unit n).0 ≡ false → (take_unit n).1 ≡ n
unfolding take_unit
take_unit-false n h = ground arith

take_unit_pos : (n : ℕ) → 0 < n → (take_unit n).0 ≡ true
unfolding take_unit
take_unit_pos n h = ground arith

-- a semaphore that is its count
instance abbrev counting : Semaphores ℕ
counting = record {
  create = λ n. n;
  wait = λ n t. take_unit n;
  post = λ n. n + 1;
  reset = λ n m. m;
  value = λ n. n;
  value-create = λ n. refl;
  value-post = λ n. refl;
  value-reset = λ n m. refl;
  value-wait_true = λ n t. take_unit-true n;
  value-wait_false = λ n t. take_unit-false n;
  wait_pos = λ n t. take_unit_pos n;
}

abbrev item : ℕ → ℕ → QueueItem
item p d = record { payload = p ∷ []; size = 1; priority = p; deadline = d; weight = 0 }

abbrev request : ℕ → ℕ → Request
request p d = record {
  buffer = some (p ∷ []);
  size = 1;
  priority = p;
  deadline = d;
  weight = 0;
  timeout_ms = 5;
}

abbrev two : QueueType → Queue ℕ
two t = record {
  type = t;
  policy = block;
  max_items = 3;
  current_items = 2;
  item_size = 4;
  items = item 7 10 ∷ item 4 20 ∷ [];
  stats = record {
    enqueued = 2;
    dequeued = 0;
    dropped = 0;
    timeouts = 0;
    peak_usage = 2;
    current_usage = 2;
  };
  not_empty = 2;
  not_full = 1;
}

two-IsValid : (t : QueueType) → IsValid (two t)
two-IsValid t = record { counts = omega arith; balance = omega arith }

enqueue_in_order :
    (enqueue (two priority) (request 7 1) plenty).1.items ≡ item 7 10 ∷ item 7 1 ∷ item 4 20 ∷ []
unfolding enqueue enqueue_bytes link insert_item insert_by_priority link_after item_of take_unit
enqueue_in_order = refl

calls-IsValid_example :
    IsValid (enqueue (two round_robin) (request 1 1) plenty).1
    × IsValid (dequeue (two round_robin) 9).1
    × IsValid (resize (two round_robin) 8).1
calls-IsValid_example =
    calls-IsValid (two round_robin) (request 1 1) plenty 9 8 (omega arith) (two-IsValid round_robin)

-- the item of deadline 10 is dropped, and `not_empty` still holds two units
remove_expired_unbalances_example :
    let (gone, q') = remove_expired (two fifo) 15 in
    Sifted 15 (two fifo).items q'.items gone
    × IsCounted q'
    × (q'.not_empty ≡ length q'.items + gone)
    × (q'.not_full + length q'.items + gone ≡ 3)
unfolding remove_expired
remove_expired_unbalances_example = remove_expired_unbalances (two fifo) 15 (two-IsValid fifo)

enqueue-priority_example :
    StablyInserted by_priority
      (item 7 1)
      (two priority).items
      (enqueue (two priority) (request 7 1) plenty).1.items
unfolding enqueue enqueue_bytes item_of take_unit
enqueue-priority_example =
    enqueue-priority (two priority) (request 7 1) plenty refl ((refl, tt), (tt, tt)) refl refl

-- the second item comes out
dequeue-round_robin_example :
    ((dequeue (two round_robin) 5).0 ≡ some (1, 4 ∷ []))
    × ((dequeue (two round_robin) 5).1.items ≡ item 7 10 ∷ [])
dequeue-round_robin_example =
    dequeue-round_robin (two round_robin) 5 (two-IsValid round_robin) refl refl

abbrev script : List Op
script = put (request 1 1) ∷ put (request 2 2) ∷ get 5 ∷ get 5 ∷ get 5 ∷ get 5 ∷ []

run_refines_example : run (two fifo) script ≡ spec_run 3 4 (cells (two fifo).items) script
run_refines_example = run_refines script (two fifo) (two-IsValid fifo) (inl refl)

spec_run_example :
    spec_run 3 4 (cells (two fifo).items) script
    ≡ (true, none)
      ∷ (false, none)
      ∷ (true, some (1, 7 ∷ []))
      ∷ (true, some (1, 4 ∷ []))
      ∷ (true, some (1, 1 ∷ []))
      ∷ (false, none)
      ∷ []
unfolding spec_run spec_put_bytes spec_get cells
spec_run_example = refl
