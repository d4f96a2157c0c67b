-- ===== src/Traffic/Tests.antt =====
-- mini_rtos/src/traffic_control.c on small states.
use self_mini_os.Common.{
  ℕ, ◌*◌, ◌+◌, ◌-◌, ◌/◌, ◌^◌, ◌≤◌, ◌≡◌, refl, true, Option, none, some, List, [], ◌∷◌, arith, min,
  u32_mod,
}
use self_mini_os.Traffic.{
  init_queue, Traffic, TcShaper, TcQueue, assign, zero_queue, get_task_class, consume_tokens,
  update_shaper,
}
use self_mini_os.Traffic.Chains.{Queues, count_all}
use self_mini_os.Traffic.Order.{IsValid, Enqueued, enqueue_task_lem}
use self_mini_os.Traffic.Dequeue.{Dequeued, dequeue_task_lem}
use self_mini_os.Traffic.Tokens.{
  granted, granted-le, consume_tokens-bounded, update_shaper-init_queue,
}

-- tasks 10 and 11 wait in class 1, and all tasks but 13 have class 1
abbrev waiting : TcQueue
waiting = let q = zero_queue in record q { head = some 10; tail = some 11; count = 2 }

abbrev state : Traffic
state = record {
  queues = zero_queue ∷ waiting ∷ zero_queue ∷ zero_queue ∷ zero_queue ∷ [];
  initialized = true;
  next = assign (λ t. none) 10 (some 11);
  flags = assign (λ t. 2 ^ 24) 13 (7 * 2 ^ 24);
}

abbrev lists : List (List ℕ)
lists = [] ∷ (10 ∷ 11 ∷ []) ∷ [] ∷ [] ∷ [] ∷ []

empty-Queues : (next : ℕ → Option ℕ) → Queues next zero_queue []
empty-Queues next = record { chain = refl; end = refl; counted = refl }

state-IsValid : IsValid state lists
state-IsValid = record {
  five = refl;
  whole = (
    empty-Queues state.next,
    (
      record { chain = (refl, (refl, refl)); end = refl; counted = refl },
      (empty-Queues state.next, (empty-Queues state.next, (empty-Queues state.next, tt))),
    ),
  );
  once = λ u. at_most u;
}
  where
    at_most : (u : ℕ) → count_all u lists ≤ 1
    at_most u = ground arith

enqueue_task_lem_example : Enqueued state lists 12 5
unfolding get_task_class
enqueue_task_lem_example = enqueue_task_lem state lists 12 5 state-IsValid refl (omega arith)

dequeue_task_lem_example : Dequeued state (some (10, [] ∷ (11 ∷ []) ∷ [] ∷ [] ∷ [] ∷ []))
dequeue_task_lem_example = dequeue_task_lem state lists state-IsValid

abbrev slow : TcShaper
slow = record { token_rate = 2000; bucket_size = 16; current_tokens = 4; last_update = 100 }

granted-le_example :
    granted slow ((101, 6) ∷ (101, 1) ∷ (110, 16) ∷ []) * 1000 ≤ 4 * 1000 + (110 - 100) * 2000
granted-le_example =
    granted-le slow 100 ((101, 6) ∷ (101, 1) ∷ (110, 16) ∷ []) 110 refl (omega arith)

slow_runs : granted slow ((101, 6) ∷ (101, 1) ∷ (110, 16) ∷ []) ≡ 22
unfolding consume_tokens update_shaper
slow_runs = refl

consume_tokens-bounded_example :
    ((consume_tokens slow 3 105).1.current_tokens ≤ 16)
    × ((consume_tokens slow 3 105).1.last_update ≡ 105)
consume_tokens-bounded_example = consume_tokens-bounded slow 3 105

update_shaper-init_queue_example :
    let (ok, s) = consume_tokens (init_queue 2 7).shaper 16384 7 in
    (ok ≡ true)
    × ((update_shaper s 4294000007).current_tokens ≡ min 16384 ((u32_mod - 4294000000) / 1000))
update_shaper-init_queue_example =
    update_shaper-init_queue 2 7 4294000007 (omega arith) (omega arith)

-- a second of waiting for a million tokens a second earns a million, five seconds seven hundred
-- thousand: the product wraps
abbrev million : TcShaper
million = record {
  token_rate = 1000000;
  bucket_size = 10000000;
  current_tokens = 0;
  last_update = 0;
}

longer_wait_earns_less :
    ((update_shaper million 1000).current_tokens ≡ 1000000)
    × ((update_shaper million 5000).current_tokens ≡ 705032)
unfolding update_shaper
longer_wait_earns_less = (refl, refl)
