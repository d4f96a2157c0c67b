-- ===== src/Multiqueue/Run.antt =====
-- mini_rtos/src/multiqueue.c: a queue that appends (FIFO and weighted) against a bounded FIFO of byte
-- strings, over any sequence of calls.
use self_mini_os.Common.{
  ℕ, suc, ◌≡◌, refl, inl, inr, ◌||◌, Bool, true, false, Option, none, some, List, [], ◌∷◌, ◌++◌,
  arith, ltb, ◌==◌, length, Option-cases, ap, if◌then◌else◌, take, ◌⊎◌,
}
use self_mini_os.Semaphore.{Semaphores}
use self_mini_os.Multiqueue.{
  fifo, weighted, QueueItem, Queue, Request, Memory, enqueue_bytes, insert_item, rotate, link,
  unlink, timed_out, enqueue, dequeue, item_of,
}
use self_mini_os.Multiqueue.Counts.{IsValid, enqueue-IsValid, dequeue-IsValid}

pub data Op : Type 0 where
  put : Request → Op
  get : ℕ → Op

-- what a call returns: its flag, and what it writes through `size` and `data`
abbrev pub Reply : Type 0
Reply = Bool × Option (ℕ × List ℕ)

-- the specification: a size and the bytes of each message, oldest first
abbrev pub Fifo : Type 0
Fifo = List (ℕ × List ℕ)

abbrev pub is_some {ℓ} : {A : Type ℓ} → Option A → Bool
is_some none = false
is_some (some _) = true

unfoldable pub spec_get : Fifo → Option (ℕ × List ℕ) × Fifo
spec_get [] = (none, [])
spec_get (x ∷ f) = (some x, f)

module _ (cap item_size : ℕ) where
  unfoldable pub spec_put_bytes : Fifo → Request → List ℕ → Bool × Fifo
  spec_put_bytes f r bytes =
      if ltb item_size r.size || length f == cap
      then (false, f)
      else (true, f ++ (r.size, take r.size bytes) ∷ [])

  unfoldable pub spec_put : Fifo → Request → Bool × Fifo
  spec_put f r = elim r.buffer [ none ↦ (false, f) | some bytes ↦ spec_put_bytes f r bytes ]

  unfoldable pub spec_run : Fifo → List Op → List Reply
  unfolding spec_put
  spec_run f [] = []
  spec_run f (put r ∷ ops) = let (done, f') = spec_put f r in (done, none) ∷ spec_run f' ops
  spec_run f (get t ∷ ops) = let (out, f') = spec_get f in (is_some out, out) ∷ spec_run f' ops

abbrev pub plenty : Memory
plenty = record { item = true; payload = true }

-- the messages of a queue
unfoldable pub cells : List QueueItem → Fifo
cells [] = []
cells (x ∷ xs) = (x.size, x.payload) ∷ cells xs

length-cells : (xs : List QueueItem) → length (cells xs) ≡ length xs
unfolding cells
length-cells [] = refl
length-cells (x ∷ xs) = ap suc (length-cells xs)

cells-append :
    (xs : List QueueItem) (item : QueueItem)
    → cells (xs ++ item ∷ []) ≡ cells xs ++ (item.size, item.payload) ∷ []
unfolding cells
cells-append [] item = refl
cells-append (x ∷ xs) item = ap (λ r. (x.size, x.payload) ∷ r) (cells-append xs item)

module _ {Sem : Type 0} ⦃S : Semaphores Sem⦄ where
  unfoldable pub run : Queue Sem → List Op → List Reply
  run q [] = []
  run q (put r ∷ ops) = let (done, q') = enqueue q r plenty in (done, none) ∷ run q' ops
  run q (get t ∷ ops) = let (out, q') = dequeue q t in (is_some out, out) ∷ run q' ops

  Appends : Queue Sem → Type 0
  Appends q = (q.type ≡ fifo) ⊎ (q.type ≡ weighted)

  enqueue_same :
      (q : Queue Sem) (r : Request)
      → let q' = (enqueue q r plenty).1 in
        (q'.type ≡ q.type) × (q'.max_items ≡ q.max_items) × (q'.item_size ≡ q.item_size)
  unfolding enqueue enqueue_bytes timed_out link
  enqueue_same q r = ground arith

  dequeue_same :
      (q : Queue Sem) (t : ℕ)
      → let q' = (dequeue q t).1 in
        (q'.type ≡ q.type) × (q'.max_items ≡ q.max_items) × (q'.item_size ≡ q.item_size)
  unfolding dequeue timed_out unlink
  dequeue_same q t = ground arith

  insert_item-append :
      (q : Queue Sem) (item : QueueItem)
      → Appends q
      → insert_item q.type item q.items ≡ q.items ++ item ∷ []
  unfolding Appends insert_item
  insert_item-append q item (inl e) = rw e
  insert_item-append q item (inr e) = rw e

  enqueue_bytes_refines :
      (q : Queue Sem) (r : Request) (bytes : List ℕ)
      → IsValid q
      → Appends q
      → let (done, q') = enqueue_bytes q r plenty bytes in
        (done, cells q'.items) ≡ spec_put_bytes q.max_items q.item_size (cells q.items) r bytes
  unfolding enqueue_bytes timed_out link spec_put_bytes item_of
  enqueue_bytes_refines q r bytes v a =
      let item = item_of r bytes in
      ground (
        arith,
        length-cells q.items,
        S.value-wait_true q.not_full r.timeout_ms,
        S.value-wait_false q.not_full r.timeout_ms,
        S.wait_pos q.not_full r.timeout_ms,
        insert_item-append q item a,
        cells-append q.items item,
      )

  enqueue_refines :
      (q : Queue Sem) (r : Request)
      → IsValid q
      → Appends q
      → let (done, q') = enqueue q r plenty in
        (done, cells q'.items) ≡ spec_put q.max_items q.item_size (cells q.items) r
  unfolding enqueue spec_put
  enqueue_refines q r v a = elim (Option-cases r.buffer) [
    | inl e ↦ rw (e, enqueue, spec_put)
    | inr (bytes, e) ↦ rw (e, enqueue, spec_put) (enqueue_bytes_refines q r bytes v a)
  ]

  rotate_same : (q : Queue Sem) → Appends q → rotate q.type q.items ≡ q.items
  unfolding Appends rotate
  rotate_same q (inl e) = rw e
  rotate_same q (inr e) = rw e

  dequeue_refines :
      (q : Queue Sem) (t : ℕ)
      → IsValid q
      → Appends q
      → let (out, q') = dequeue q t in (out, cells q'.items) ≡ spec_get (cells q.items)
  unfolding dequeue timed_out unlink spec_get cells
  dequeue_refines q t v a = ground (
    arith,
    length-cells q.items,
    S.value-wait_true q.not_empty t,
    S.value-wait_false q.not_empty t,
    S.wait_pos q.not_empty t,
    rotate_same q a,
  )

  -- No sequence of enqueues and dequeues tells a valid FIFO or weighted queue from the bounded FIFO of
  -- its messages, if `malloc` succeeds: same flags, same sizes, same bytes, in the same order.
  pub run_refines :
      (ops : List Op) (q : Queue Sem)
      → IsValid q
      → (q.type ≡ fifo) ⊎ (q.type ≡ weighted)
      → run q ops ≡ spec_run q.max_items q.item_size (cells q.items) ops
  unfolding run spec_run Appends
  run_refines [] q v a = refl
  run_refines (put r ∷ ops) q v a =
      let (t, m, i) = enqueue_same q r in
      rw (
        run_refines ops (enqueue q r plenty).1 (enqueue-IsValid q r plenty v) (rw t a),
        ← enqueue_refines q r v a,
        m,
        i,
      )
  run_refines (get t ∷ ops) q v a =
      let (ty, m, i) = dequeue_same q t in
      rw (
        run_refines ops (dequeue q t).1 (dequeue-IsValid q t v) (rw ty a),
        ← dequeue_refines q t v a,
        m,
        i,
      )
