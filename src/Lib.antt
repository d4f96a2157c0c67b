-- ===== src/Lib.antt =====
-- Verification of self_mini_os: a collection of operating-system components in C, the mini_rtos kernel
-- (mini_rtos/) and stand-alone Linux-style modules beside it.
--
-- Files and the code that they model:
-- Common.antt: Boolean tests, lists with native indices, `uint32_t` arithmetic.
-- Semaphore.antt: the counting semaphores that the queues call and that no file defines, as an
--   interface; Multiqueue/Tests fills it with a counter.
-- Multiqueue.antt: mini_rtos/src/multiqueue.c. `enqueue` is mqueue_enqueue, `dequeue` mqueue_dequeue, and
--   so on; the linked items are a list from head to tail. Children: Counts (counters and
--   semaphores), Stable and Order (priority and deadline order), Run (a FIFO specification).
-- RbTree.antt: mini_rtos/src/rbtree.c. A node with its parent pointers is a subtree and the frames above
--   it; `fixup` is rb_insert_fixup, `descend` the loop of rb_insert. Children: Shape (red-black
--   rules), Contents (nodes from left to right), Insert, Query, and Removal with rb_delete,
--   rb_successor and rb_predecessor: Settle and Fixup (the rounds of rb_delete_fixup), Repair (its
--   loop), Delete, Valid, Locate (rb_find_task with the place that it finds).
-- Scheduler.antt: mini_rtos/src/scheduler.c over the trees, the hash tables and the traffic control;
--   a task is the number of its control block, `add_task` is scheduler_add_task, `remove_task`
--   scheduler_remove_task. Children: Tasks (task_create, task_delay, get_next_task and so on, with
--   Next, Create, Live, Yield, Delay and Wakeup), Inherit (inherit_priority, release_inherited_priority,
--   with Writes, Release and Restores), Nodes (sorted lists of nodes), Queues (a tree under a key
--   function), Tables (the tables of tasks), Steps, Calls (calls in any order, with States and Live).
-- Timer.antt: mini_rtos/src/timer.c, the wheel of a processor; `timer_wheel_advance` is the tick.
--   Children: Base (timer_create, timer_start, timer_stop and the rest), Slots (the lists of the
--   wheel), Rounds (a round of the loop of the tick), Ticks (the loop), Cascades, Advance (a tick),
--   Firing (when callbacks run).
-- Traffic.antt: mini_rtos/src/traffic_control.c, the token buckets and the queues of the classes;
--   `enqueue_task` is tc_enqueue_task, and so on. Children: Admin (set-up, policies and statistics),
--   Chains (queues as lists threaded on one field), Order, Dequeue, Tokens, Audit.
-- RtosHeap.antt: memory_init and rtos_malloc of mini_rtos/src/rtos_core.c. Children: Fit, Disjoint.
-- HashTable.antt: mini_rtos/src/hashtable.c. `find_slot`, `insert` (ht_insert), `remove`, `resize` and so
--   on over the list of slots. Children: Primes (is_prime, next_prime), Hashes (the hash functions and
--   comparisons), Ring (indices modulo the size), Probe (the loop of find_slot), View (the map that
--   the slots stand for), Valid (the invariant), Writes, Store, Insert, Reinsert, Resize, Map, Remove,
--   Walk (ht_create, ht_clear, the iterator).
-- Spinlock.antt: spinlock.c, the spin lock, the reader-writer lock and the ticket lock, as steps of
--   threads in any order. Children: Counts, Exclusion, Tickets.
-- LoadBalancer.antt: mini_rtos/src/load_balancer.c; `balance_task` is lb_balance_task, and so on. The loop
--   of find_best_core and its likes are `scan`. Children: Choice (what these loops return), Moves
--   (the other operations) with Balance and Conserved (the numbers of tasks) and Idle (lb_init).
--
-- The loops are recursions on the list, the tree or the frames that they walk, except these, which
--   take fuel: the walk of tc_verify_configuration (as much as the longest queue has tasks is enough),
--   find_slot (as much as the table has slots), is_prime (1000 rounds), next_prime (2 ^ 23 rounds, for
--   sizes below the largest prime there), process_blocked_tasks (as much as the list has tasks) and
--   the loops over the lists of timers (as much as a list has timers). Insertions and resizings of the
--   hash table nest at most one deep.
-- Words are numbers, and every sum of the source that can wrap is reduced modulo 2 ^ 32.
-- Whether `malloc` succeeds is an argument of the operations that call it. Operations that run under
-- a mutex or with interrupts masked are single steps.
--
-- Not modelled: the context switch and start-up in assembly, hardware registers, printing, and the
-- modules that only wrap calls of the Linux kernel.
pub mod Common
pub mod Semaphore
pub mod Multiqueue
pub mod RbTree
pub mod RtosHeap
pub mod Timer
pub mod Traffic
pub mod Spinlock
pub mod HashTable
pub mod LoadBalancer
pub mod Scheduler
