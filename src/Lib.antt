-- ===== src/Lib.antt =====
-- Blocking and asynchronous synchronization primitives (package xutex): the wait queue that they
-- share, the mutex, the counting semaphore, the reader-writer lock on top of it, the once-cell,
-- the barrier, and the notification.
--
-- The parts and their files:
--
-- * xutex-pool/src/lib.rs, `SignalQueue`: Queue.antt. A node is its address, a number that is 0
--   for the null pointer; the links of all nodes are one function, as memory is. `push`, `pop`,
--   `first`, `is_empty` and `remove` are the methods. Queue/Linked.antt says which list of
--   addresses a queue with its links stands for (`IsQueue`), Queue/Fifo.antt what each method does
--   to that list, Queue/History.antt what a history of calls does.
-- * src/wait_queue.rs, `PoppedChain`: WaitQueue.antt, on top of the queue. The chain is threaded
--   through the links that `pop` leaves in place; `seal` cuts it; `signal_all` reads each link
--   before it signals the node, whose owner may then reuse it (the argument `reuse`).
-- * src/wait_queue.rs, `signal_node` and `rearm`, with src/waker.rs: WaitQueue/Handshake.antt
--   has the owner of a node, a thread or a future, and its signaler; WaitQueue/Awake.antt its
--   wakeups, for a future that is polled with one waker; WaitQueue/Tests.antt has a run with two.
--   The machines below leave this out: a waiter there looks at its node's value at any time.
-- * src/wait_queue.rs, the lock: WaitQueue/Lock.antt has the tag that the machines below share,
--   and the contract of the lock (`LockMove`): what one event may do to the tag and to the nodes.
--   WaitQueue/Order.antt has the order of a queue with nodes of an earlier round or generation.
-- * src/wait_queue.rs, `WaitQueue` and `LockedQueue`, with xutex-pool/src/lib.rs, the pool:
--   Pool. Pool/Pointer.antt has the values of the pointer with `tag_pointer` and `untag_pointer`
--   of src/lib.rs, Pool/SegQueue.antt what the pool uses of the package crossbeam-queue, as a
--   record of operations and laws. Pool/State.antt has the places of a caller, Pool/Steps.antt its
--   steps: the rounds of `lock`, `with_queue` with any closure, `unlock`, `pool`, `init_pool`,
--   `allocate_queue` and `deallocate_queue`, for several wait queues that share one pool.
--   Pool/Invariant.antt says who owns each queue and each lock, Pool/Moves.antt and
--   Pool/Reach.antt why each step keeps it, Pool/Contract.antt and Pool/Refinement.antt why the
--   steps keep to the contract of the lock, Pool/Progress.antt and Pool/Alone.antt what a caller
--   does that runs alone; Pool/Safety.antt has what follows. Semaphore/Contract.antt,
--   OnceCell/Contract.antt, Barrier/Contract.antt and Notify/Contract.antt are the other side: the
--   moves that each client makes with its lock.
-- * src/waker.rs, `DynamicWaker`: Waker.antt has the slot with its spin lock, `register`,
--   `store_async` and `take`, in steps up to each access of the flag or the slot;
--   Waker/Atomic.antt has what the lock makes of them.
-- * src/backoff.rs, `Backoff`: Backoff.antt, with the spin phase of `acquire_sync_slow` of
--   src/semaphore.rs; Backoff/Bounds.antt has its bounds.
-- * src/semaphore.rs, `SemCore`: Semaphore. Semaphore/State.antt has the core's word and queue,
--   a node's fields and the places where a caller can stand (`Pc`): one for each access to memory
--   that others share. Semaphore/Steps.antt has the code between two of them: `try_acquire`,
--   `release`, `drain`, `enqueue_or_acquire`, `close`, `forget_permits`, `finish_sync`,
--   `drop_acquire` and `cancel_acquire`, in parts. Semaphore/System.antt puts callers side by
--   side: an `Event` is a public call, a step of one caller, or a split or merge of permit objects
--   (`split_permit`, `merge_permit`, `hand_back`), and `steps` runs events in any order. The queue
--   is there the list of its nodes, which Queue/Fifo.antt justifies; the chain is the list of
--   those popped, which WaitQueue/Popped.antt justifies.
-- * src/lib.rs, `MutexInternal` with the requests and guards of `Mutex` and `AsyncMutex`: Mutex.
--   Its callers' steps are in Mutex/Steps.antt: `try_lock`, the rounds of `lock_slow` and
--   `enqueue`, `push_and_publish`, both halves of the guard's drop, `remove_from_queue` and the
--   rest of a request's drop. Mutex/Invariant.antt has the invariant and the steps of one caller,
--   Mutex/Handover.antt the handoff and all steps together, Mutex/Release.antt the drop of a
--   guard, Mutex/Safety.antt what follows.
-- * src/rwlock.rs, the lock's public calls: RwLock.antt translates each to the call of the
--   semaphore that it makes; RwLock/Exclusion.antt has what follows, with Semaphore/Supply.antt:
--   no step makes permits. RwLock/Downgrade.antt has `downgrade`: a split of the writer's permits,
--   whose release another caller stands in for.
-- * src/once_cell.rs, `OnceCellInternal`: OnceCell. OnceCell/State.antt has the cell, a node and
--   the places of a caller, OnceCell/Steps.antt its steps: `get`, `set`, both forms of
--   `get_or_try_init`, `complete`, `abort`, `wake_one_retry`, `enqueue_or_state`, `cancel_wait`
--   and the drops, and `take`. OnceCell/Invariant.antt has the invariant, OnceCell/Moves.antt,
--   OnceCell/Tell.antt and OnceCell/Reach.antt why each step keeps it, OnceCell/Failure.antt and
--   OnceCell/Success.antt the ends of an initializer, OnceCell/Safety.antt and OnceCell/Awake.antt
--   what follows.
-- * src/barrier.rs, `BarrierCore` and its requests: Barrier. Barrier.antt has the word of
--   `BarrierCore` with `arrive`, Barrier/Rounds.antt a round without interleaving,
--   Barrier/Encoding.antt the word read apart. Barrier/Steps.antt has the callers' steps: the loop
--   of `arrive`, `release_waiters`, `enqueue_or_complete`, the waits and `drop_slow`.
--   Barrier/Invariant.antt has the invariant; Barrier/Moves.antt, Barrier/Kept.antt,
--   Barrier/PopRound.antt, Barrier/Release.antt and Barrier/Complete.antt why the steps keep it,
--   with WaitQueue/Order.antt on the order of the queue; Barrier/Safety.antt and
--   Barrier/Finish.antt what follows. The callers are at most as many as the size;
--   Barrier/Tests.antt has a run of more.
-- * src/notify.rs, `NotifyCore` and its futures: Notify. Notify/State.antt has the places of a
--   caller, Notify/Steps.antt its steps: `try_complete`, `enqueue_or_complete`, `notify_one` with
--   its slow half, `notify_waiters`, the waits and `drop_slow`. Notify/Invariant.antt has the
--   invariant; Notify/Moves.antt, Notify/Kept.antt, Notify/Bump.antt and Notify/Release.antt why
--   the steps keep it; Notify/Safety.antt what follows. Notify/Tests.antt has a run of both
--   notifications at once.
-- * Semaphore/Awake holds a second invariant: what the head of the queue lacks is not in the
--   pool, or a caller is on the way to hand it over.
-- * Semaphore/Invariant holds the invariant of the machine and, for each step, why it is kept;
--   Semaphore/Safety.antt what follows for the states that callers reach; Semaphore/Permits.antt
--   what a merge makes of a split; Semaphore/Encoding.antt the pool as a word;
--   Semaphore/Order.antt the order in which `drain` serves.
--
-- Numbers and bounds: the count in the pool word is taken modulo 2 ^ 62 where it grows, and the
-- sum that `release` tests modulo 2 ^ 64, as on a machine with words of 64 bits. The runs
-- considered start with at most `max_permits` permits and no `add_permits` makes more. The runs
-- of a notification have fewer than 2 ^ 61 events, so that its generation does not come round.
-- Loops over a queue are on fuel; one round for each node and one more is enough, and the
-- theorems say so.
--
-- Simplifications: memory is sequentially consistent. `compare_exchange_weak` may fail without
-- cause (the argument `spurious`). A caller has one node, and is a thread or a future. The value
-- `waiting` stands for UNINIT of a queued thread's node and for INIT_WAITING. The number
-- `supply` counts the permits that exist; the program has no such number.
--
-- A caller that runs alone needs at most 263 steps to lock a queue: the pool is filled with at
-- most 128 queues, two steps for each if another caller has published its pool meanwhile. A spin
-- phase has at most 34 rounds.
--
-- Not modelled: the variants of src/backoff.rs, src/waker.rs and src/wait_queue.rs for loom, and
-- src/shim.rs, which passes on atomics and cells. src/allocator.rs passes calls to the pool on.
-- The mutex has its queue pointer in a word of its own, whose queue is not tied to the pool, and
-- drop_slow, where it has read a null word, reads it again instead of trying to tag it. The
-- panic of a merge of permits of two semaphores, what follows a panic of an acquisition (its
-- caller stays where it is), formatting, conversions between the blocking and the asynchronous
-- types, and error texts are left out.
pub mod Prelude
pub mod Queue
pub mod Pool
pub mod Waker
pub mod Backoff
pub mod WaitQueue
pub mod Semaphore
pub mod Mutex
pub mod Notify
pub mod RwLock
pub mod Barrier
pub mod OnceCell
