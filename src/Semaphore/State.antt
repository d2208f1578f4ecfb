-- ===== src/Semaphore/State.antt =====
-- src/semaphore.rs, `SemCore` and the `Signal` nodes of its waiters, and where a caller stands
-- between two accesses to memory that others share.
pub use xutex.WaitQueue.Lock.{Tag, null, published, held}
use xutex.Prelude.{ℕ, ◌^◌, ◌/◌, ◌-◌, Bool, true, false, List, ◌==◌, ◌&&◌, not}

-- `usize::MAX >> 3`, on 64 bits.
abbrev pub max_permits : ℕ
max_permits = (2 ^ 64 - 1) / 8

-- The word `permits << 2 | HAS_QUEUE | CLOSED`, read apart.
pub record Pool : Type 0 where
  pub permits : ℕ
  pub has_queue : Bool
  pub closed : Bool

abbrev pub same_bit : Bool → Bool → Bool
same_bit true b = b
same_bit false b = not b

-- Equality of two words, the test of a compare-exchange.
abbrev pub same_pool : Pool → Pool → Bool
same_pool p q =
    p.permits == q.permits && (same_bit p.has_queue q.has_queue && same_bit p.closed q.closed)

pub record SemCore : Type 0 where
  pub pool : Pool
  pub tag : Tag
  pub queue : List ℕ  -- the callers whose nodes are queued, oldest first

-- `Signal::value`
pub data Signal : Type 0 where
  uninit waiting signaled closed returned : Signal

-- Who calls `try_acquire`: the public method, or the first or the second attempt of a wait.
pub data Attempt : Type 0 where
  only first second : Attempt

-- What a caller does once it has released the tag-lock.
pub data Then : Type 0 where
  acquired : (n : ℕ) → Then
  refused : Then
  queued : (n : ℕ) → Then
  wakes : (chain : List ℕ) (value : Signal) → Then
  gives : (granted : ℕ) → Then
  drains : Then
  quits : Then
  awaits : (n : ℕ) → Then

-- Where a caller stands, with the locals that are live there; `n` is the number requested.
pub data Pc : Type 0 where
  idle : Pc
  trying : (a : Attempt) (n : ℕ) (cur : Pool) → Pc  -- the loop of `try_acquire`
  locking : (n : ℕ) → Pc  -- `enqueue_or_acquire`, before `lock(true)`
  flagging : (n : ℕ) → Pc  -- before `fetch_or(HAS_QUEUE)`
  deciding : (n : ℕ) (cur : Pool) → Pc  -- its loop
  unlocking : Then → Pc  -- before `unlock`
  unpublishing : Then → Pc  -- in `unlock`, between `on_empty` and the store of null
  parked : (n : ℕ) → Pc  -- queued: waits for its signal
  holding : (n : ℕ) → Pc  -- owns a permit object of `n`
  releasing : (n : ℕ) → Pc  -- start of `release`
  drain_locking : Pc  -- `drain`, before `lock(false)`
  drain_loading : Pc
  draining : (cur : Pool) → Pc  -- the loop that empties the pool
  assigning : (available : ℕ) → Pc  -- the loop over the queue
  returning : (available : ℕ) (chain : List ℕ) → Pc  -- before the leftovers go back
  waking : (chain : List ℕ) (value : Signal) → Pc  -- `signal_all`
  closing : Pc  -- start of `close`
  close_locking : Pc
  close_popping : Pc
  forgetting : (n : ℕ) (cur : Pool) → Pc  -- the loop of `forget_permits`
  cancel_locking : (n : ℕ) → Pc  -- `cancel_acquire`, before `lock(false)`
  cancel_removing : (n : ℕ) → Pc
  cancel_waiting : (n : ℕ) → Pc  -- its wait for a signal in flight
  panicked : Pc

-- What the last acquisition of a caller returned.
pub data Outcome : Type 0 where
  pending granted failed : Outcome

-- A caller with its node; `aux` is the number of permits that the node still needs.
pub record Task : Type 0 where
  pub pc : Pc
  pub value : Signal
  pub aux : ℕ
  pub outcome : Outcome

abbrev pub new_task : Task
new_task = record { pc = idle; value = uninit; aux = 0; outcome = pending }

-- The part of the state that one caller's step reads and writes, but for other callers' nodes.
-- `supply` counts the permits that exist: it is no part of the program.
pub record Local : Type 0 where
  pub core : SemCore
  pub task : Task
  pub supply : ℕ
