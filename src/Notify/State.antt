-- ===== src/Notify/State.antt =====
-- src/notify.rs: the core, and where a caller stands between two accesses to shared memory.
use xutex.Prelude.{ℕ, Bool, List}
use xutex.WaitQueue.Lock.{Tag}

-- The word: the generation, HAS_QUEUE and PERMIT.
pub record NotifyWord : Type 0 where
  pub gen : ℕ
  pub has_queue : Bool
  pub permit : Bool

pub record NotifyCore : Type 0 where
  pub word : NotifyWord
  pub tag : Tag
  pub queue : List ℕ  -- the callers whose nodes are queued, oldest first

-- `Signal::value`: not signaled, SIGNAL_SIGNALED, SIGNAL_ALL.
pub data Told : Type 0 where
  asleep by_one by_all : Told

-- What a caller does once it has released the queue.
pub data Onward : Type 0 where
  rests : (g : ℕ) → Onward
  passes withdraws waits_on retries : Onward
  tells : (chain : List ℕ) (told : Told) → Onward

-- Where a caller stands; `g` is the generation that its wait captured.
pub data NotifyPlace : Type 0 where
  idle : NotifyPlace
  capturing : (future : Bool) → NotifyPlace  -- before the load of the generation
  created : (g : ℕ) → NotifyPlace  -- a future that was not polled
  trying : (again : Bool) (g : ℕ) → NotifyPlace  -- `try_complete`, before its load
  taking : (again : Bool) (g : ℕ) (cur : NotifyWord) → NotifyPlace  -- before its exchange
  park_locking : (g : ℕ) → NotifyPlace  -- `enqueue_or_complete`
  flagging : (g : ℕ) → NotifyPlace  -- under the lock, before HAS_QUEUE is set
  claiming : (g : ℕ) (cur : NotifyWord) → NotifyPlace  -- before the exchange for the permit
  unlocking : Onward → NotifyPlace
  unpublishing : Onward → NotifyPlace  -- the queue is empty and HAS_QUEUE cleared
  telling : (chain : List ℕ) (told : Told) → NotifyPlace  -- before the next node is signaled
  parked : (g : ℕ) → NotifyPlace
  notifying : NotifyPlace  -- `notify_one`, before its load
  storing : (cur : NotifyWord) → NotifyPlace  -- before its exchange
  renotifying : NotifyPlace  -- `notify_one_slow`, before a load
  restoring : (cur : NotifyWord) → NotifyPlace  -- before its exchange
  one_locking : NotifyPlace
  one_popping : NotifyPlace
  bumping : NotifyPlace  -- `notify_waiters`, before the generation changes
  all_locking : NotifyPlace
  all_popping : NotifyPlace
  leave_locking : NotifyPlace  -- `drop_slow`
  leave_removing : NotifyPlace
  leave_waiting : NotifyPlace

-- A caller with its node; `aux` is the generation stored in it.
pub record NotifyCaller : Type 0 where
  pub place : NotifyPlace
  pub told : Told
  pub aux : ℕ

-- The part of the state that one caller's step reads and writes, but for others' nodes.
pub record NotifyView : Type 0 where
  pub core : NotifyCore
  pub caller : NotifyCaller
