-- ===== src/OnceCell/State.antt =====
-- src/once_cell.rs: the cell, and where a caller stands between two accesses to shared memory. The
-- values that the cell holds are numbers.
use xutex.Prelude.{ℕ, Bool, Option, List}
use xutex.WaitQueue.Lock.{Tag}

-- EMPTY, RUNNING and READY.
pub data Stage : Type 0 where
  empty running ready : Stage

-- `Signal::value`: not signaled, SIGNAL_SIGNALED, SIGNAL_RETRY.
pub data Wake : Type 0 where
  asleep published_value retry : Wake

-- `OnceCellInternal`; `slot` is the value's memory, none while it is not initialized.
pub record Cell : Type 0 where
  pub stage : Stage
  pub slot : Option ℕ
  pub tag : Tag
  pub queue : List ℕ  -- the callers whose nodes are queued, oldest first

-- What a caller does once it has released the queue.
pub data Next : Type 0 where
  redo parks quits waits_on : Next
  tells : (chain : List ℕ) (wake : Wake) → Next

pub data OncePlace : Type 0 where
  idle : OncePlace
  getting : OncePlace  -- before the load of `is_ready`
  setting : (v : ℕ) → OncePlace  -- `set`, before the exchange of EMPTY for RUNNING
  deciding : OncePlace  -- the loop of `get_or_try_init`, before its load
  beginning : OncePlace  -- before its exchange of EMPTY for RUNNING
  initializing : OncePlace  -- runs the caller's own initializer
  writing : (v : ℕ) → OncePlace  -- before the value is written
  publishing : OncePlace  -- before the swap with READY
  complete_locking : OncePlace
  complete_popping : OncePlace
  reverting : OncePlace  -- before the swap with EMPTY
  retry_locking : OncePlace  -- `wake_one_retry`
  retry_popping : OncePlace
  park_locking : OncePlace  -- `enqueue_or_state`
  park_checking : OncePlace
  unlocking : Next → OncePlace
  telling : (chain : List ℕ) (wake : Wake) → OncePlace  -- before the next node is signaled
  parked : OncePlace
  reading : OncePlace  -- before `value_ref`
  leave_locking : OncePlace  -- `cancel_wait`
  leave_removing : OncePlace
  leave_waiting : OncePlace

-- What the last call returned: a value or none, the initializer's error, or the answer of `set`.
pub data Answer : Type 0 where
  nothing : Answer
  got : Option ℕ → Answer
  init_failed stored already_initialized already_running : Answer

-- A caller with its node; `returns` says that its call returns a reference to the value.
pub record OnceCaller : Type 0 where
  pub place : OncePlace
  pub wake : Wake
  pub returns : Bool
  pub answer : Answer

-- The part of the state that one caller's step reads and writes, but for others' nodes.
pub record OnceView : Type 0 where
  pub cell : Cell
  pub caller : OnceCaller
