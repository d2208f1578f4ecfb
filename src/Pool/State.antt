-- ===== src/Pool/State.antt =====
-- xutex-pool/src/lib.rs and src/wait_queue.rs: where a caller stands that locks a wait queue, and the
-- state that callers share.
use xutex.Prelude.{ℕ, Bool, Option, List}

-- Why the pool is used.
pub data Use : Type 0 where
  takes : Use  -- `allocate_queue`, for `lock`
  gives : (queue : ℕ) → Use  -- `deallocate_queue`

-- Where a caller stands; `Q` is the type of the third-party queue.
pub data PoolPlace (Q : Type 0) : Type 0 where
  idle : PoolPlace Q
  absent : PoolPlace Q  -- `lock` has returned `None`
  loading : (alloc : Bool) → PoolPlace Q  -- `lock`, before its load
  seeing : (alloc : Bool) (ptr : ℕ) → PoolPlace Q  -- its loop
  pooling : Use → PoolPlace Q  -- `pool()`, before its load
  filling : Use → (left : ℕ) (fresh : Q) → PoolPlace Q  -- `init_pool`
  publishing : Use → (fresh : Q) → PoolPlace Q
  freeing : Use → (lost : Q) → PoolPlace Q
  exchanging : Use → PoolPlace Q  -- before `push` or `pop` of the pool
  locked : (queue : ℕ) → PoolPlace Q  -- owns the `LockedQueue`
  clearing : (queue : ℕ) → PoolPlace Q  -- in `unlock`, before the store of null

-- A caller, with the number of the wait queue that it deals with.
pub record PoolCaller (Q : Type 0) : Type 0 where
  pub target : ℕ
  pub place : PoolPlace Q

abbrev pub new_pool_caller : {Q : Type 0} → PoolCaller Q
new_pool_caller = record { target = 0; place = idle }

-- What one caller's step reads and writes: the pointer of its wait queue, the static `POOL`, the
-- nodes in each queue, and which queues are allocated.
pub record PoolView (Q : Type 0) : Type 0 where
  pub word : ℕ
  pub root : Option Q
  pub nodes : ℕ → List ℕ
  pub live : ℕ → Bool
  pub caller : PoolCaller Q

-- The calls of the clients; `edits` is `with_queue`, with any closure.
pub data PoolCall : Type 0 where
  locks : (w : ℕ) (alloc : Bool) → PoolCall
  edits : (List ℕ → List ℕ) → PoolCall
  unlocks : PoolCall

pub data PoolEvent : Type 0 where
  call : (i : ℕ) → PoolCall → PoolEvent
  run : (i box : ℕ) → PoolEvent

-- All callers with `m` wait queues, their pointers, and what they share.
pub record Pools (Q : Type 0) : Type 0 where
  pub words : ℕ → ℕ
  pub root : Option Q
  pub nodes : ℕ → List ℕ
  pub live : ℕ → Bool
  pub caller : ℕ → PoolCaller Q
