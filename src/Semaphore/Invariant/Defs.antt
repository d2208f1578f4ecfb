-- ===== src/Semaphore/Invariant/Defs.antt =====
-- src/semaphore.rs: who owns the permits, who holds the tag-lock, and where each node is linked.
pub use xutex.WaitQueue.Lock.{held_count}
use xutex.Prelude.{
  ℕ, ◌+◌, ◌-◌, ◌≤◌, ◌<◌, ◌≡◌, ◌⊎◌, Bool, true, false, Option, none, some, List, [], ◌==◌,
  if◌then◌else◌, has, count, total, arith,
}
use xutex.Semaphore.State.{
  max_permits, null, Signal, waiting, signaled, returned, Then, acquired, queued, wakes, gives,
  awaits, Pc, locking, flagging, deciding, unlocking, unpublishing, parked, holding, releasing,
  drain_loading, draining, assigning, returning, waking, close_popping, cancel_locking,
  cancel_removing, cancel_waiting, Task, Local,
}
use xutex.Semaphore.System.{System}

abbrev pub then_request : Then → Option ℕ
then_request (queued n) = some n
then_request (awaits n) = some n
then_request _ = none

-- What a caller whose node may be linked has asked for.
abbrev pub request : Pc → Option ℕ
request (unlocking k) = then_request k
request (unpublishing k) = then_request k
request (parked n) = some n
request (cancel_locking n) = some n
request (cancel_removing n) = some n
request (cancel_waiting n) = some n
request _ = none

abbrev pub then_owned : Then → ℕ
then_owned (acquired n) = n
then_owned (gives g) = g
then_owned _ = 0

-- The permits that are in a caller's hands.
abbrev pub owned : Pc → ℕ
owned (unlocking k) = then_owned k
owned (unpublishing k) = then_owned k
owned (holding n) = n
owned (releasing n) = n
owned (assigning a) = a
owned (returning a c) = a
owned _ = 0

-- With those that were assigned to its node.
abbrev pub weight : Task → ℕ
weight t = elim (request t.pc) [ none ↦ owned t.pc | some n ↦ n - t.aux ]

abbrev pub lock_count : Pc → ℕ
lock_count (flagging n) = 1
lock_count (deciding n c) = 1
lock_count (unlocking k) = 1
lock_count (unpublishing k) = 1
lock_count drain_loading = 1
lock_count (draining c) = 1
lock_count (assigning a) = 1
lock_count (returning a c) = 1
lock_count close_popping = 1
lock_count (cancel_removing n) = 1
lock_count _ = 0

abbrev pub locks : Task → ℕ
locks t = lock_count t.pc

abbrev pub then_chain : Then → List ℕ
then_chain (wakes c v) = c
then_chain _ = []

-- The nodes that a caller has popped and not yet signaled.
abbrev pub chain : Pc → List ℕ
chain (unlocking k) = then_chain k
chain (unpublishing k) = then_chain k
chain (returning a c) = c
chain (waking c v) = c
chain _ = []

abbrev pub then_value : Then → Signal
then_value (wakes c v) = v
then_value _ = returned

-- The value that they will get.
abbrev pub chain_value : Pc → Signal
chain_value (unlocking k) = then_value k
chain_value (unpublishing k) = then_value k
chain_value (returning a c) = signaled
chain_value (waking c v) = v
chain_value _ = returned

abbrev pub in_chain : ℕ → Task → ℕ
in_chain j t = count j (chain t.pc)

abbrev pub waits_signal : Signal → ℕ
waits_signal waiting = 1
waits_signal _ = 0

-- A caller that has found the queue empty and is about to store null.
abbrev pub clears : Pc → Bool
clears (unpublishing k) = true
clears _ = false

-- Whether the node of a caller is linked: it is queued, or popped and not yet signaled.
abbrev pub linked : Task → ℕ
linked t = elim (request t.pc) [ none ↦ 0 | some n ↦ waits_signal t.value ]

pub linked-le : (t : Task) → linked t ≤ 1
linked-le t = ground arith

abbrev pub Prepared : ℕ → Task → Type 0
Prepared n t = (t.aux ≡ n) × (t.value ≡ waiting)

abbrev pub Assigned : Option ℕ → Task → Type 0
Assigned none t = Unit {0}
Assigned (some n) t = (t.aux ≤ n) × (t.value ≡ signaled → t.aux ≡ 0)

-- What a caller knows of its own node, and of the value that it is about to give to others.
abbrev pub Sound : Pc → Task → Type 0
Sound (locking n) t = Prepared n t
Sound (flagging n) t = Prepared n t
Sound (deciding n c) t = Prepared n t
Sound p t = Assigned (request p) t × (waits_signal (chain_value p) ≡ 0)

pub record Inv (n : ℕ) (s : System) : Type 0 where
  -- No permit is lost and none is made up.
  pub permits : s.core.pool.permits + total weight n s.task ≡ s.supply
  -- At most one caller holds the tag-lock, and only if the pointer says so.
  pub lock : total locks n s.task ≡ held_count s.core.tag
  -- A caller that has yet to be signaled is linked once, anyone else is not.
  pub places : (j : ℕ) → count j s.core.queue + total (in_chain j) n s.task ≡ linked (s.task j)
  pub sound : (j : ℕ) → Sound (s.task j).pc (s.task j)
  -- Whoever will be told of success lacks no permit.
  pub served :
      (i j : ℕ)
      → i < n
      → chain_value (s.task i).pc ≡ signaled
      → has j (chain (s.task i).pc) ≡ true
      → (s.task j).aux ≡ 0
  pub unpublished : s.core.tag ≡ null → s.core.queue ≡ []
  pub cleared : (i : ℕ) → i < n → clears (s.task i).pc ≡ true → s.core.queue ≡ []
  pub among : (j : ℕ) → 0 < linked (s.task j) → j < n
  pub bounded : s.supply ≤ max_permits

-- What a step of caller `i` may rely on.
pub record Before (i : ℕ) (l : Local) : Type 0 where
  pub permits : l.core.pool.permits + weight l.task ≤ l.supply
  pub lock : locks l.task ≤ held_count l.core.tag
  pub places : count i l.core.queue + in_chain i l.task ≤ linked l.task
  pub sound : Sound l.task.pc l.task
  pub unpublished : l.core.tag ≡ null → l.core.queue ≡ []
  pub cleared : clears l.task.pc ≡ true → l.core.queue ≡ []
  pub bounded : l.supply ≤ max_permits

-- What it does to the counts, if it touches no node but its own.
pub record Moved (i : ℕ) (l l' : Local) : Type 0 where
  pub permits :
      l'.core.pool.permits + weight l'.task + l.supply
      ≡ l.core.pool.permits + weight l.task + l'.supply
  pub lock : locks l'.task + held_count l.core.tag ≡ locks l.task + held_count l'.core.tag
  pub places :
      (j : ℕ)
      → count j l'.core.queue + in_chain j l'.task + (if j == i then linked l.task else 0)
        ≡ count j l.core.queue + in_chain j l.task + (if j == i then linked l'.task else 0)
  pub sound : Sound l'.task.pc l'.task
  pub served :
      chain_value l'.task.pc ≡ signaled
      → (chain l'.task.pc ≡ chain l.task.pc) × (chain_value l.task.pc ≡ signaled)
  pub aux : (l'.task.aux ≡ l.task.aux) ⊎ (linked l.task ≡ 0)
  pub unpublished : l'.core.tag ≡ null → l'.core.queue ≡ []
  pub cleared : clears l'.task.pc ≡ true → l'.core.queue ≡ []
  pub queue : (l'.core.queue ≡ l.core.queue) ⊎ ((l'.core.queue ≡ []) ⊎ (locks l.task ≡ 1))
  pub bounded : l'.supply ≤ max_permits
