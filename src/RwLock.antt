-- ===== src/RwLock.antt =====
-- src/rwlock.rs: the reader-writer lock, whose readers take one permit of a semaphore and whose
-- writers take all of them.
pub mod Exclusion
pub mod Downgrade
mod Tests
use xutex.Prelude.{ℕ, ◌^◌, ◌-◌, ◌/◌, ◌<◌, Bool, List, [], ◌∷◌}
use xutex.Semaphore.System.{
  Call, try_acquires, acquires, drops_permit, drops_future, Event, call, run, hands_back, System,
  reach,
}

-- `MAX_READERS`: `u32::MAX >> 3`.
abbrev pub max_readers_limit : ℕ
max_readers_limit = (2 ^ 32 - 1) / 8

-- The public methods, the guards' drops and the drop of a request's future.
pub data RwCall : Type 0 where
  try_read try_write read write drops_guard drops_request : RwCall

-- What a call asks of the semaphore.
unfoldable pub permit_call : (max_readers : ℕ) → RwCall → Call
permit_call r try_read = try_acquires 1
permit_call r try_write = try_acquires r
permit_call r read = acquires 1
permit_call r write = acquires r
permit_call r drops_guard = drops_permit
permit_call r drops_request = drops_future

-- What happens next to the lock: caller `i` begins a call, or takes a step, or downgrades its write
-- guard to a read guard; the caller `j` then stands in for the release that this does.
pub data RwEvent : Type 0 where
  rw_call : (i : ℕ) → RwCall → RwEvent
  rw_run : (spurious : Bool) (i : ℕ) → RwEvent
  rw_downgrades : (i j : ℕ) → RwEvent

unfoldable pub permit_event : (max_readers : ℕ) → RwEvent → Event
permit_event r (rw_call i c) = call i (permit_call r c)
permit_event r (rw_run w i) = run w i
permit_event r (rw_downgrades i j) = hands_back i r (r - 1) j

unfoldable pub permit_events : (max_readers : ℕ) → List RwEvent → List Event
permit_events r [] = []
permit_events r (e ∷ es) = permit_event r e ∷ permit_events r es

-- `with_max_readers`, and what happens to the lock then.
abbrev pub rw_reach : (max_readers : ℕ) → List RwEvent → System
rw_reach r es = reach r (permit_events r es)

-- The events are those of the first `n` callers.
abbrev pub RwActors : ℕ → List RwEvent → Type 0
RwActors n [] = Unit {0}
RwActors n (rw_call i c ∷ es) = (i < n) × RwActors n es
RwActors n (rw_run w i ∷ es) = (i < n) × RwActors n es
RwActors n (rw_downgrades i j ∷ es) = (i < n) × (j < n) × RwActors n es
