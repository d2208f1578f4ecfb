-- ===== src/Waker.antt =====
-- src/waker.rs, `DynamicWaker`: the slot of a waker with its spin lock. Wakers are numbers; which of them
-- wake the same task is for the runtime to say (`will_wake`).
pub mod Atomic
mod Tests
use xutex.Prelude.{ℕ, ◌<◌, Bool, true, false, List, [], ◌∷◌, ◌++◌, if◌then◌else◌, update}
use xutex.WaitQueue.Handshake.{WakerSlot, no_waker, sync_waker, async_waker}

pub data Registered : Type 0 where
  armed was_empty : Registered

-- `register`, or `take`.
pub data SlotCall : Type 0 where
  registers : (waker : ℕ) → SlotCall
  takes : SlotCall

-- What a call returns.
pub data SlotAnswer : Type 0 where
  registered : Registered → SlotAnswer
  taken : WakerSlot → SlotAnswer

abbrev pub outcome : WakerSlot → Registered
outcome no_waker = was_empty
outcome _ = armed

module _ (will_wake : ℕ → ℕ → Bool) where
  -- `store_async`: what the slot holds then.
  unfoldable pub store_async : WakerSlot → (waker : ℕ) → WakerSlot
  store_async (async_waker val) waker =
      if will_wake val waker then async_waker val else async_waker waker
  store_async _ waker = async_waker waker

  -- What a call leaves in the slot, and what it returns, from what it found there.
  unfoldable pub slot_after : SlotCall → WakerSlot → WakerSlot
  unfolding store_async
  slot_after (registers waker) slot = store_async slot waker
  slot_after takes slot = no_waker

unfoldable pub slot_answer : SlotCall → WakerSlot → SlotAnswer
slot_answer (registers waker) slot = registered (outcome slot)
slot_answer takes slot = taken slot

-- Where a caller stands.
pub data SlotPlace : Type 0 where
  resting : SlotPlace
  swapping : SlotCall → SlotPlace  -- before `updating.swap(true)`
  reading : SlotCall → SlotPlace  -- owns the lock, before it reads the slot
  writing : SlotCall → (seen : WakerSlot) → SlotPlace
  storing : SlotPlace  -- before `updating.store(false)`

-- `log` lists the calls with their answers, in the order of their writes: it is no part of the program.
pub record DynamicWaker : Type 0 where
  pub updating : Bool
  pub slot : WakerSlot
  pub place : ℕ → SlotPlace
  pub log : List (SlotCall × SlotAnswer)

pub data SlotEvent : Type 0 where
  slot_calls : (i : ℕ) → SlotCall → SlotEvent
  slot_runs : (i : ℕ) → SlotEvent

abbrev pub go : ℕ → SlotPlace → DynamicWaker → DynamicWaker
go i p s = record s { place = update s.place i p }

unfoldable pub slot_begin : ℕ → SlotCall → SlotPlace → DynamicWaker → DynamicWaker
slot_begin i c resting s = go i (swapping c) s
slot_begin i c _ s = s

module _ (will_wake : ℕ → ℕ → Bool) where
  -- One step of caller `i`.
  unfoldable pub slot_run : ℕ → SlotPlace → DynamicWaker → DynamicWaker
  slot_run i (swapping c) s =
      if s.updating then s else record (go i (reading c) s) { updating = true }
  slot_run i (reading c) s = go i (writing c s.slot) s
  slot_run i (writing c seen) s = record (go i storing s) {
    slot = slot_after will_wake c seen;
    log = s.log ++ (c, slot_answer c seen) ∷ [];
  }
  slot_run i storing s = record (go i resting s) { updating = false }
  slot_run i resting s = s

  unfoldable pub slot_step : SlotEvent → DynamicWaker → DynamicWaker
  slot_step (slot_calls i c) s = slot_begin i c (s.place i) s
  slot_step (slot_runs i) s = slot_run i (s.place i) s

  unfoldable pub slot_steps : List SlotEvent → DynamicWaker → DynamicWaker
  slot_steps [] s = s
  slot_steps (e ∷ es) s = slot_steps es (slot_step e s)

-- `new`, or `new_sync`.
abbrev pub new_waker : WakerSlot → DynamicWaker
new_waker slot = record { updating = false; slot = slot; place = λ i. resting; log = [] }

-- The events are those of the first `n` callers.
abbrev pub SlotActors : ℕ → List SlotEvent → Type 0
SlotActors n [] = Unit {0}
SlotActors n (slot_calls i c ∷ es) = (i < n) × SlotActors n es
SlotActors n (slot_runs i ∷ es) = (i < n) × SlotActors n es
