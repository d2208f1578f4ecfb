-- ===== src/Waker/Tests.antt =====
-- A slot of a thread, in which a future registers its waker while a signaler takes it.
use xutex.Prelude.{◌≤◌, ◌≡◌, ◌==◌, refl, total, List, [], ◌∷◌, arith}
use xutex.WaitQueue.Handshake.{sync_waker, async_waker}
use xutex.Waker.{
  store_async, slot_after, slot_answer, registers, takes, SlotEvent, slot_calls, slot_runs,
  slot_run, slot_begin, slot_step, slot_steps, SlotActors,
}
use xutex.Waker.Atomic.{Replays, slot_lock, slot_reach, slot-acts}

-- The signaler gets the lock first, and the future spins until it is free.
abbrev raced : List SlotEvent
raced =
    slot_calls 0 takes
    ∷ slot_calls 1 (registers 7)
    ∷ slot_runs 0
    ∷ slot_runs 1
    ∷ slot_runs 0
    ∷ slot_runs 1
    ∷ slot_runs 0
    ∷ slot_runs 0
    ∷ slot_runs 1
    ∷ slot_runs 1
    ∷ slot_runs 1
    ∷ []

raced-SlotActors : SlotActors 2 raced
raced-SlotActors = ground arith

raced_slot : (slot_reach (λ v w. v == w) sync_waker raced).slot ≡ async_waker 7
unfolding slot_steps slot_step slot_begin slot_run slot_after store_async slot_answer
raced_slot = refl

slot-acts_example :
    (total slot_lock 2 (slot_reach (λ v w. v == w) sync_waker raced).place ≤ 1)
    × Replays
        (λ v w. v == w)
        sync_waker
        (slot_reach (λ v w. v == w) sync_waker raced).log
        (slot_reach (λ v w. v == w) sync_waker raced).slot
slot-acts_example = slot-acts (λ v w. v == w) sync_waker 2 raced raced-SlotActors
