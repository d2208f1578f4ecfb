-- ===== src/Barrier/Contract.antt =====
-- src/barrier.rs: the use that the barrier makes of the lock of its queue.
use xutex.Prelude.{ℕ, ◌<◌, ◌≤◌, ◌≡◌, refl, sym, subst, Bool, List, [], ◌∷◌, arith}
use xutex.WaitQueue.Lock.{LockMove, stays}
use xutex.Barrier.Steps.{
  new_barrier, BarrierCore, BarrierPlace, idle, parked, telling, BarrierView, BarrierCall, arrives,
  drops_wait, arrive_step, lock_barrier, pop_round, park_or_pass, unlock_barrier, await_release,
  withdraw, leave_barrier, barrier_alone, begin_barrier, release_node, barrier_from, BarrierEvent,
  barrier_calls, barrier_runs, barrier_step, barrier_view, BarrierSystem, BarrierActors,
}
use xutex.Barrier.Invariant.{Before, Inv}
use xutex.Barrier.Kept.{view-Before}
use xutex.Barrier.Reach.{new_barrier-Inv, barrier_steps-Inv}
use xutex.Barrier.Safety.{barrier_reach}

-- The step from one core to the next, whatever the new queue is, is one that the contract allows.
abbrev pub BarrierMove : BarrierCore → BarrierCore → Type 0
BarrierMove m m' = LockMove (λ q. m'.queue) m.tag m.queue m'.tag m'.queue

same-BarrierMove : (m m' : BarrierCore) → m' ≡ m → BarrierMove m m'
same-BarrierMove m m' e = subst (λ x. BarrierMove m x) (sym e) (stays (λ q. m.queue) m.tag m.queue)

module _ (w : Bool) (size : ℕ) (aux : ℕ → ℕ) (i : ℕ) (v : BarrierView) (b : Before i size v) where
  barrier_alone-BarrierMove :
      (p : BarrierPlace)
      → v.caller.place ≡ p
      → BarrierMove v.core (barrier_alone w size aux i p v).core
  unfolding barrier_alone arrive_step lock_barrier pop_round park_or_pass unlock_barrier
      await_release withdraw leave_barrier
  barrier_alone-BarrierMove _ e = ground (arith, b.lock, b.unpublished)

  begin_barrier-BarrierMove :
      (c : BarrierCall) (p : BarrierPlace) → BarrierMove v.core (begin_barrier c p v).core
  unfolding begin_barrier
  begin_barrier-BarrierMove arrives idle = ground arith
  begin_barrier-BarrierMove drops_wait (parked g) = ground arith
  begin_barrier-BarrierMove _ _ = ground arith

barrier_from-BarrierMove :
    {n size : ℕ} {s : BarrierSystem}
    → Inv n size s
    → (w : Bool) (i : ℕ) → i < n
    → (p : BarrierPlace) → (s.caller i).place ≡ p
    → BarrierMove s.core (barrier_from w size i p s).core
unfolding barrier_from release_node
barrier_from-BarrierMove {s} inv w i lt (telling (j ∷ c)) e = same-BarrierMove s.core s.core refl
barrier_from-BarrierMove {n} {size} {s} inv w i lt (telling []) e =
    barrier_alone-BarrierMove w size (λ j. (s.caller j).aux) i (barrier_view i s)
      (view-Before inv i lt) (telling []) e
barrier_from-BarrierMove {n} {size} {s} inv w i lt p e =
    barrier_alone-BarrierMove w size (λ j. (s.caller j).aux) i (barrier_view i s)
      (view-Before inv i lt) p e

-- For a barrier of at least one caller that no more callers than its size use, in every state that they
-- reach, the next event does to the lock of the queue and to the nodes in it only what the contract of
-- the lock allows.
pub barrier-BarrierMove :
    (n size : ℕ) (es : List BarrierEvent) (e : BarrierEvent)
    → 0 < size
    → n ≤ size
    → BarrierActors n es
    → BarrierActors n (e ∷ [])
    → BarrierMove (barrier_reach size es).core (barrier_step size e (barrier_reach size es)).core
unfolding barrier_step
barrier-BarrierMove n size es (barrier_calls i c) some_caller enough a next =
    let s = barrier_reach size es in
    let inv = barrier_steps-Inv es new_barrier (new_barrier-Inv n size some_caller) enough a in
    begin_barrier-BarrierMove Bool.true size (λ j. (s.caller j).aux) i (barrier_view i s)
      (view-Before inv i next.0) c (s.caller i).place
barrier-BarrierMove n size es (barrier_runs w i) some_caller enough a next =
    let inv = barrier_steps-Inv es new_barrier (new_barrier-Inv n size some_caller) enough a in
    barrier_from-BarrierMove inv w i next.0 _ refl
