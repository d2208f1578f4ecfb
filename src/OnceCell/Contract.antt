-- ===== src/OnceCell/Contract.antt =====
-- src/once_cell.rs: the use that the cell makes of the lock of its queue.
use xutex.Prelude.{Option, ℕ, ◌<◌, ◌≡◌, refl, sym, subst, Bool, List, [], ◌∷◌, arith}
use xutex.WaitQueue.Lock.{LockMove, stays}
use xutex.OnceCell.State.{Cell, OncePlace, parked, idle, initializing, telling, OnceView}
use xutex.OnceCell.Steps.{
  OnceActors, new_once, check_ready, begin_set, decide, begin_init, write_value, publish,
  after_complete, lock_waiters, pop_all, revert, pop_one, park, continue_at, unlock_waiters,
  finish_telling, look, read_value, leave, leave_signaled, once_alone, OnceCall, gets,
  gets_or_inits, sets, init_returns, init_fails, init_panics, drops_future, begin_once, once_from,
  OnceEvent, once_calls, once_runs, once_step, tell, once_view, OnceSystem,
}
use xutex.OnceCell.Invariant.{Before, Inv}
use xutex.OnceCell.Reach.{view-Before, new_once-Inv, once_steps-Inv}
use xutex.OnceCell.Safety.{once_reach}

-- The step from one cell to the next, whatever the new queue is, is one that the contract allows.
abbrev pub CellMove : Cell → Cell → Type 0
CellMove m m' = LockMove (λ q. m'.queue) m.tag m.queue m'.tag m'.queue

same-CellMove : (m m' : Cell) → m' ≡ m → CellMove m m'
same-CellMove m m' e = subst (λ x. CellMove m x) (sym e) (stays (λ q. m.queue) m.tag m.queue)

module _ (w : Bool) (i : ℕ) (v : OnceView) (b : Before i v) where
  once_alone-CellMove :
      (p : OncePlace) → v.caller.place ≡ p → CellMove v.cell (once_alone w i p v).cell
  unfolding once_alone check_ready begin_set decide begin_init write_value publish after_complete
      lock_waiters pop_all revert pop_one park continue_at unlock_waiters finish_telling look
      read_value leave leave_signaled
  once_alone-CellMove _ e = ground (arith, b.lock, b.unpublished)

  begin_once-CellMove : (c : OnceCall) (p : OncePlace) → CellMove v.cell (begin_once c p v).cell
  unfolding begin_once
  begin_once-CellMove gets idle = ground arith
  begin_once-CellMove gets_or_inits idle = ground arith
  begin_once-CellMove (sets x) idle = ground arith
  begin_once-CellMove (init_returns x) initializing = ground arith
  begin_once-CellMove init_fails initializing = ground arith
  begin_once-CellMove init_panics initializing = ground arith
  begin_once-CellMove drops_future parked = ground arith
  begin_once-CellMove _ _ = ground arith

once_from-CellMove :
    {n : ℕ} {s : OnceSystem}
    → Inv n s
    → (w : Bool) (i : ℕ) → i < n
    → (p : OncePlace) → (s.caller i).place ≡ p
    → CellMove s.cell (once_from w i p s).cell
unfolding once_from tell
once_from-CellMove {s} inv w i lt (telling (j ∷ c) k) e = same-CellMove s.cell s.cell refl
once_from-CellMove {s} inv w i lt (telling [] k) e =
    once_alone-CellMove w i (once_view i s) (view-Before inv i lt) (telling [] k) e
once_from-CellMove {s} inv w i lt p e =
    once_alone-CellMove w i (once_view i s) (view-Before inv i lt) p e

-- In every state that `n` callers reach from a new cell, however their steps interleave, the next event
-- does to the lock of the queue and to the nodes in it only what the contract of the lock allows.
pub once-CellMove :
    (n : ℕ) (value : Option ℕ) (es : List OnceEvent) (e : OnceEvent)
    → OnceActors n es
    → OnceActors n (e ∷ [])
    → CellMove (once_reach value es).cell (once_step e (once_reach value es)).cell
unfolding once_step
once-CellMove n value es (once_calls i c) a next =
    let s = once_reach value es in
    let inv = once_steps-Inv es (new_once value) (new_once-Inv n value) a in
    begin_once-CellMove Bool.true i (once_view i s) (view-Before inv i next.0) c (s.caller i).place
once-CellMove n value es (once_runs w i) a next =
    once_from-CellMove (once_steps-Inv es (new_once value) (new_once-Inv n value) a) w i next.0 _
      refl
