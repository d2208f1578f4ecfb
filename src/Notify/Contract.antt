-- ===== src/Notify/Contract.antt =====
-- src/notify.rs: the use that the notification makes of the lock of its queue.
use xutex.Prelude.{ℕ, ◌^◌, ◌<◌, ◌≡◌, refl, sym, subst, Bool, true, List, [], ◌∷◌, arith, length}
use xutex.WaitQueue.Lock.{LockMove, stays}
use xutex.Notify.State.{telling, NotifyCore}
use xutex.Notify.Steps.{
  NotifyPlace, NotifyView, consider, take_permit, admit, raise_flag, claim_permit, lock_nodes,
  onward_place, unlock_nodes, drop_nodes, notify_first, store_permit, renotify, restore_permit,
  pop_oldest, bump, pop_stale, await_told, leave_nodes, pass_on, notify_alone, NotifyCall,
  begin_notify, notify_from, notify_node, notify_view, NotifySystem, NotifyEvent, notify_calls,
  notify_runs, notify_step, new_notify, NotifyActors,
}
use xutex.Notify.Invariant.{Before, Inv}
use xutex.Notify.Kept.{view-Before}
use xutex.Notify.Safety.{notify_reach}
use xutex.Notify.Reach.{new_notify-Inv, notify_steps-Inv}

-- The step from one core to the next, whatever the new queue is, is one that the contract allows.
abbrev pub NotifyMove : NotifyCore → NotifyCore → Type 0
NotifyMove m m' = LockMove (λ q. m'.queue) m.tag m.queue m'.tag m'.queue

same-NotifyMove : (m m' : NotifyCore) → m' ≡ m → NotifyMove m m'
same-NotifyMove m m' e = subst (λ x. NotifyMove m x) (sym e) (stays (λ q. m.queue) m.tag m.queue)

module _ (w : Bool) (aux : ℕ → ℕ) (i : ℕ) (v : NotifyView) (b : Before i v) where
  notify_alone-NotifyMove :
      (p : NotifyPlace) → v.caller.place ≡ p → NotifyMove v.core (notify_alone w aux i p v).core
  unfolding notify_alone consider take_permit admit raise_flag claim_permit lock_nodes onward_place
      unlock_nodes drop_nodes notify_first store_permit renotify restore_permit pop_oldest bump
      pop_stale await_told leave_nodes pass_on
  notify_alone-NotifyMove _ e = ground (arith, b.lock, b.emptied, b.announced)

  begin_notify-NotifyMove :
      (c : NotifyCall) (p : NotifyPlace) → NotifyMove v.core (begin_notify c p v).core
  unfolding begin_notify
  begin_notify-NotifyMove _ _ = ground arith

notify_from-NotifyMove :
    {n : ℕ} {s : NotifySystem}
    → Inv n s
    → (w : Bool) (i : ℕ) → i < n
    → (p : NotifyPlace) → (s.caller i).place ≡ p
    → NotifyMove s.core (notify_from w i p s).core
unfolding notify_from notify_node
notify_from-NotifyMove {s} inv w i lt (telling (j ∷ c) t) e = same-NotifyMove s.core s.core refl
notify_from-NotifyMove {s} inv w i lt (telling [] t) e =
    notify_alone-NotifyMove w (λ j. (s.caller j).aux) i (notify_view i s) (view-Before inv i lt)
      (telling [] t) e
notify_from-NotifyMove {s} inv w i lt p e =
    notify_alone-NotifyMove w (λ j. (s.caller j).aux) i (notify_view i s) (view-Before inv i lt) p e

-- In every state that `n` callers reach by fewer than 2 ^ 61 events, the next event does to the lock of
-- the queue and to the nodes in it only what the contract of the lock allows.
pub notify-NotifyMove :
    (n : ℕ) (es : List NotifyEvent) (e : NotifyEvent)
    → length es < 2 ^ 61
    → NotifyActors n es
    → NotifyActors n (e ∷ [])
    → NotifyMove (notify_reach es).core (notify_step e (notify_reach es)).core
unfolding notify_step
notify-NotifyMove n es (notify_calls i c) few a next =
    let s = notify_reach es in
    let inv = notify_steps-Inv es new_notify (new_notify-Inv n) (omega (arith, few)) a in
    begin_notify-NotifyMove true (λ j. (s.caller j).aux) i (notify_view i s)
      (view-Before inv i next.0) c (s.caller i).place
notify-NotifyMove n es (notify_runs w i) few a next =
    let inv = notify_steps-Inv es new_notify (new_notify-Inv n) (omega (arith, few)) a in
    notify_from-NotifyMove inv w i next.0 _ refl
