-- ===== src/Semaphore/Supply.antt =====
-- src/semaphore.rs: permits are made by `add_permits` alone.
use xutex.Prelude.{◌≡◌, refl, ℕ, ◌≤◌, Bool, [], ◌∷◌, arith}
use xutex.Semaphore.State.{
  Local, only, first, second, acquired, refused, queued, wakes, gives, drains, quits, awaits, Pc,
  idle, trying, locking, flagging, deciding, unlocking, unpublishing, parked, holding, releasing,
  drain_locking, drain_loading, draining, assigning, returning, waking, closing, close_locking,
  close_popping, forgetting, cancel_locking, cancel_removing, cancel_waiting, panicked,
}
use xutex.Semaphore.Steps.{
  refuse, try_acquire, lock_queue, resume, unlock, unpublish, enqueue_lock, enqueue_flag,
  enqueue_decide, release, drain_lock, drain_take, drain_return, close, close_lock, close_pop,
  forget_permits, await_signal, cancel_lock, cancel_remove, cancel_wait,
}
use xutex.Semaphore.System.{
  begin, drops_permit, split_permit, hand_back, System, advance, assign, signal, run_caller, local,
}

pub advance-supply : (w : Bool) (i : ℕ) (p : Pc) (l : Local) → (advance w i p l).supply ≤ l.supply
unfolding advance refuse try_acquire lock_queue resume unlock unpublish enqueue_lock enqueue_flag
    enqueue_decide release drain_lock drain_take drain_return close close_lock close_pop
    forget_permits await_signal cancel_lock cancel_remove cancel_wait
advance-supply w i (trying only n cur) l = ground arith
advance-supply w i (trying first n cur) l = ground arith
advance-supply w i (trying second n cur) l = ground arith
advance-supply w i (locking n) l = ground arith
advance-supply w i (flagging n) l = ground arith
advance-supply w i (deciding n cur) l = ground arith
advance-supply w i (unlocking (acquired n)) l = ground arith
advance-supply w i (unlocking refused) l = ground arith
advance-supply w i (unlocking (queued n)) l = ground arith
advance-supply w i (unlocking (wakes c v)) l = ground arith
advance-supply w i (unlocking (gives g)) l = ground arith
advance-supply w i (unlocking drains) l = ground arith
advance-supply w i (unlocking quits) l = ground arith
advance-supply w i (unlocking (awaits n)) l = ground arith
advance-supply w i (unpublishing (acquired n)) l = ground arith
advance-supply w i (unpublishing refused) l = ground arith
advance-supply w i (unpublishing (queued n)) l = ground arith
advance-supply w i (unpublishing (wakes c v)) l = ground arith
advance-supply w i (unpublishing (gives g)) l = ground arith
advance-supply w i (unpublishing drains) l = ground arith
advance-supply w i (unpublishing quits) l = ground arith
advance-supply w i (unpublishing (awaits n)) l = ground arith
advance-supply w i (parked n) l = ground arith
advance-supply w i (releasing n) l = ground arith
advance-supply w i drain_locking l = ground arith
advance-supply w i drain_loading l = ground arith
advance-supply w i (draining cur) l = ground arith
advance-supply w i (returning a c) l = ground arith
advance-supply w i (waking [] v) l = ground arith
advance-supply w i (waking (j ∷ c) v) l = ground arith
advance-supply w i closing l = ground arith
advance-supply w i close_locking l = ground arith
advance-supply w i close_popping l = ground arith
advance-supply w i (forgetting n cur) l = ground arith
advance-supply w i (cancel_locking n) l = ground arith
advance-supply w i (cancel_removing n) l = ground arith
advance-supply w i (cancel_waiting n) l = ground arith
advance-supply w i idle l = ground arith
advance-supply w i (holding n) l = ground arith
advance-supply w i (assigning a) l = ground arith
advance-supply w i panicked l = ground arith

pub run_caller-supply :
    (w : Bool) (i : ℕ) (p : Pc) (s : System) → (run_caller w i p s).supply ≤ s.supply
unfolding run_caller assign signal
run_caller-supply w i (assigning a) s = omega arith
run_caller-supply w i (waking (j ∷ c) v) s = omega arith
run_caller-supply w i p s = advance-supply w i p (local i s)

begin-supply : (p : Pc) (l : Local) → (begin drops_permit p l).supply ≤ l.supply
unfolding begin
begin-supply (holding n) l = omega arith
begin-supply _ l = omega arith

split_permit-supply :
    (i k j : ℕ) (p q : Pc) (s : System) → (split_permit i k j p q s).supply ≡ s.supply
unfolding split_permit
split_permit-supply i k j (holding n) idle s = ground arith
split_permit-supply i k j _ _ s = refl

pub hand_back-supply :
    (i n k j : ℕ) (p q : Pc) (s : System) → (hand_back i n k j p q s).supply ≤ s.supply
unfolding hand_back
hand_back-supply i n k j (holding m) idle s =
    let after = split_permit i k j (holding m) idle s in
    ground (
      arith,
      begin-supply (after.task j).pc (local j after),
      split_permit-supply i k j (holding m) idle s,
    )
hand_back-supply i n k j _ _ s = omega arith
