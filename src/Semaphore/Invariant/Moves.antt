-- ===== src/Semaphore/Invariant/Moves.antt =====
-- src/semaphore.rs: the steps of a caller that touch no node but its own.
use xutex.Prelude.{ℕ, ◌≡◌, Bool, List, [], ◌∷◌, arith, count-append, count-erase, count-pos_of_has}
use xutex.Semaphore.State.{
  Attempt, only, first, second, Pool, Then, acquired, refused, queued, wakes, gives, drains, quits,
  awaits, Local, Pc, idle, trying, locking, flagging, deciding, unlocking, unpublishing, parked,
  holding, releasing, drain_locking, drain_loading, draining, assigning, returning, waking, closing,
  close_locking, close_popping, forgetting, cancel_locking, cancel_removing, cancel_waiting,
  panicked,
}
use xutex.Semaphore.Steps.{
  refuse, try_acquire, lock_queue, resume, unlock, unpublish, enqueue_lock, enqueue_flag,
  enqueue_decide, release, drain_lock, drain_take, drain_return, close, close_lock, close_pop,
  forget_permits, await_signal, drop_acquire, cancel_lock, cancel_remove, cancel_wait,
}
use xutex.Semaphore.System.{
  Room, advance, begin, Call, try_acquires, acquires, adds, forgets, closes, drops_permit,
  forgets_permit, drops_future,
}
use xutex.Semaphore.Invariant.Defs.{Before, Moved}

module _ (w : Bool) (i : ℕ) (l : Local) (b : Before i l) where
  try_acquire-Moved :
      (a : Attempt) (n : ℕ) (cur : Pool)
      → l.task.pc ≡ trying a n cur
      → Moved i l (try_acquire w a n cur l)
  unfolding try_acquire refuse
  try_acquire-Moved only n cur e = ground arith
  try_acquire-Moved first n cur e = ground arith
  try_acquire-Moved second n cur e = ground arith

  enqueue_lock-Moved : (n : ℕ) → l.task.pc ≡ locking n → Moved i l (enqueue_lock n l)
  unfolding enqueue_lock lock_queue
  enqueue_lock-Moved n e = ground arith

  enqueue_flag-Moved : (n : ℕ) → l.task.pc ≡ flagging n → Moved i l (enqueue_flag n l)
  unfolding enqueue_flag
  enqueue_flag-Moved n e = ground arith

  release-Moved : (n : ℕ) → l.task.pc ≡ releasing n → Moved i l (release n l)
  unfolding release
  release-Moved n e = ground arith

  drain_lock-Moved : l.task.pc ≡ drain_locking → Moved i l (drain_lock l)
  unfolding drain_lock lock_queue
  drain_lock-Moved e = ground arith

  drain_take-Moved : (cur : Pool) → l.task.pc ≡ draining cur → Moved i l (drain_take w cur l)
  unfolding drain_take
  drain_take-Moved cur e = ground arith

  drain_return-Moved :
      (a : ℕ) (c : List ℕ) → l.task.pc ≡ returning a c → Moved i l (drain_return a c l)
  unfolding drain_return
  drain_return-Moved a c e = ground arith

  close-Moved : l.task.pc ≡ closing → Moved i l (close l)
  unfolding close
  close-Moved e = ground arith

  close_lock-Moved : l.task.pc ≡ close_locking → Moved i l (close_lock l)
  unfolding close_lock lock_queue
  close_lock-Moved e = ground arith

  close_pop-Moved : l.task.pc ≡ close_popping → Moved i l (close_pop l)
  unfolding close_pop
  close_pop-Moved e = ground arith

  forget_permits-Moved :
      (n : ℕ) (cur : Pool) → l.task.pc ≡ forgetting n cur → Moved i l (forget_permits w n cur l)
  unfolding forget_permits
  forget_permits-Moved n cur e = ground arith

  await_signal-Moved : (n : ℕ) → l.task.pc ≡ parked n → Moved i l (await_signal n l)
  unfolding await_signal
  await_signal-Moved n e = ground arith

  cancel_lock-Moved : (n : ℕ) → l.task.pc ≡ cancel_locking n → Moved i l (cancel_lock n l)
  unfolding cancel_lock lock_queue
  cancel_lock-Moved n e = ground arith

  cancel_wait-Moved : (n : ℕ) → l.task.pc ≡ cancel_waiting n → Moved i l (cancel_wait n l)
  unfolding cancel_wait
  cancel_wait-Moved n e = ground arith

  unlock-Moved : (k : Then) → l.task.pc ≡ unlocking k → Moved i l (unlock k l)
  unfolding unlock resume
  unlock-Moved (acquired n) e = ground arith
  unlock-Moved refused e = ground arith
  unlock-Moved (queued n) e = ground arith
  unlock-Moved (wakes c v) e = ground arith
  unlock-Moved (gives g) e = ground arith
  unlock-Moved drains e = ground arith
  unlock-Moved quits e = ground arith
  unlock-Moved (awaits n) e = ground arith

  unpublish-Moved : (k : Then) → l.task.pc ≡ unpublishing k → Moved i l (unpublish k l)
  unfolding unpublish resume
  unpublish-Moved (acquired n) e = ground arith
  unpublish-Moved refused e = ground arith
  unpublish-Moved (queued n) e = ground arith
  unpublish-Moved (wakes c v) e = ground arith
  unpublish-Moved (gives g) e = ground arith
  unpublish-Moved drains e = ground arith
  unpublish-Moved quits e = ground arith
  unpublish-Moved (awaits n) e = ground arith

  enqueue_decide-Moved :
      (n : ℕ) (cur : Pool) → l.task.pc ≡ deciding n cur → Moved i l (enqueue_decide w i n cur l)
  unfolding enqueue_decide
  enqueue_decide-Moved n cur e = record {
    permits = ground arith;
    lock = ground arith;
    places = λ j. ground (arith, count-append j l.core.queue (i ∷ []));
    sound = ground arith;
    served = ground arith;
    aux = ground arith;
    unpublished = ground arith;
    cleared = ground arith;
    queue = ground arith;
    bounded = ground arith;
  }

  cancel_remove-Moved : (n : ℕ) → l.task.pc ≡ cancel_removing n → Moved i l (cancel_remove i n l)
  unfolding cancel_remove
  cancel_remove-Moved n e = record {
    permits = ground arith;
    lock = ground arith;
    places = λ j. ground (arith, count-erase i j l.core.queue, count-pos_of_has i l.core.queue);
    sound = ground arith;
    served = ground arith;
    aux = ground arith;
    unpublished = ground arith;
    cleared = ground arith;
    queue = ground arith;
    bounded = ground arith;
  }

  -- Every step but the loop of `drain` over the queue and `signal_node`.
  pub advance-Moved : (p : Pc) → l.task.pc ≡ p → Moved i l (advance w i p l)
  unfolding advance
  advance-Moved (trying a n cur) e = try_acquire-Moved a n cur e
  advance-Moved (locking n) e = enqueue_lock-Moved n e
  advance-Moved (flagging n) e = enqueue_flag-Moved n e
  advance-Moved (deciding n cur) e = enqueue_decide-Moved n cur e
  advance-Moved (unlocking k) e = unlock-Moved k e
  advance-Moved (unpublishing k) e = unpublish-Moved k e
  advance-Moved (parked n) e = await_signal-Moved n e
  advance-Moved (releasing n) e = release-Moved n e
  advance-Moved drain_locking e = drain_lock-Moved e
  advance-Moved drain_loading e = ground arith
  advance-Moved (draining cur) e = drain_take-Moved cur e
  advance-Moved (returning a c) e = drain_return-Moved a c e
  advance-Moved (waking [] v) e = ground arith
  advance-Moved (waking (j ∷ c) v) e = ground arith
  advance-Moved closing e = close-Moved e
  advance-Moved close_locking e = close_lock-Moved e
  advance-Moved close_popping e = close_pop-Moved e
  advance-Moved (forgetting n cur) e = forget_permits-Moved n cur e
  advance-Moved (cancel_locking n) e = cancel_lock-Moved n e
  advance-Moved (cancel_removing n) e = cancel_remove-Moved n e
  advance-Moved (cancel_waiting n) e = cancel_wait-Moved n e
  advance-Moved idle e = ground arith
  advance-Moved (holding n) e = ground arith
  advance-Moved (assigning a) e = ground arith
  advance-Moved panicked e = ground arith

  stay-Moved : Moved i l l
  stay-Moved = ground (arith, b.sound)

  pub begin-Moved : (c : Call) (p : Pc) → Room c l.supply → l.task.pc ≡ p → Moved i l (begin c p l)
  unfolding begin drop_acquire
  begin-Moved (try_acquires n) idle room e = ground arith
  begin-Moved (acquires n) idle room e = ground arith
  begin-Moved (adds n) idle room e = ground arith
  begin-Moved (forgets n) idle room e = ground arith
  begin-Moved closes idle room e = ground arith
  begin-Moved drops_permit (holding n) room e = ground arith
  begin-Moved forgets_permit (holding n) room e = ground arith
  begin-Moved drops_future (parked n) room e = ground arith
  begin-Moved _ _ room e = stay-Moved
