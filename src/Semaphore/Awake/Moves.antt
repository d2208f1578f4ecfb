-- ===== src/Semaphore/Awake/Moves.antt =====
-- src/semaphore.rs: a step that touches no node but the caller's own leaves no waiter asleep.
use xutex.Prelude.{ℕ, ◌≡◌, ◌≤◌, Bool, List, [], ◌∷◌, arith}
use xutex.Semaphore.State.{
  Attempt, only, first, second, Pool, Then, acquired, refused, queued, wakes, gives, drains, quits,
  awaits, Local, Pc, idle, trying, locking, flagging, deciding, unlocking, unpublishing, parked,
  holding, releasing, drain_locking, drain_loading, draining, assigning, returning, waking, closing,
  close_locking, close_popping, forgetting, cancel_locking, cancel_removing, cancel_waiting,
  panicked,
}
use xutex.Semaphore.Steps.{
  refuse, try_acquire, lock_queue, resume, unlock, unpublish, enqueue_lock, enqueue_flag,
  enqueue_decide, release, drain_lock, drain_take, drain_return, close, close_lock, close_pop,
  forget_permits, await_signal, drop_acquire, cancel_lock, cancel_remove, cancel_wait,
}
use xutex.Semaphore.System.{
  Room, advance, begin, Call, try_acquires, acquires, adds, forgets, closes, drops_permit,
  forgets_permit, drops_future,
}
use xutex.Semaphore.Invariant.Defs.{Before, lock_count, held_count}
use xutex.Semaphore.Awake.Defs.{Busy, Moves, Watch, Heads, Calm, Kept, drain_count}

-- The step from `l` to `l'`.
pub record Stirs (i : ℕ) (d : Busy) (h : ℕ) (l l' : Local) : Type 0 where
  pub calm :
      (d' : Busy) (h' : ℕ)
      → Moves d d' l.task.pc l'.task.pc
      → Heads i l l' h h'
      → Calm d' l'.core h'
  pub watch : (d' : Busy) → Moves d d' l.task.pc l'.task.pc → Watch d' l'.core l'.task.pc
  pub kept :
      (d' : Busy)
      → Moves d d' l.task.pc l'.task.pc
      → lock_count l.task.pc ≡ 0
      → held_count l.core.tag ≡ 1
      → Kept d l.core l'.core d'

module _ (w : Bool) (i : ℕ) (l : Local) (b : Before i l) (d : Busy) (h : ℕ) (calm : Calm d l.core h)
    (watch : Watch d l.core l.task.pc) (least : drain_count l.task.pc ≤ d.drain) where
  try_acquire-Stirs :
      (a : Attempt) (n : ℕ) (cur : Pool)
      → l.task.pc ≡ trying a n cur
      → Stirs i d h l (try_acquire w a n cur l)
  unfolding try_acquire refuse
  try_acquire-Stirs only n cur e =
      ground (arith, calm.flagged, calm.short, calm.open_queue, b.unpublished)
  try_acquire-Stirs first n cur e =
      ground (arith, calm.flagged, calm.short, calm.open_queue, b.unpublished)
  try_acquire-Stirs second n cur e =
      ground (arith, calm.flagged, calm.short, calm.open_queue, b.unpublished)

  enqueue_lock-Stirs : (n : ℕ) → l.task.pc ≡ locking n → Stirs i d h l (enqueue_lock n l)
  unfolding enqueue_lock lock_queue
  enqueue_lock-Stirs n e = ground (arith, calm.flagged, calm.short, calm.open_queue, b.unpublished)

  enqueue_flag-Stirs : (n : ℕ) → l.task.pc ≡ flagging n → Stirs i d h l (enqueue_flag n l)
  unfolding enqueue_flag
  enqueue_flag-Stirs n e = ground (arith, calm.flagged, calm.short, calm.open_queue, b.unpublished)

  release-Stirs : (n : ℕ) → l.task.pc ≡ releasing n → Stirs i d h l (release n l)
  unfolding release
  release-Stirs n e = record {
    calm = λ d' h' m hd.
        ground (arith, calm.flagged, calm.short, calm.open_queue, hd.same, b.permits, b.bounded);
    watch = λ d' m. ground (arith, calm.flagged);
    kept = λ d' m free taken. ground (arith, b.permits, b.bounded);
  }

  drain_lock-Stirs : l.task.pc ≡ drain_locking → Stirs i d h l (drain_lock l)
  unfolding drain_lock lock_queue
  drain_lock-Stirs e = ground (arith, calm.flagged, calm.short, calm.open_queue, b.unpublished)

  drain_take-Stirs : (cur : Pool) → l.task.pc ≡ draining cur → Stirs i d h l (drain_take w cur l)
  unfolding drain_take
  drain_take-Stirs cur e = ground (arith, calm.flagged, calm.short, calm.open_queue, b.unpublished)

  drain_return-Stirs :
      (a : ℕ) (c : List ℕ) → l.task.pc ≡ returning a c → Stirs i d h l (drain_return a c l)
  unfolding drain_return
  drain_return-Stirs a c e =
      ground (arith, calm.flagged, calm.short, calm.open_queue, b.unpublished)

  close-Stirs : l.task.pc ≡ closing → Stirs i d h l (close l)
  unfolding close
  close-Stirs e = ground (arith, calm.flagged, calm.short, calm.open_queue, b.unpublished)

  close_lock-Stirs : l.task.pc ≡ close_locking → Stirs i d h l (close_lock l)
  unfolding close_lock lock_queue
  close_lock-Stirs e = ground (arith, calm.flagged, calm.short, calm.open_queue, b.unpublished)

  close_pop-Stirs : l.task.pc ≡ close_popping → Stirs i d h l (close_pop l)
  unfolding close_pop
  close_pop-Stirs e = ground (arith, calm.flagged, calm.short, calm.open_queue, b.unpublished)

  forget_permits-Stirs :
      (n : ℕ) (cur : Pool) → l.task.pc ≡ forgetting n cur → Stirs i d h l (forget_permits w n cur l)
  unfolding forget_permits
  forget_permits-Stirs n cur e =
      ground (arith, calm.flagged, calm.short, calm.open_queue, b.unpublished)

  await_signal-Stirs : (n : ℕ) → l.task.pc ≡ parked n → Stirs i d h l (await_signal n l)
  unfolding await_signal
  await_signal-Stirs n e = ground (arith, calm.flagged, calm.short, calm.open_queue, b.unpublished)

  cancel_lock-Stirs : (n : ℕ) → l.task.pc ≡ cancel_locking n → Stirs i d h l (cancel_lock n l)
  unfolding cancel_lock lock_queue
  cancel_lock-Stirs n e = ground (arith, calm.flagged, calm.short, calm.open_queue, b.unpublished)

  cancel_wait-Stirs : (n : ℕ) → l.task.pc ≡ cancel_waiting n → Stirs i d h l (cancel_wait n l)
  unfolding cancel_wait
  cancel_wait-Stirs n e = ground (arith, calm.flagged, calm.short, calm.open_queue, b.unpublished)

  unlock-Stirs : (k : Then) → l.task.pc ≡ unlocking k → Stirs i d h l (unlock k l)
  unfolding unlock resume
  unlock-Stirs (acquired n) e =
      ground (arith, calm.flagged, calm.short, calm.open_queue, b.unpublished)
  unlock-Stirs refused e = ground (arith, calm.flagged, calm.short, calm.open_queue, b.unpublished)
  unlock-Stirs (queued n) e =
      ground (arith, calm.flagged, calm.short, calm.open_queue, b.unpublished)
  unlock-Stirs (wakes c v) e =
      ground (arith, calm.flagged, calm.short, calm.open_queue, b.unpublished)
  unlock-Stirs (gives g) e =
      ground (arith, calm.flagged, calm.short, calm.open_queue, b.unpublished)
  unlock-Stirs drains e = ground (arith, calm.flagged, calm.short, calm.open_queue, b.unpublished)
  unlock-Stirs quits e = ground (arith, calm.flagged, calm.short, calm.open_queue, b.unpublished)
  unlock-Stirs (awaits n) e =
      ground (arith, calm.flagged, calm.short, calm.open_queue, b.unpublished)

  unpublish-Stirs : (k : Then) → l.task.pc ≡ unpublishing k → Stirs i d h l (unpublish k l)
  unfolding unpublish resume
  unpublish-Stirs (acquired n) e =
      ground (arith, calm.flagged, calm.short, calm.open_queue, b.unpublished)
  unpublish-Stirs refused e =
      ground (arith, calm.flagged, calm.short, calm.open_queue, b.unpublished)
  unpublish-Stirs (queued n) e =
      ground (arith, calm.flagged, calm.short, calm.open_queue, b.unpublished)
  unpublish-Stirs (wakes c v) e =
      ground (arith, calm.flagged, calm.short, calm.open_queue, b.unpublished)
  unpublish-Stirs (gives g) e =
      ground (arith, calm.flagged, calm.short, calm.open_queue, b.unpublished)
  unpublish-Stirs drains e =
      ground (arith, calm.flagged, calm.short, calm.open_queue, b.unpublished)
  unpublish-Stirs quits e = ground (arith, calm.flagged, calm.short, calm.open_queue, b.unpublished)
  unpublish-Stirs (awaits n) e =
      ground (arith, calm.flagged, calm.short, calm.open_queue, b.unpublished)

  enqueue_decide-Stirs :
      (n : ℕ) (cur : Pool) → l.task.pc ≡ deciding n cur → Stirs i d h l (enqueue_decide w i n cur l)
  unfolding enqueue_decide
  enqueue_decide-Stirs n cur e = record {
    calm = λ d' h' m hd.
        ground
          (arith, calm.flagged, calm.short, calm.open_queue, hd.pushed, hd.first, watch, b.sound);
    watch = λ d' m. ground (arith, calm.flagged);
    kept = λ d' m free taken. ground (arith, b.unpublished);
  }

  cancel_remove-Stirs :
      (n : ℕ) → l.task.pc ≡ cancel_removing n → Stirs i d h l (cancel_remove i n l)
  unfolding cancel_remove
  cancel_remove-Stirs n e = record {
    calm = λ d' h' m hd.
        ground (arith, calm.flagged, calm.short, calm.open_queue, hd.same, hd.removed);
    watch = λ d' m. ground (arith, calm.flagged);
    kept = λ d' m free taken. ground (arith, b.unpublished);
  }

  -- Every step but the loop of `drain` over the queue and `signal_node`.
  pub advance-Stirs : (p : Pc) → l.task.pc ≡ p → Stirs i d h l (advance w i p l)
  unfolding advance
  advance-Stirs (trying a n cur) e = try_acquire-Stirs a n cur e
  advance-Stirs (locking n) e = enqueue_lock-Stirs n e
  advance-Stirs (flagging n) e = enqueue_flag-Stirs n e
  advance-Stirs (deciding n cur) e = enqueue_decide-Stirs n cur e
  advance-Stirs (unlocking k) e = unlock-Stirs k e
  advance-Stirs (unpublishing k) e = unpublish-Stirs k e
  advance-Stirs (parked n) e = await_signal-Stirs n e
  advance-Stirs (releasing n) e = release-Stirs n e
  advance-Stirs drain_locking e = drain_lock-Stirs e
  advance-Stirs drain_loading e =
      ground (arith, calm.flagged, calm.short, calm.open_queue, b.unpublished)
  advance-Stirs (draining cur) e = drain_take-Stirs cur e
  advance-Stirs (returning a c) e = drain_return-Stirs a c e
  advance-Stirs (waking [] v) e =
      ground (arith, calm.flagged, calm.short, calm.open_queue, b.unpublished)
  advance-Stirs (waking (j ∷ c) v) e =
      ground (arith, calm.flagged, calm.short, calm.open_queue, b.unpublished)
  advance-Stirs closing e = close-Stirs e
  advance-Stirs close_locking e = close_lock-Stirs e
  advance-Stirs close_popping e = close_pop-Stirs e
  advance-Stirs (forgetting n cur) e = forget_permits-Stirs n cur e
  advance-Stirs (cancel_locking n) e = cancel_lock-Stirs n e
  advance-Stirs (cancel_removing n) e = cancel_remove-Stirs n e
  advance-Stirs (cancel_waiting n) e = cancel_wait-Stirs n e
  advance-Stirs idle e = ground (arith, calm.flagged, calm.short, calm.open_queue, b.unpublished)
  advance-Stirs (holding n) e =
      ground (arith, calm.flagged, calm.short, calm.open_queue, b.unpublished)
  advance-Stirs (assigning a) e =
      ground (arith, calm.flagged, calm.short, calm.open_queue, b.unpublished)
  advance-Stirs panicked e =
      ground (arith, calm.flagged, calm.short, calm.open_queue, b.unpublished)

  stay-Stirs : Stirs i d h l l
  stay-Stirs = ground (arith, calm.flagged, calm.short, calm.open_queue, b.unpublished)

  pub begin-Stirs :
      (c : Call) (p : Pc) → Room c l.supply → l.task.pc ≡ p → Stirs i d h l (begin c p l)
  unfolding begin drop_acquire
  begin-Stirs (try_acquires n) idle room e =
      ground (arith, calm.flagged, calm.short, calm.open_queue, b.unpublished)
  begin-Stirs (acquires n) idle room e =
      ground (arith, calm.flagged, calm.short, calm.open_queue, b.unpublished)
  begin-Stirs (adds n) idle room e =
      ground (arith, calm.flagged, calm.short, calm.open_queue, b.unpublished)
  begin-Stirs (forgets n) idle room e =
      ground (arith, calm.flagged, calm.short, calm.open_queue, b.unpublished)
  begin-Stirs closes idle room e =
      ground (arith, calm.flagged, calm.short, calm.open_queue, b.unpublished)
  begin-Stirs drops_permit (holding n) room e =
      ground (arith, calm.flagged, calm.short, calm.open_queue, b.unpublished)
  begin-Stirs forgets_permit (holding n) room e =
      ground (arith, calm.flagged, calm.short, calm.open_queue, b.unpublished)
  begin-Stirs drops_future (parked n) room e =
      ground (arith, calm.flagged, calm.short, calm.open_queue, b.unpublished)
  begin-Stirs _ _ room e = stay-Stirs
