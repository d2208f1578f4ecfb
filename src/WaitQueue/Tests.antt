-- ===== src/WaitQueue/Tests.antt =====
-- src/wait_queue.rs: a queue of three nodes whose first two are popped and signaled.
use xutex.WaitQueue.Handshake.{
  signaled, pending, finished, ended, register, recheck, owner_step, publish_value, signaler_step,
  HandshakeEvent, owner_runs, signaler_runs, is_polled, poll_again, handshake_step, handshake_steps,
  handshake_reach, wakeup_sent, resumes,
}
use xutex.WaitQueue.Awake.{handshake-wakes}
use xutex.Prelude.{
  ◌≡◌, refl, true, false, List, inr, none, some, [], ◌∷◌, ◌==◌, if◌then◌else◌, arith, ltb,
}
use xutex.Queue.{Store, Links}
use xutex.Queue.Linked.{IsQueue}
use xutex.WaitQueue.{PoppedChain, new_chain, seal, pop_while, signal_all}
use xutex.WaitQueue.Popped.{sealed, signal_all-pop_while}

abbrev waiting_links : Links
waiting_links p = if p == 2 then some 7 else if p == 7 then some 9 else none

abbrev waiters : Store
waiters = record { queue = record { first = 2; last = 9 }; next = waiting_links }

waiters-IsQueue : IsQueue waiters (2 ∷ 7 ∷ 9 ∷ [])
waiters-IsQueue = record {
  chain = (refl, (refl, (refl, refl)));
  last = refl;
  live = refl;
  distinct = ground arith;
}

signal_all-pop_while_example :
    (c : PoppedChain) × (t : Store) × (pop_while 4 (λ x. ltb x 8) new_chain waiters ≡ some (c, t))
    × (signal_all 4 (λ p. some 9) c.head (seal c t.next) ≡ some (2 ∷ 7 ∷ []))
    × IsQueue (sealed c t) (9 ∷ [])
signal_all-pop_while_example =
    signal_all-pop_while waiters (2 ∷ 7 ∷ 9 ∷ []) (λ x. ltb x 8) (λ p. some 9) 4 waiters-IsQueue
      (omega arith)

-- A future that is polled again with its waker, and then signaled.
abbrev polled_again : List HandshakeEvent
polled_again =
    is_polled 0
    ∷ owner_runs false
    ∷ owner_runs false
    ∷ signaler_runs
    ∷ signaler_runs
    ∷ signaler_runs
    ∷ []

polled_again_ended : (handshake_reach (some 0) polled_again).signaler ≡ ended
unfolding handshake_steps handshake_step owner_step register signaler_step publish_value poll_again
polled_again_ended = refl

polled_again_pends : (handshake_reach (some 0) polled_again).owner ≡ pending 0
unfolding handshake_steps handshake_step owner_step register signaler_step publish_value poll_again
polled_again_pends = refl

handshake-wakes_example :
    ((handshake_reach (some 0) polled_again).value ≡ signaled)
    × (wakeup_sent (handshake_reach (some 0) polled_again) ≡ true)
    × ((handshake_steps
          (resumes 3 (handshake_reach (some 0) polled_again).owner)
          (handshake_reach (some 0) polled_again)).owner
        ≡ finished)
handshake-wakes_example =
    handshake-wakes (some 0) polled_again 3 (refl, tt) polled_again_ended
      (inr (0, polled_again_pends))

-- A future whose waker 0 has been taken is polled twice with waker 1 before its value is published.
abbrev polled_twice : List HandshakeEvent
polled_twice =
    signaler_runs
    ∷ is_polled 1
    ∷ owner_runs false
    ∷ owner_runs false
    ∷ owner_runs false
    ∷ is_polled 1
    ∷ owner_runs false
    ∷ owner_runs false
    ∷ signaler_runs
    ∷ signaler_runs
    ∷ []

-- The signaler has ended, and waker 1 is not woken after the last poll.
polled_twice_sleeps :
    ((handshake_reach (some 0) polled_twice).signaler ≡ ended)
    × ((handshake_reach (some 0) polled_twice).owner ≡ pending 1)
    × ((handshake_reach (some 0) polled_twice).woken 1 ≡ false)
unfolding handshake_steps handshake_step owner_step register recheck signaler_step publish_value
    poll_again
polled_twice_sleeps = (refl, refl, refl)
