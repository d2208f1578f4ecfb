-- ===== src/Barrier/Tests.antt =====
-- src/barrier.rs: a round of a barrier for three callers, the sixth of the barrier; two callers of a
-- barrier for two; and four callers of a barrier for two, the third of whom is never released.
use xutex.Prelude.{
  ℕ, zero, suc, ◌<◌, ◌≡◌, ◌⊎◌, ◌+◌, ◌==◌, false, refl, inl, inr, List, [], ◌∷◌, ◌++◌, if◌then◌else◌,
  leb, arith, has, count, total,
}
use xutex.Barrier.{leader, wait, next_word, arrive_outcome}
use xutex.Barrier.Steps.{
  telling, idle, parked, withdrawing, unlocking, rests, round_after, same_rounds, next_state,
  arrive_step, lock_barrier, pop_round, park_or_pass, unlock_barrier, await_release, withdraw,
  leave_barrier, barrier_alone, arrives, drops_wait, begin_barrier, release_node, barrier_from,
  BarrierEvent, barrier_calls, barrier_runs, barrier_step, barrier_steps, BarrierActors,
}
use xutex.Barrier.Invariant.{waits, in_chain, leaders}
use xutex.Barrier.Safety.{
  barrier_reach, Rests, rests_parked, barrier-wakes, barrier-holds, barrier-unlinks,
}
use xutex.Barrier.Finish.{barrier_goes, Finished, barrier-finishes}
use xutex.Barrier.Encoding.{encode, decode, next_state-next_word}

-- Caller 0 waits.
abbrev waiting : List BarrierEvent
waiting = barrier_calls 0 arrives ∷ barrier_goes 5 0

-- Caller 1 has completed the round.
abbrev completing : List BarrierEvent
completing = waiting ++ barrier_calls 1 arrives ∷ barrier_goes 2 1

-- It has released caller 0.
abbrev freeing : List BarrierEvent
freeing = completing ++ barrier_goes 4 1

-- Caller 0 is about to withdraw.
abbrev giving_up : List BarrierEvent
giving_up = waiting ++ barrier_calls 0 drops_wait ∷ []

waiting-BarrierActors : BarrierActors 2 waiting
waiting-BarrierActors = ground arith

completing-BarrierActors : BarrierActors 2 completing
completing-BarrierActors = ground arith

freeing-BarrierActors : BarrierActors 2 freeing
freeing-BarrierActors = ground arith

giving_up-BarrierActors : BarrierActors 2 giving_up
giving_up-BarrierActors = ground arith

waiting_parks : ((barrier_reach 2 waiting).caller 0).place ≡ parked 0
unfolding barrier_steps barrier_step barrier_from barrier_alone begin_barrier arrive_step
    lock_barrier park_or_pass unlock_barrier pop_round release_node withdraw await_release
    leave_barrier
waiting_parks = refl

waiting_sleeps : ((barrier_reach 2 waiting).caller 0).released ≡ false
unfolding barrier_steps barrier_step barrier_from barrier_alone begin_barrier arrive_step
    lock_barrier park_or_pass unlock_barrier pop_round release_node withdraw await_release
    leave_barrier
waiting_sleeps = refl

waiting_idle : ((barrier_reach 2 waiting).caller 1).place ≡ idle
unfolding barrier_steps barrier_step barrier_from barrier_alone begin_barrier arrive_step
    lock_barrier park_or_pass unlock_barrier pop_round release_node withdraw await_release
    leave_barrier
waiting_idle = refl

waiting-Rests : (i : ℕ) → i < 2 → Rests ((barrier_reach 2 waiting).caller i)
waiting-Rests zero lt = inr (0, waiting_parks, waiting_sleeps)
waiting-Rests (suc zero) lt = inl waiting_idle
waiting-Rests (suc (suc i)) lt = absurd (omega arith)

completing_leads : leaders ((barrier_reach 2 completing).caller 1) ≡ 1
unfolding barrier_steps barrier_step barrier_from barrier_alone begin_barrier arrive_step
    lock_barrier park_or_pass unlock_barrier pop_round release_node withdraw await_release
    leave_barrier
completing_leads = refl

freeing_parks : ((barrier_reach 2 freeing).caller 0).place ≡ parked 0
unfolding barrier_steps barrier_step barrier_from barrier_alone begin_barrier arrive_step
    lock_barrier park_or_pass unlock_barrier pop_round release_node withdraw await_release
    leave_barrier
freeing_parks = refl

freeing_done : waits ((barrier_reach 2 freeing).caller 1).place ≡ false
unfolding barrier_steps barrier_step barrier_from barrier_alone begin_barrier arrive_step
    lock_barrier park_or_pass unlock_barrier pop_round release_node withdraw await_release
    leave_barrier
freeing_done = refl

giving_up_withdraws :
    ((barrier_reach 2 giving_up).caller 0).place
    ≡ withdrawing 0 (barrier_reach 2 giving_up).core.state
unfolding barrier_steps barrier_step barrier_from barrier_alone begin_barrier arrive_step
    lock_barrier park_or_pass unlock_barrier pop_round release_node withdraw await_release
    leave_barrier
giving_up_withdraws = refl

giving_up_round : (barrier_reach 2 giving_up).core.state.round ≡ 0
unfolding barrier_steps barrier_step barrier_from barrier_alone begin_barrier arrive_step
    lock_barrier park_or_pass unlock_barrier pop_round release_node withdraw await_release
    leave_barrier
giving_up_round = refl

barrier-wakes_example :
    (◌≡◌ {A = ℕ} 0 (barrier_reach 2 waiting).core.state.round)
    × (count 0 (barrier_reach 2 waiting).core.queue ≡ 1)
    × (total rests_parked 2 (barrier_reach 2 waiting).caller
        ≡ (barrier_reach 2 waiting).core.state.arrivals)
    × ((barrier_reach 2 waiting).core.state.arrivals < 2)
barrier-wakes_example =
    barrier-wakes 2 2 (omega arith) (omega arith) waiting waiting-BarrierActors waiting-Rests 0 0
      (omega arith) waiting_parks waiting_sleeps

barrier-holds_example :
    (((barrier_step 2 (barrier_runs false 0) (barrier_reach 2 freeing)).caller 0).place ≡ parked 0)
    ⊎ ((((barrier_step 2 (barrier_runs false 0) (barrier_reach 2 freeing)).caller 0).place
          ≡ unlocking (rests 0))
        ⊎ ((barrier_reach 2 freeing).core.state.round ≡ round_after 0))
barrier-holds_example =
    barrier-holds 2 2 (omega arith) (omega arith) freeing freeing-BarrierActors false 0 0
      (omega arith) (inl freeing_parks)

barrier-unlinks_example :
    (has 1 (barrier_reach 2 freeing).core.queue ≡ false)
    × (in_chain 1 ((barrier_reach 2 freeing).caller 0) ≡ 0)
barrier-unlinks_example =
    barrier-unlinks 2 2 (omega arith) (omega arith) freeing freeing-BarrierActors 1 0 (omega arith)
      freeing_done

next_state-next_word_example :
    (encode (next_state 3 (record { round = 3; arrivals = 2 }))
      ≡ next_word 3 (encode (record { round = 3; arrivals = 2 })))
    × (arrive_outcome
          (encode (record { round = 3; arrivals = 2 }))
          (next_word 3 (encode (record { round = 3; arrivals = 2 })))
        ≡ (if leb 3 (2 + 1) then leader 3 else wait 3))
    × (same_rounds (record { round = 3; arrivals = 2 }) (record { round = 3; arrivals = 1 }) ≡ (
        encode (record { round = 3; arrivals = 2 }) == encode (record { round = 3; arrivals = 1 })))
    × (decode (encode (record { round = 3; arrivals = 2 })) ≡ record { round = 3; arrivals = 2 })
    × (encode (decode 77) ≡ 77)
next_state-next_word_example =
    next_state-next_word 3 (record { round = 3; arrivals = 2 }) (record { round = 3; arrivals = 1 })
      77 (omega arith) (omega arith) (omega arith) (omega arith)

-- Caller 1 has popped caller 0.
abbrev popped : List BarrierEvent
popped = completing ++ barrier_goes 3 1

popped-BarrierActors : BarrierActors 2 popped
popped-BarrierActors = ground arith

popped_tells : ((barrier_reach 2 popped).caller 1).place ≡ telling (0 ∷ [])
unfolding barrier_steps barrier_step barrier_from barrier_alone begin_barrier arrive_step
    lock_barrier park_or_pass unlock_barrier pop_round release_node withdraw await_release
    leave_barrier
popped_tells = refl

barrier-finishes_example :
    Finished 1 (0 ∷ []) (barrier_steps 2 (barrier_goes 2 1) (barrier_reach 2 popped))
barrier-finishes_example =
    barrier-finishes 2 2 popped 1 (0 ∷ []) (omega arith) (omega arith) popped-BarrierActors
      (omega arith) popped_tells

-- Four callers of a barrier for two: caller 1 completes the first round and is overtaken, before it
-- pops caller 0, by callers 2 and 3, who make up the second round; all have run as far as they can.
abbrev overtaken : List BarrierEvent
overtaken =
    completing
    ++ barrier_calls 2 arrives ∷ barrier_goes 5 2
    ++ barrier_calls 3 arrives ∷ barrier_goes 6 3
    ++ barrier_goes 5 1
    ++ barrier_goes 1 0

-- The second round is over, and the caller that waited for it is left asleep in the queue.
overtaken_sleeps :
    (((barrier_reach 2 overtaken).caller 2).place ≡ parked 1)
    × (((barrier_reach 2 overtaken).caller 2).released ≡ false)
    × ((barrier_reach 2 overtaken).core.queue ≡ 2 ∷ [])
    × ((barrier_reach 2 overtaken).core.state.round ≡ 2)
    × (((barrier_reach 2 overtaken).caller 0).place ≡ idle)
    × (((barrier_reach 2 overtaken).caller 1).place ≡ idle)
    × (((barrier_reach 2 overtaken).caller 3).place ≡ idle)
unfolding barrier_steps barrier_step barrier_from barrier_alone begin_barrier arrive_step
    lock_barrier park_or_pass unlock_barrier pop_round release_node withdraw await_release
    leave_barrier
overtaken_sleeps = (refl, refl, refl, refl, refl, refl, refl)
