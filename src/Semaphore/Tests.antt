-- ===== src/Semaphore/Tests.antt =====
-- src/semaphore.rs: a run in which the second of two callers waits for the permit of the first.
use xutex.Prelude.{
  ℕ, zero, suc, ◌+◌, ◌-◌, ◌*◌, ◌%◌, ◌^◌, ◌≤◌, ◌≡◌, ◌≢◌, true, false, refl, none, List, [], ◌∷◌,
  ◌++◌, arith, total, has, count, ◌<◌, inl, inr, ◌==◌, if◌then◌else◌,
}
use xutex.Semaphore.State.{
  Pool, same_pool, waiting, max_permits, signaled, parked, holding, releasing, panicked, Task,
  new_task,
}
use xutex.Semaphore.Steps.{
  refuse, try_acquire, lock_queue, resume, unlock, unpublish, enqueue_lock, enqueue_flag,
  enqueue_decide, fetch_add, release, drain_lock, drain_take, drain_return,
}
use xutex.Semaphore.System.{
  Event, call, run, step, steps, advance, begin, run_caller, serve, assign, signal, init, reach,
  AllAllowed, acquires, drops_permit,
}
use xutex.Semaphore.Invariant.Defs.{weight, held_count, lock_count, request, chain}
use xutex.Semaphore.Order.{Hands, serve-Hands}
use xutex.Semaphore.Awake.Defs.{need}
use xutex.Semaphore.Awake.Steps.{Rests, reached-sleeps}
use xutex.Semaphore.Safety.{
  reached-conserves, reached-excludes, reached-unlinks, reached-grants, reached-releases,
}
use xutex.Semaphore.Contract.{CoreMove, reached-CoreMove}
use xutex.Semaphore.Encoding.{pool_word, word_pool, word_pool-pool_word}

-- `n` steps of the caller `i`.
abbrev runs : ℕ → ℕ → List Event
runs zero i = []
runs (suc n) i = run false i ∷ runs n i

-- Caller 0 takes the only permit, caller 1 queues for one.
abbrev queued_up : List Event
queued_up = call 0 (acquires 1) ∷ run false 0 ∷ call 1 (acquires 1) ∷ runs 6 1

-- Caller 0 is about to release its permit.
abbrev dropped : List Event
dropped = queued_up ++ call 0 drops_permit ∷ []

-- It has assigned the permit to caller 1, and holds the queue's lock.
abbrev assigned : List Event
assigned = dropped ++ runs 5 0

-- Caller 1 has its signal.
abbrev told : List Event
told = dropped ++ runs 8 0

queued_up_run : (reach 1 queued_up).core.queue ≡ 1 ∷ []
unfolding steps step begin run_caller advance try_acquire refuse enqueue_lock lock_queue
    enqueue_flag enqueue_decide unlock resume
queued_up_run = refl

fits : 1 ≤ max_permits
fits = omega arith

queued_up-allowed : AllAllowed 2 queued_up (init 1)
queued_up-allowed = ground arith

dropped-allowed : AllAllowed 2 dropped (init 1)
dropped-allowed = ground arith

assigned-allowed : AllAllowed 2 assigned (init 1)
assigned-allowed = ground arith

told-allowed : AllAllowed 2 told (init 1)
told-allowed = ground arith

dropped_run : ((reach 1 dropped).task 0).pc ≡ releasing 1
unfolding steps step begin run_caller advance try_acquire refuse enqueue_lock lock_queue
    enqueue_flag enqueue_decide unlock resume
dropped_run = refl

assigned_run : lock_count ((reach 1 assigned).task 0).pc ≡ 1
unfolding steps step begin run_caller advance try_acquire refuse enqueue_lock lock_queue
    enqueue_flag enqueue_decide unlock resume release drain_lock drain_take drain_return serve
    assign signal unpublish
assigned_run = refl

told_pc : ((reach 1 told).task 1).pc ≡ parked 1
unfolding steps step begin run_caller advance try_acquire refuse enqueue_lock lock_queue
    enqueue_flag enqueue_decide unlock resume release drain_lock drain_take drain_return serve
    assign signal unpublish
told_pc = refl

told_value : ((reach 1 told).task 1).value ≡ signaled
unfolding steps step begin run_caller advance try_acquire refuse enqueue_lock lock_queue
    enqueue_flag enqueue_decide unlock resume release drain_lock drain_take drain_return serve
    assign signal unpublish
told_value = refl

told_idle : request ((reach 1 told).task 0).pc ≡ none
unfolding steps step begin run_caller advance try_acquire refuse enqueue_lock lock_queue
    enqueue_flag enqueue_decide unlock resume release drain_lock drain_take drain_return serve
    assign signal unpublish
told_idle = refl

reached-conserves_example :
    (reach 1 assigned).core.pool.permits + total weight 2 (reach 1 assigned).task
    ≡ (reach 1 assigned).supply
reached-conserves_example = reached-conserves 2 1 assigned fits assigned-allowed

reached-excludes_example : (◌≡◌ {A = ℕ} 0 0) × (held_count (reach 1 assigned).core.tag ≡ 1)
reached-excludes_example =
    reached-excludes 2 1 assigned fits assigned-allowed 0 0 (omega arith) (omega arith) assigned_run
      assigned_run

reached-unlinks_example :
    (has 0 (reach 1 told).core.queue ≡ false) × (has 0 (chain ((reach 1 told).task 1).pc) ≡ false)
reached-unlinks_example = reached-unlinks 2 1 told fits told-allowed 0 1 (omega arith) told_idle

reached-grants_example :
    (((reach 1 told).task 1).aux ≡ 0)
    × (((step (run false 1) (reach 1 told)).task 1).pc ≡ holding 1)
reached-grants_example = reached-grants 2 1 told fits told-allowed false 1 1 told_pc told_value

reached-releases_example :
    ((step (run false 0) (reach 1 dropped)).core.pool.permits
      ≡ (reach 1 dropped).core.pool.permits + 1)
    × (((step (run false 0) (reach 1 dropped)).task 0).pc ≢ panicked)
reached-releases_example =
    reached-releases 2 1 dropped fits dropped-allowed false 0 1 (omega arith) dropped_run

-- Three nodes need 2, 0 and 5 permits; there are 4.
abbrev needs : ℕ → Task
needs j = record new_task { aux = if j == 3 then 2 else if j == 4 then 0 else 5 }

serve-Hands_example : Hands 4 (3 ∷ 4 ∷ 5 ∷ []) needs (serve 4 (3 ∷ 4 ∷ 5 ∷ []) needs)
serve-Hands_example = serve-Hands 4 (3 ∷ 4 ∷ 5 ∷ []) needs (ground arith)

queued_up_pc : ((reach 1 queued_up).task 1).pc ≡ parked 1
unfolding steps step begin run_caller advance try_acquire refuse enqueue_lock lock_queue
    enqueue_flag enqueue_decide unlock resume
queued_up_pc = refl

queued_up_value : ((reach 1 queued_up).task 1).value ≡ waiting
unfolding steps step begin run_caller advance try_acquire refuse enqueue_lock lock_queue
    enqueue_flag enqueue_decide unlock resume
queued_up_value = refl

queued_up_holds : ((reach 1 queued_up).task 0).pc ≡ holding 1
unfolding steps step begin run_caller advance try_acquire refuse enqueue_lock lock_queue
    enqueue_flag enqueue_decide unlock resume
queued_up_holds = refl

queued_up-Rests : (i : ℕ) → i < 2 → Rests ((reach 1 queued_up).task i)
queued_up-Rests zero lt = inr (inl (1, queued_up_holds))
queued_up-Rests (suc zero) lt = inr (inr (1, queued_up_pc, queued_up_value))
queued_up-Rests (suc (suc i)) lt = absurd (omega arith)

reached-sleeps_example :
    (count 1 (reach 1 queued_up).core.queue ≡ 1)
    × ((reach 1 queued_up).core.pool.permits
        < need (reach 1 queued_up).core.queue (reach 1 queued_up).task)
    × ((reach 1 queued_up).core.pool.closed ≡ false)
reached-sleeps_example =
    reached-sleeps 2 1 queued_up fits queued_up-allowed queued_up-Rests 1 1 queued_up_pc
      queued_up_value

-- Caller 0 is about to give up the lock, with a chain and no queue.
reached-CoreMove_example :
    CoreMove (reach 1 assigned).core (step (run false 0) (reach 1 assigned)).core
reached-CoreMove_example =
    reached-CoreMove 2 1 assigned (run false 0) fits assigned-allowed (omega arith)

-- Five permits, and a queue.
abbrev five : Pool
five = record { permits = 5; has_queue = true; closed = false }

word_pool-pool_word_example :
    (word_pool (pool_word five) ≡ five)
    × (pool_word (fetch_add five 3) ≡ (pool_word five + (3 * 4) % 2 ^ 64) % 2 ^ 64)
    × (pool_word (record five { permits = 5 - 2 }) ≡ pool_word five - 2 * 4)
    × (same_pool five (record five { closed = true })
        ≡ (pool_word five == pool_word (record five { closed = true })))
word_pool-pool_word_example =
    word_pool-pool_word five (record five { closed = true }) 3 2 (omega arith)
