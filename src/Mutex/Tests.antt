-- ===== src/Mutex/Tests.antt =====
-- src/lib.rs: a run in which the second of two callers waits for the guard of the first.
use xutex.Prelude.{
  ℕ, zero, suc, ◌≡◌, ◌<◌, false, refl, inl, inr, List, [], ◌∷◌, ◌++◌, arith, has, count,
}
use xutex.Mutex.Steps.{
  parked, holding, popping, new_mutex, try_lock, next_round, start_queue, tag_queue,
  push_and_publish, drop_guard, retag, act_alone, begin_call, locks, drops_guard, act_from, Action,
  calls, takes_step, act, acts, Actors,
}
use xutex.Mutex.Invariant.{owns, waits, in_hand}
use xutex.Mutex.Release.{releases}
use xutex.Mutex.Safety.{Still, mutex-excludes, mutex-unlinks, mutex-wakes, mutex-hands-over}

-- `n` steps of the caller `i`.
abbrev goes : ℕ → ℕ → List Action
goes zero i = []
goes (suc n) i = takes_step false i ∷ goes n i

-- Caller 0 has the guard, caller 1 is queued.
abbrev contended : List Action
contended = calls 0 locks ∷ takes_step false 0 ∷ calls 1 locks ∷ goes 3 1

-- Caller 0 unlocks, and has the queue to itself.
abbrev releasing : List Action
releasing = contended ++ calls 0 drops_guard ∷ goes 2 0

contended-Actors : Actors 2 contended
contended-Actors = ground arith

releasing-Actors : Actors 2 releasing
releasing-Actors = ground arith

contended_holds : ((acts contended new_mutex).caller 0).place ≡ holding
unfolding acts act begin_call act_from act_alone try_lock next_round start_queue push_and_publish
contended_holds = refl

contended_parks : ((acts contended new_mutex).caller 1).place ≡ parked
unfolding acts act begin_call act_from act_alone try_lock next_round start_queue push_and_publish
contended_parks = refl

contended_unsignaled : ((acts contended new_mutex).caller 1).handed ≡ false
unfolding acts act begin_call act_from act_alone try_lock next_round start_queue push_and_publish
contended_unsignaled = refl

releasing_pops : ((acts releasing new_mutex).caller 0).place ≡ popping
unfolding acts act begin_call act_from act_alone try_lock next_round start_queue push_and_publish
    drop_guard retag tag_queue
releasing_pops = refl

releasing_queue : (acts releasing new_mutex).queue ≡ 1 ∷ []
unfolding acts act begin_call act_from act_alone try_lock next_round start_queue push_and_publish
    drop_guard retag tag_queue
releasing_queue = refl

contended-owns : owns ((acts contended new_mutex).caller 0) ≡ 1
contended-owns = rw (owns, contended_holds) refl

contended-Still : (i : ℕ) → i < 2 → Still ((acts contended new_mutex).caller i)
contended-Still zero lt = inr (inl contended_holds)
contended-Still (suc zero) lt = inr (inr (contended_parks, contended_unsignaled))
contended-Still (suc (suc i)) lt = absurd (omega arith)

releasing_done : waits ((acts releasing new_mutex).caller 0).place ≡ false
releasing_done = rw releasing_pops refl

mutex-excludes_example : ◌≡◌ {A = ℕ} 0 0
mutex-excludes_example =
    mutex-excludes 2 contended contended-Actors 0 0 (omega arith) (omega arith) contended-owns
      contended-owns

mutex-unlinks_example :
    (has 0 (acts releasing new_mutex).queue ≡ false)
    × (in_hand 0 ((acts releasing new_mutex).caller 1) ≡ 0)
mutex-unlinks_example = mutex-unlinks 2 releasing releasing-Actors 0 1 (omega arith) releasing_done

mutex-wakes_example :
    (count 1 (acts contended new_mutex).queue ≡ 1)
    × ((i : ℕ) × (k : ℕ) × (js : List ℕ) × (i < 2)
        × (((acts contended new_mutex).caller i).place ≡ holding)
        × ((acts contended new_mutex).queue ≡ k ∷ js)
        × (((acts (releases i k) (acts contended new_mutex)).caller k).place ≡ holding)
        × ((acts (releases i k) (acts contended new_mutex)).queue ≡ js))
mutex-wakes_example =
    mutex-wakes 2 contended contended-Actors contended-Still 1 contended_parks contended_unsignaled

-- The steps in which caller 0 pops the node of caller 1 and signals it.
abbrev hands : List Action
hands = takes_step false 0 ∷ takes_step false 0 ∷ []

mutex-hands-over_example :
    (owns ((acts hands (acts releasing new_mutex)).caller 0) ≡ 0)
    × ((acts hands (acts releasing new_mutex)).queue ≡ [])
mutex-hands-over_example =
    mutex-hands-over 2 releasing releasing-Actors false 0 1 0 [] (omega arith) (omega arith)
      releasing_pops releasing_queue
