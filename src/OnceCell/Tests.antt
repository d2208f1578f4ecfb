-- ===== src/OnceCell/Tests.antt =====
-- src/once_cell.rs: a run in which the second of two callers waits for the initializer of the first.
use xutex.Prelude.{
  ℕ, zero, suc, ◌<◌, ◌≡◌, ◌⊎◌, true, false, refl, inl, inr, none, some, List, [], ◌∷◌, ◌++◌, ◌==◌,
  if◌then◌else◌, arith, has, count, total,
}
use xutex.OnceCell.State.{
  empty, ready, running, asleep, parked, reading, initializing, setting, writing, idle, got,
  nothing, already_running, already_initialized, published_value,
}
use xutex.OnceCell.Steps.{
  decide, begin_init, write_value, publish, after_complete, lock_waiters, pop_all, park,
  continue_at, unlock_waiters, finish_telling, look, read_value, once_alone, OnceEvent, once_calls,
  once_runs, gets_or_inits, sets, init_returns, begin_once, tell, once_from, once_step, once_steps,
  OnceActors, take_value,
}
use xutex.OnceCell.Invariant.{waits, in_chain, role_count, is_running, roles}
use xutex.OnceCell.Failure.{fails_over}
use xutex.OnceCell.Success.{returns_over}
use xutex.OnceCell.Awake.{Quiet, once-wakes}
use xutex.OnceCell.Safety.{
  once_reach, once-excludes, once-reads, once-keeps, once-unlinks, once-sets, once-takes,
}

-- `n` steps of the caller `i`.
abbrev once_goes : ℕ → ℕ → List OnceEvent
once_goes zero i = []
once_goes (suc n) i = once_runs false i ∷ once_goes n i

-- Caller 0 runs its initializer, caller 1 waits for it.
abbrev started : List OnceEvent
started = once_calls 0 gets_or_inits ∷ once_goes 2 0 ++ once_calls 1 gets_or_inits ∷ once_goes 4 1

-- A third caller is about to set a value.
abbrev contested : List OnceEvent
contested = started ++ once_calls 2 (sets 9) ∷ []

-- Caller 0 has published its value, and is about to return it.
abbrev finished : List OnceEvent
finished = started ++ once_calls 0 (init_returns 7) ∷ once_goes 7 0

-- Caller 0 has returned its value, and caller 1 too.
abbrev settled : List OnceEvent
settled = finished ++ once_goes 1 0 ++ once_goes 3 1

settled-OnceActors : OnceActors 2 settled
settled-OnceActors = ground arith

settled_rests : (i : ℕ) → i < 2 → ((once_reach none settled).caller i).place ≡ idle
unfolding once_steps once_step once_from once_alone begin_once decide begin_init lock_waiters park
    unlock_waiters continue_at write_value publish pop_all tell finish_telling after_complete
    read_value look
settled_rests zero lt = refl
settled_rests (suc zero) lt = refl
settled_rests (suc (suc i)) lt = absurd (omega arith)

started-OnceActors : OnceActors 2 started
started-OnceActors = ground arith

contested-OnceActors : OnceActors 3 contested
contested-OnceActors = ground arith

finished-OnceActors : OnceActors 2 finished
finished-OnceActors = ground arith

finished-three : OnceActors 3 finished
finished-three = ground arith

started_initializes : ((once_reach none started).caller 0).place ≡ initializing
unfolding once_steps once_step once_from once_alone begin_once decide begin_init lock_waiters park
    unlock_waiters continue_at
started_initializes = refl

started_parks : ((once_reach none started).caller 1).place ≡ parked
unfolding once_steps once_step once_from once_alone begin_once decide begin_init lock_waiters park
    unlock_waiters continue_at
started_parks = refl

started_sleeps : ((once_reach none started).caller 1).wake ≡ asleep
unfolding once_steps once_step once_from once_alone begin_once decide begin_init lock_waiters park
    unlock_waiters continue_at
started_sleeps = refl

contested_sets : ((once_reach none contested).caller 2).place ≡ setting 9
unfolding once_steps once_step once_from once_alone begin_once decide begin_init lock_waiters park
    unlock_waiters continue_at
contested_sets = refl

contested_fresh : ((once_reach none contested).caller 2).answer ≡ nothing
unfolding once_steps once_step once_from once_alone begin_once decide begin_init lock_waiters park
    unlock_waiters continue_at
contested_fresh = refl

finished_reads : ((once_reach none finished).caller 0).place ≡ reading
unfolding once_steps once_step once_from once_alone begin_once decide begin_init lock_waiters park
    unlock_waiters continue_at write_value publish pop_all tell finish_telling after_complete
finished_reads = refl

finished_ready : (once_reach none finished).cell.stage ≡ ready
unfolding once_steps once_step once_from once_alone begin_once decide begin_init lock_waiters park
    unlock_waiters continue_at write_value publish pop_all tell finish_telling after_complete
finished_ready = refl

started_role : role_count ((once_reach none started).caller 0).place ≡ 1
started_role = rw started_initializes refl

finished_done : waits ((once_reach none finished).caller 0).place ≡ false
finished_done = rw finished_reads refl

started-Quiet : (i : ℕ) → i < 2 → Quiet ((once_reach none started).caller i)
started-Quiet zero lt = inr (inl started_initializes)
started-Quiet (suc zero) lt = inr (inr (started_parks, started_sleeps))
started-Quiet (suc (suc i)) lt = absurd (omega arith)

once-excludes_example : (◌≡◌ {A = ℕ} 0 0) × (is_running (once_reach none started).cell.stage ≡ 1)
once-excludes_example =
    once-excludes 2 none started started-OnceActors 0 0 (omega arith) (omega arith) started_role
      started_role

once-reads_example :
    (x : ℕ) × ((once_reach none finished).cell.stage ≡ ready)
    × ((once_reach none finished).cell.slot ≡ some x)
    × (((once_step (once_runs true 0) (once_reach none finished)).caller 0).answer ≡ got (some x))
once-reads_example = once-reads 2 none finished finished-OnceActors true 0 finished_reads

once-keeps_example :
    ((once_steps contested (once_reach none finished)).cell.stage ≡ ready)
    × ((once_steps contested (once_reach none finished)).cell.slot
        ≡ (once_reach none finished).cell.slot)
once-keeps_example =
    once-keeps 3 none finished finished-three contested contested-OnceActors finished_ready

once-wakes_example :
    let s = once_reach none started in
    (count 1 s.cell.queue ≡ 1)
    × ((i : ℕ) × (k : ℕ) × (js : List ℕ) × (i < 2)
        × ((s.caller i).place ≡ initializing)
        × (s.cell.queue ≡ k ∷ js)
        × (((once_steps (fails_over false i k) s).caller k).place ≡ initializing)
        × (((once_steps (returns_over false i 7 s.cell.queue) s).caller 1).wake ≡ published_value)
        × ((once_steps (returns_over false i 7 s.cell.queue) s).cell.slot ≡ some 7))
once-wakes_example =
    once-wakes 2 none started started-OnceActors started-Quiet false 7 1 started_parks
      started_sleeps

once-unlinks_example :
    (has 0 (once_reach none finished).cell.queue ≡ false)
    × (in_chain 0 ((once_reach none finished).caller 1) ≡ 0)
once-unlinks_example =
    once-unlinks 2 none finished finished-OnceActors 0 1 (omega arith) finished_done

once-sets_example :
    (((once_step (once_runs true 2) (once_reach none contested)).caller 2).answer ≡ (
      if total roles 3 (once_reach none contested).caller == 1
      then already_running
      else elim (once_reach none contested).cell.stage [
        | ready ↦ already_initialized
        | _ ↦ nothing
      ]))
    × (((once_step (once_runs true 2) (once_reach none contested)).caller 2).place ≡ (
        if total roles 3 (once_reach none contested).caller == 1
        then idle
        else elim (once_reach none contested).cell.stage [ ready ↦ idle | _ ↦ writing 9 ]))
    × ((once_step (once_runs true 2) (once_reach none contested)).cell ≡ (
        if total roles 3 (once_reach none contested).caller == 1
        then (once_reach none contested).cell
        else elim (once_reach none contested).cell.stage [
          | ready ↦ (once_reach none contested).cell
          | _ ↦ record (once_reach none contested).cell { stage = running }
        ]))
once-sets_example =
    once-sets 3 none contested contested-OnceActors true 2 9 contested_sets contested_fresh

once-takes_example :
    ((((once_reach none settled).cell.stage ≡ empty)
        × ((take_value (once_reach none settled).cell).0 ≡ none))
      ⊎ ((x : ℕ) × ((once_reach none settled).cell.stage ≡ ready)
          × ((once_reach none settled).cell.slot ≡ some x)
          × ((take_value (once_reach none settled).cell).0 ≡ some x)))
    × ((take_value (once_reach none settled).cell).1.stage ≡ empty)
    × ((take_value (once_reach none settled).cell).1.queue ≡ [])
    × ((take_value (take_value (once_reach none settled).cell).1).0 ≡ none)
once-takes_example = once-takes 2 none settled settled-OnceActors settled_rests
