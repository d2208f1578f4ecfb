-- ===== src/OnceCell/Failure.antt =====
-- src/once_cell.rs: the end of a failed initializer, step by step, by a caller that nobody disturbs,
-- with the steps in which the owner of the queue's oldest node starts its own.
use xutex.Prelude.{ℕ, ◌≡◌, Bool, false, List, [], ◌∷◌, ◌==◌, arith, ==_refl}
use xutex.WaitQueue.Lock.{Tag, published, held}
use xutex.OnceCell.State.{
  Stage, empty, running, retry, tells, OncePlace, deciding, beginning, initializing, reverting,
  retry_locking, retry_popping, unlocking, telling, parked,
}
use xutex.OnceCell.Steps.{
  decide, begin_init, lock_waiters, revert, pop_one, continue_at, unlock_waiters, look, once_alone,
  init_fails, begin_once, OnceSystem, tell, once_from, OnceEvent, once_calls, once_runs, once_step,
  once_steps,
}

-- The initializer of caller `i` fails and `i` takes five steps, then caller `k` takes three.
abbrev pub fails_over : Bool → ℕ → ℕ → List OnceEvent
fails_over w i k =
    once_calls i init_fails
    ∷ once_runs w i
    ∷ once_runs w i
    ∷ once_runs w i
    ∷ once_runs w i
    ∷ once_runs w i
    ∷ once_runs w k
    ∷ once_runs w k
    ∷ once_runs w k
    ∷ []

-- Caller `i` is at a place and the cell is known.
abbrev pub Serving : ℕ → OncePlace → Stage → Tag → List ℕ → OnceSystem → Type 0
Serving i p stage tag q s =
    ((s.caller i).place ≡ p) × (s.cell.stage ≡ stage) × (s.cell.tag ≡ tag) × (s.cell.queue ≡ q)

-- Caller `k`, another one, waits.
abbrev pub Waits : ℕ → ℕ → OnceSystem → Type 0
Waits k i s = ((s.caller k).place ≡ parked) × ((k == i) ≡ false)

module _ (w : Bool) (i k : ℕ) (js : List ℕ) (s : OnceSystem) where
  begins_fail :
      Serving i initializing running published (k ∷ js) s
      → Waits k i s
      → Serving i reverting running published (k ∷ js) (once_step (once_calls i init_fails) s)
        × Waits k i (once_step (once_calls i init_fails) s)
  unfolding once_step begin_once
  begins_fail (at, stage, tag, q) (waiting, apart) = ground (arith, ==_refl i)

  reverts :
      Serving i reverting running published (k ∷ js) s
      → Waits k i s
      → Serving i retry_locking empty published (k ∷ js) (once_step (once_runs w i) s)
        × Waits k i (once_step (once_runs w i) s)
  unfolding once_step once_from once_alone revert
  reverts (at, stage, tag, q) (waiting, apart) = ground (arith, ==_refl i)

  locks_retry :
      Serving i retry_locking empty published (k ∷ js) s
      → Waits k i s
      → Serving i retry_popping empty held (k ∷ js) (once_step (once_runs w i) s)
        × Waits k i (once_step (once_runs w i) s)
  unfolding once_step once_from once_alone lock_waiters
  locks_retry (at, stage, tag, q) (waiting, apart) = ground (arith, ==_refl i)

  pops_retry :
      Serving i retry_popping empty held (k ∷ js) s
      → Waits k i s
      → Serving i (unlocking (tells (k ∷ []) retry)) empty held js (once_step (once_runs w i) s)
        × Waits k i (once_step (once_runs w i) s)
  unfolding once_step once_from once_alone pop_one
  pops_retry (at, stage, tag, q) (waiting, apart) = ground (arith, ==_refl i)

  unlocks_retry :
      Serving i (unlocking (tells (k ∷ []) retry)) empty held js s
      → Waits k i s
      → let next = once_step (once_runs w i) s in
        ((next.caller i).place ≡ telling (k ∷ []) retry)
        × (next.cell.stage ≡ empty)
        × Waits k i next
  unfolding once_step once_from once_alone unlock_waiters continue_at
  unlocks_retry (at, stage, tag, q) (waiting, apart) = ground (arith, ==_refl i)

  tells_retry :
      (s.caller i).place ≡ telling (k ∷ []) retry
      → s.cell.stage ≡ empty
      → Waits k i s
      → let next = once_step (once_runs w i) s in
        ((next.caller k).place ≡ parked)
        × ((next.caller k).wake ≡ retry)
        × (next.cell.stage ≡ empty)
  unfolding once_step once_from tell
  tells_retry at stage (waiting, apart) = rw (at, once_from, tell) (ground (arith, ==_refl k))

  retries :
      (s.caller k).place ≡ parked
      → (s.caller k).wake ≡ retry
      → s.cell.stage ≡ empty
      → let next = once_step (once_runs w k) s in
        ((next.caller k).place ≡ deciding) × (next.cell.stage ≡ empty)
  unfolding once_step once_from once_alone look
  retries at told stage = ground (arith, ==_refl k)

  decides_empty :
      (s.caller k).place ≡ deciding
      → s.cell.stage ≡ empty
      → let next = once_step (once_runs w k) s in
        ((next.caller k).place ≡ beginning) × (next.cell.stage ≡ empty)
  unfolding once_step once_from once_alone decide
  decides_empty at stage = ground (arith, ==_refl k)

  begins_empty :
      (s.caller k).place ≡ beginning
      → s.cell.stage ≡ empty
      → ((once_step (once_runs w k) s).caller k).place ≡ initializing
  unfolding once_step once_from once_alone begin_init
  begins_empty at stage = ground (arith, ==_refl k)

pub failure_serves :
    (w : Bool) (i k : ℕ) (js : List ℕ) (s : OnceSystem)
    → Serving i initializing running published (k ∷ js) s
    → Waits k i s
    → ((once_steps (fails_over w i k) s).caller k).place ≡ initializing
unfolding once_steps
failure_serves w i k js s h waits =
    let (h1, w1) = begins_fail w i k js _ h waits in
    let (h2, w2) = reverts w i k js _ h1 w1 in
    let (h3, w3) = locks_retry w i k js _ h2 w2 in
    let (h4, w4) = pops_retry w i k js _ h3 w3 in
    let (at, stage, w5) = unlocks_retry w i k js _ h4 w4 in
    let (waiting, told, stage6) = tells_retry w i k js _ at stage w5 in
    let (decides, stage7) = retries w i k js _ waiting told stage6 in
    let (begins, stage8) = decides_empty w i k js _ decides stage7 in
    begins_empty w i k js _ begins stage8
