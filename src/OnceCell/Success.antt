-- ===== src/OnceCell/Success.antt =====
-- src/once_cell.rs: the end of an initializer that returns, step by step, by a caller that nobody
-- disturbs.
use xutex.Prelude.{
  ℕ, ◌≡◌, Bool, true, Bool-cases, inl, inr, refl, ◌∙◌, ap, some, List, [], ◌∷◌, ◌==◌, arith,
  ==_refl, has,
}
use xutex.WaitQueue.Lock.{published, held}
use xutex.OnceCell.State.{
  running, ready, published_value, tells, initializing, writing, publishing, complete_locking,
  complete_popping, unlocking, telling,
}
use xutex.OnceCell.Steps.{
  write_value, publish, lock_waiters, pop_all, continue_at, unlock_waiters, once_alone,
  init_returns, begin_once, OnceSystem, tell, once_from, OnceEvent, once_calls, once_runs,
  once_step, once_steps,
}
use xutex.OnceCell.Failure.{Serving}

-- As many steps of caller `i` as there are nodes.
abbrev pub steps_over : Bool → ℕ → List ℕ → List OnceEvent
steps_over w i [] = []
steps_over w i (j ∷ js) = once_runs w i ∷ steps_over w i js

-- The initializer of caller `i` returns `x`, and `i` takes five steps and one for each node.
abbrev pub returns_over : Bool → ℕ → ℕ → List ℕ → List OnceEvent
returns_over w i x q =
    once_calls i (init_returns x)
    ∷ once_runs w i
    ∷ once_runs w i
    ∷ once_runs w i
    ∷ once_runs w i
    ∷ once_runs w i
    ∷ steps_over w i q

module _ (w : Bool) (i x : ℕ) (q : List ℕ) (s : OnceSystem) where
  begins_return :
      Serving i initializing running published q s
      → Serving i (writing x) running published q (once_step (once_calls i (init_returns x)) s)
  unfolding once_step begin_once
  begins_return (at, stage, tag, queue) = ground (arith, ==_refl i)

  writes :
      Serving i (writing x) running published q s
      → Serving i publishing running published q (once_step (once_runs w i) s)
        × ((once_step (once_runs w i) s).cell.slot ≡ some x)
  unfolding once_step once_from once_alone write_value
  writes (at, stage, tag, queue) = ground (arith, ==_refl i)

  publishes :
      Serving i publishing running published q s
      → s.cell.slot ≡ some x
      → Serving i complete_locking ready published q (once_step (once_runs w i) s)
        × ((once_step (once_runs w i) s).cell.slot ≡ some x)
  unfolding once_step once_from once_alone publish
  publishes (at, stage, tag, queue) value = ground (arith, ==_refl i)

  locks_complete :
      Serving i complete_locking ready published q s
      → s.cell.slot ≡ some x
      → Serving i complete_popping ready held q (once_step (once_runs w i) s)
        × ((once_step (once_runs w i) s).cell.slot ≡ some x)
  unfolding once_step once_from once_alone lock_waiters
  locks_complete (at, stage, tag, queue) value = ground (arith, ==_refl i)

  pops_complete :
      Serving i complete_popping ready held q s
      → s.cell.slot ≡ some x
      → Serving i (unlocking (tells q published_value)) ready held [] (once_step (once_runs w i) s)
        × ((once_step (once_runs w i) s).cell.slot ≡ some x)
  unfolding once_step once_from once_alone pop_all
  pops_complete (at, stage, tag, queue) value = ground (arith, ==_refl i)

  unlocks_complete :
      Serving i (unlocking (tells q published_value)) ready held [] s
      → s.cell.slot ≡ some x
      → let next = once_step (once_runs w i) s in
        ((next.caller i).place ≡ telling q published_value)
        × (next.cell.stage ≡ ready)
        × (next.cell.slot ≡ some x)
  unfolding once_step once_from once_alone unlock_waiters continue_at
  unlocks_complete (at, stage, tag, queue) value = ground (arith, ==_refl i)

-- One node of the chain is signaled.
module _ (w : Bool) (i j : ℕ) (c : List ℕ) (s : OnceSystem) where
  abbrev told : OnceSystem
  told = once_step (once_runs w i) s

  tells_one :
      (s.caller i).place ≡ telling (j ∷ c) published_value
      → ((told.caller i).place ≡ telling c published_value)
        × ((told.caller j).wake ≡ published_value)
        × (told.cell ≡ s.cell)
  unfolding once_step once_from tell
  tells_one at = rw (at, once_from, tell) (ground (arith, ==_refl i, ==_refl j))

  tells_keeps :
      (k : ℕ)
      → (s.caller i).place ≡ telling (j ∷ c) published_value
      → (s.caller k).wake ≡ published_value
      → (told.caller k).wake ≡ published_value
  unfolding once_step once_from tell
  tells_keeps k at awake = rw (at, once_from, tell) (ground arith)

stays_told :
    (w : Bool) (i k : ℕ) (c : List ℕ) (s : OnceSystem)
    → (s.caller i).place ≡ telling c published_value
    → (s.caller k).wake ≡ published_value
    → ((once_steps (steps_over w i c) s).caller k).wake ≡ published_value
unfolding once_steps
stays_told w i k [] s at awake = awake
stays_told w i k (j ∷ c) s at awake =
    stays_told w i k c _ (tells_one w i j c s at).0 (tells_keeps w i j c s k at awake)

tells_all :
    (w : Bool) (i k : ℕ) (c : List ℕ) (s : OnceSystem)
    → (s.caller i).place ≡ telling c published_value
    → (((once_steps (steps_over w i c) s).cell ≡ s.cell)
        × (has k c ≡ true → ((once_steps (steps_over w i c) s).caller k).wake ≡ published_value))
unfolding once_steps
tells_all w i k [] s at = (refl, λ none_there. cc)
tells_all w i k (j ∷ c) s at =
    let (next, awake, cell) = tells_one w i j c s at in
    let rest = tells_all w i k c _ next in
    (
      rest.0 ∙ cell,
      λ there. elim (Bool-cases (k == j)) [
        | inl same ↦ let e : k ≡ j = ground arith in stays_told w i k c _ next (rw e awake)
        | inr other ↦ rest.1 (ground arith)
      ],
    )

pub return_serves :
    (w : Bool) (i k x : ℕ) (q : List ℕ) (s : OnceSystem)
    → Serving i initializing running published q s
    → has k q ≡ true
    → (((once_steps (returns_over w i x q) s).caller k).wake ≡ published_value)
      × ((once_steps (returns_over w i x q) s).cell.slot ≡ some x)
unfolding once_steps
return_serves w i k x q s h there =
    let (h2, value2) = writes w i x q _ (begins_return w i x q _ h) in
    let (h3, value3) = publishes w i x q _ h2 value2 in
    let (h4, value4) = locks_complete w i x q _ h3 value3 in
    let (h5, value5) = pops_complete w i x q _ h4 value4 in
    let (at, stage, value) = unlocks_complete w i x q _ h5 value5 in
    let (cell, woken) = tells_all w i k q _ at in (woken there, ap (λ c. c.slot) cell ∙ value)
