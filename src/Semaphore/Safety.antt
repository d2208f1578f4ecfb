-- ===== src/Semaphore/Safety.antt =====
-- src/semaphore.rs: what holds of every state that callers reach.
use xutex.Prelude.{
  two-le-total, ℕ, ◌+◌, ◌≤◌, ◌<◌, ◌≡◌, ◌≢◌, ◌==◌, Bool, false, Bool-cases, inl, inr, refl, none,
  List, arith, has, count, count-pos_of_has, Distinct, Distinct-count, total, total-le,
  weight-le-total,
}
use xutex.Semaphore.State.{
  max_permits, signaled, parked, holding, releasing, panicked, Task, new_task,
}
use xutex.Semaphore.Steps.{release, await_signal}
use xutex.Semaphore.System.{System, Event, run, step, init, reach, AllAllowed, advance, run_caller}
use xutex.Semaphore.Invariant.Defs.{
  Inv, weight, locks, lock_count, held_count, request, chain, in_chain, linked, linked-le, Sound,
}
use xutex.Semaphore.Invariant.Local.{held_count-le}
use xutex.Semaphore.Invariant.Steps.{reached-Inv}

-- The permits that a caller can use.
abbrev pub in_use : Task → ℕ
in_use t = elim t.pc [ holding n ↦ n | _ ↦ 0 ]

in_use-le : (t : Task) → in_use t ≤ weight t
in_use-le t = ground arith

absent : (j : ℕ) (js : List ℕ) → count j js ≡ 0 → has j js ≡ false
absent j js zero_times = elim (Bool-cases (has j js)) [
  | inl there ↦ absurd (omega (arith, count-pos_of_has j js there))
  | inr away ↦ away
]

-- A release adds exactly its permits to the pool, and does not panic.
pub Inv-releases :
    {n : ℕ} {s : System}
    → Inv n s
    → (w : Bool) (i m : ℕ) → i < n
    → (s.task i).pc ≡ releasing m
    → ((step (run w i) s).core.pool.permits ≡ s.core.pool.permits + m)
      × (((step (run w i) s).task i).pc ≢ panicked)
unfolding step run_caller advance release
Inv-releases {n} {s} inv w i m lt at =
    let known = weight-le-total weight n s.task i lt in
    (
      ground (arith, inv.bounded, inv.permits, known),
      ground (arith, inv.bounded, inv.permits, known),
    )

module _ (n p : ℕ) (es : List Event) (fits : p ≤ max_permits) (a : AllAllowed n es (init p)) where
  inv : Inv n (reach p es)
  inv = reached-Inv n p es fits a

  -- In every state that `n` callers reach from a new semaphore, however their steps interleave, if
  -- there are never more than `max_permits` permits, the pool's
  -- permits and those in callers' hands or assigned to their nodes are together those that exist.
  pub reached-conserves :
      (reach p es).core.pool.permits + total weight n (reach p es).task ≡ (reach p es).supply
  reached-conserves = inv.permits

  -- In every state that `n` callers reach from a new semaphore, however their steps interleave, if
  -- there are never more than `max_permits` permits, the pool's
  -- permits and those of all permit objects are together no more than exist.
  pub reached-holds :
      (reach p es).core.pool.permits + total in_use n (reach p es).task ≤ (reach p es).supply
  reached-holds = omega (arith, inv.permits, total-le in_use weight n (reach p es).task in_use-le)

  -- In every state that `n` callers reach from a new semaphore, however their steps interleave, if
  -- there are never more than `max_permits` permits, at most one
  -- caller is between the lock and the unlock of the queue, and the pointer's tag is then set.
  pub reached-excludes :
      (i j : ℕ)
      → i < n
      → j < n
      → lock_count ((reach p es).task i).pc ≡ 1
      → lock_count ((reach p es).task j).pc ≡ 1
      → (i ≡ j) × (held_count (reach p es).core.tag ≡ 1)
  reached-excludes i j lt lt' own own' =
      let s = reach p es in
      let tagged : held_count s.core.tag ≡ 1 =
        omega
          (arith, inv.lock, own, held_count-le s.core.tag, weight-le-total locks n s.task i lt) in
      elim (Bool-cases (j == i)) [
        | inl same ↦ (ground arith, tagged)
        | inr apart ↦ absurd (
            omega (
              arith,
              inv.lock,
              own,
              own',
              tagged,
              two-le-total locks n s.task i j new_task refl lt lt' apart,
            ))
      ]

  -- In every state that `n` callers reach from a new semaphore, however their steps interleave, if
  -- there are never more than `max_permits` permits, the node of
  -- a caller that has not been queued, or whose wait has returned, is neither in the queue nor among
  -- the nodes that a caller is about to signal.
  pub reached-unlinks :
      (j k : ℕ)
      → k < n
      → request ((reach p es).task j).pc ≡ none
      → (has j (reach p es).core.queue ≡ false) × (has j (chain ((reach p es).task k).pc) ≡ false)
  reached-unlinks j k lt done =
      let s = reach p es in
      let none_linked : linked (s.task j) ≡ 0 = rw (linked, done) refl in
      let counted = weight-le-total (in_chain j) n s.task k lt in
      (
        absent j s.core.queue (omega (arith, inv.places j, none_linked)),
        absent j (chain (s.task k).pc) (omega (arith, inv.places j, none_linked, counted)),
      )

  -- In every state that `n` callers reach from a new semaphore, however their steps interleave, if
  -- there are never more than `max_permits` permits, a queued
  -- caller that was told of success lacks no permit, and holds what it asked for after its next step.
  pub reached-grants :
      (w : Bool) (i m : ℕ)
      → ((reach p es).task i).pc ≡ parked m
      → ((reach p es).task i).value ≡ signaled
      → (((reach p es).task i).aux ≡ 0) × (((step (run w i) (reach p es)).task i).pc ≡ holding m)
  unfolding step run_caller advance await_signal
  reached-grants w i m at told =
      let s = reach p es in
      let sound : Sound (parked m) (s.task i) = rw at at (inv.sound i) in
      (sound.0.1 told, ground arith)

  -- In every state that `n` callers reach from a new semaphore, however their steps interleave, if
  -- there are never more than `max_permits` permits, a release
  -- adds exactly its permits to the pool, and does not panic.
  pub reached-releases :
      (w : Bool) (i m : ℕ)
      → i < n
      → ((reach p es).task i).pc ≡ releasing m
      → ((step (run w i) (reach p es)).core.pool.permits ≡ (reach p es).core.pool.permits + m)
        × (((step (run w i) (reach p es)).task i).pc ≢ panicked)
  reached-releases w i m lt at = Inv-releases inv w i m lt at

  -- In every state that `n` callers reach from a new semaphore, however their steps interleave, if
  -- there are never more than `max_permits` permits, no node is queued twice.
  reached-Distinct : Distinct (reach p es).core.queue
  reached-Distinct =
      Distinct-count (reach p es).core.queue
        λ j. omega (arith, inv.places j, linked-le ((reach p es).task j))
