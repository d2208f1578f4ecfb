-- ===== src/Semaphore/Awake/Steps.antt =====
-- src/semaphore.rs: no step of any caller leaves a waiter asleep.
use xutex.Prelude.{
  ℕ, ◌<◌, ◌≤◌, ◌≡◌, ◌⊎◌, inl, inr, Bool, Bool-cases, ◌==◌, true, false, refl, List, [], ◌∷◌, arith,
  weight-le-total, total-eq-zero, count, total,
}
use xutex.Semaphore.State.{
  max_permits, Pc, idle, holding, parked, holding, waiting, assigning, waking, Task,
}
use xutex.Semaphore.System.{
  System, Event, call, run, splits, merges, hands_back, Call, drops_permit, Room, start_call,
  hand_back, AllAllowed, Allowed, advance, step, steps, run_caller, init, reach, local, restore,
}
use xutex.Semaphore.Invariant.Defs.{Inv, in_chain, linked, chain}
use xutex.Semaphore.Invariant.Moves.{advance-Moved, begin-Moved}
use xutex.Semaphore.Invariant.Local.{Inv-Before}
use xutex.Semaphore.Invariant.Steps.{step-Inv, init-Inv, reached-Inv}
use xutex.Semaphore.Awake.Defs.{Awake, busy, need, drain_count, serve_count, close_count}
use xutex.Semaphore.Awake.Moves.{advance-Stirs, begin-Stirs}
use xutex.Semaphore.Awake.Local.{Awake-Stirs}
use xutex.Semaphore.Invariant.Trade.{split_permit-Inv}
use xutex.Semaphore.Awake.Trade.{split_permit-Awake, merge_permit-Awake}
use xutex.Semaphore.Awake.Shared.{signal-Awake, assign-Awake}

module _ {n : ℕ} {s : System} (inv : Inv n s) (aw : Awake n s) (i : ℕ) (lt : i < n) where
  least : drain_count (s.task i).pc ≤ (busy n s.task).drain
  least = weight-le-total (λ t. drain_count t.pc) n s.task i lt

  local-Awake :
      (w : Bool) (p : Pc) → (s.task i).pc ≡ p → Awake n (restore i s (advance w i p (local i s)))
  local-Awake w p e =
      Awake-Stirs inv aw i lt (advance-Moved w i (local i s) (Inv-Before inv i lt) p e) (
        advance-Stirs w i (local i s) (Inv-Before inv i lt) (busy n s.task)
          (need s.core.queue s.task) aw.calm (aw.watch i lt) least p e)

  run_caller-Awake : (w : Bool) (p : Pc) → (s.task i).pc ≡ p → Awake n (run_caller w i p s)
  unfolding run_caller
  run_caller-Awake w (assigning a) e = assign-Awake inv aw i lt a e
  run_caller-Awake w (waking (j ∷ c) v) e = signal-Awake inv aw i lt j c v e
  run_caller-Awake w (waking [] v) e = local-Awake w _ e
  run_caller-Awake w p e = local-Awake w p e

call-Awake :
    {n : ℕ} {s : System}
    → Inv n s
    → Awake n s
    → (i : ℕ) → i < n
    → (c : Call) → Room c s.supply
    → Awake n (start_call i c s)
call-Awake {n} {s} inv aw i lt c room =
    Awake-Stirs inv aw i lt (begin-Moved true i (local i s) (Inv-Before inv i lt) c _ room refl) (
      begin-Stirs true i (local i s) (Inv-Before inv i lt) (busy n s.task)
        (need s.core.queue s.task) aw.calm (aw.watch i lt) (least inv aw i lt) c _ room refl)

hand_back-Awake :
    {n : ℕ} {s : System}
    → Inv n s
    → Awake n s
    → (i m k j : ℕ) → i < n
    → j < n
    → (p q : Pc) → (s.task i).pc ≡ p
    → (s.task j).pc ≡ q
    → Awake n (hand_back i m k j p q s)
unfolding hand_back
hand_back-Awake inv aw i m k j lt lj (holding h) idle e e' = elim (Bool-cases (h == m)) [
  | inl fits ↦ rw fits (
      call-Awake (split_permit-Inv inv i j lt lj k (holding h) idle e e')
        (split_permit-Awake aw i j k (holding h) idle e e') j lj drops_permit tt)
  | inr other ↦ rw other aw
]
hand_back-Awake inv aw i m k j lt lj _ _ e e' = aw

pub step-Awake :
    {n : ℕ} {s : System} → Inv n s → Awake n s → (e : Event) → Allowed n e s → Awake n (step e s)
unfolding step
step-Awake inv aw (call i c) (lt, room) = call-Awake inv aw i lt c room
step-Awake inv aw (run w i) lt = run_caller-Awake inv aw i lt w _ refl
step-Awake inv aw (splits i k j) lt = split_permit-Awake aw i j k _ _ refl refl
step-Awake inv aw (merges i j) lt = merge_permit-Awake aw i j _ _ refl refl
step-Awake inv aw (hands_back i m k j) (lt, lj) = hand_back-Awake inv aw i m k j lt lj _ _ refl refl

pub init-Awake : (n p : ℕ) → Awake n (init p)
init-Awake n p = record {
  calm = record { flagged = inl refl; short = inl refl; open_queue = inl refl };
  watch = λ i lt. tt;
}

pub steps-Awake :
    {n : ℕ} (es : List Event) (s : System)
    → Inv n s
    → Awake n s
    → AllAllowed n es s
    → Awake n (steps es s)
unfolding steps
steps-Awake [] s inv aw a = aw
steps-Awake (e ∷ es) s inv aw a =
    steps-Awake es (step e s) (step-Inv inv e a.0) (step-Awake inv aw e a.0) a.1

-- A caller that has nothing to do: it makes no call, owns a permit object, or waits for a signal.
abbrev pub Rests : Task → Type 0
Rests t =
    (t.pc ≡ idle)
    ⊎ (((m : ℕ) × (t.pc ≡ holding m)) ⊎ ((m : ℕ) × (t.pc ≡ parked m) × (t.value ≡ waiting)))

Rests-counts :
    (t : Task)
    → Rests t
    → (drain_count t.pc ≡ 0) × (serve_count t.pc ≡ 0) × (close_count t.pc ≡ 0) × (chain t.pc ≡ [])
Rests-counts t (inl e) = rw e (refl, refl, refl, refl)
Rests-counts t (inr (inl (m, e))) = rw e (refl, refl, refl, refl)
Rests-counts t (inr (inr (m, e, v))) = rw e (refl, refl, refl, refl)

module _ (n p : ℕ) (es : List Event) (fits : p ≤ max_permits) (a : AllAllowed n es (init p))
    (rests : (i : ℕ) → i < n → Rests ((reach p es).task i)) where
  aw : Awake n (reach p es)
  aw = steps-Awake es (init p) (init-Inv n p fits) (init-Awake n p) a

  none_busy : (w : Task → ℕ) → ((t : Task) → Rests t → w t ≡ 0) → total w n (reach p es).task ≡ 0
  none_busy w free = total-eq-zero w n (reach p es).task λ i lt. free _ (rests i lt)

  -- If `n` callers have reached, from a new semaphore and however their steps interleaved, a state in
  -- which each of them is idle, owns a permit object or waits unsignaled, and there were never more
  -- than `max_permits` permits, then no waiter sleeps in vain: the queue is empty, or the semaphore
  -- is open and its pool has less than the first waiter lacks.
  pub reached-wakes :
      ((reach p es).core.queue ≡ [])
      ⊎ (((reach p es).core.pool.permits < need (reach p es).core.queue (reach p es).task)
          × ((reach p es).core.pool.closed ≡ false))
  reached-wakes =
      let drains_none = none_busy (λ t. drain_count t.pc) (λ t r. (Rests-counts t r).0) in
      let serves_none = none_busy (λ t. serve_count t.pc) (λ t r. (Rests-counts t r).1) in
      let closes_none = none_busy (λ t. close_count t.pc) (λ t r. (Rests-counts t r).2) in
      ground (arith, aw.calm.short, aw.calm.open_queue, drains_none, serves_none, closes_none)

  -- In such a state a caller that waits is in the queue, once.
  pub reached-queues :
      (j m : ℕ)
      → ((reach p es).task j).pc ≡ parked m
      → ((reach p es).task j).value ≡ waiting
      → count j (reach p es).core.queue ≡ 1
  reached-queues j m at waits =
      let inv = reached-Inv n p es fits a in
      let chains_none = none_busy (in_chain j) (λ t r. rw (Rests-counts t r).3 refl) in
      let one : linked ((reach p es).task j) ≡ 1 = rw (linked, at, waits) refl in
      omega (arith, inv.places j, chains_none, one)

  -- If `n` callers have reached, from a new semaphore and however their steps interleaved, a state in
  -- which each of them is idle, owns a permit object or waits unsignaled, and there were never more
  -- than `max_permits` permits, then a caller that waits is in the queue, once, the semaphore is open,
  -- and its pool has less than the first waiter lacks.
  pub reached-sleeps :
      (j m : ℕ)
      → ((reach p es).task j).pc ≡ parked m
      → ((reach p es).task j).value ≡ waiting
      → (count j (reach p es).core.queue ≡ 1)
        × ((reach p es).core.pool.permits < need (reach p es).core.queue (reach p es).task)
        × ((reach p es).core.pool.closed ≡ false)
  reached-sleeps j m at waits =
      let once = reached-queues j m at waits in
      elim reached-wakes [
        | inl empty ↦ let none_there = rw empty at once in absurd (omega (arith, none_there))
        | inr (short, unclosed) ↦ (once, short, unclosed)
      ]
