-- ===== src/Semaphore/Invariant/Steps.antt =====
-- src/semaphore.rs: every step of every caller keeps the invariant, so every reachable state has it.
use xutex.Prelude.{
  ℕ, ◌<◌, ◌≤◌, ◌≡◌, Bool, Bool-cases, inl, inr, ◌==◌, refl, List, [], ◌∷◌, arith, total-eq-zero,
}
use xutex.Semaphore.State.{max_permits, Pc, idle, holding, assigning, waking}
use xutex.Semaphore.System.{
  System, Event, call, run, splits, merges, hands_back, Call, drops_permit, Room, start_call,
  hand_back, Allowed, AllAllowed, advance, step, steps, run_caller, init, local, restore,
}
use xutex.Semaphore.Invariant.Defs.{Inv, weight, locks, in_chain}
use xutex.Semaphore.Invariant.Moves.{advance-Moved, begin-Moved}
use xutex.Semaphore.Invariant.Local.{Inv-Before, Inv-Moved}
use xutex.Semaphore.Invariant.Assign.{assign-Inv}
use xutex.Semaphore.Invariant.Trade.{split_permit-Inv, merge_permit-Inv}
use xutex.Semaphore.Invariant.Signal.{signal-Inv}

module _ {n : ℕ} {s : System} (inv : Inv n s) (w : Bool) (i : ℕ) (lt : i < n) where
  local-Inv : (p : Pc) → (s.task i).pc ≡ p → Inv n (restore i s (advance w i p (local i s)))
  local-Inv p e = Inv-Moved inv i lt (advance-Moved w i (local i s) (Inv-Before inv i lt) p e)

  run_caller-Inv : (p : Pc) → (s.task i).pc ≡ p → Inv n (run_caller w i p s)
  unfolding run_caller
  run_caller-Inv (assigning a) e = assign-Inv inv i lt a e
  run_caller-Inv (waking (j ∷ c) v) e = signal-Inv inv i lt j c v e
  run_caller-Inv (waking [] v) e = local-Inv _ e
  run_caller-Inv p e = local-Inv p e

call-Inv :
    {n : ℕ} {s : System}
    → Inv n s
    → (i : ℕ) → i < n
    → (c : Call) → Room c s.supply
    → Inv n (start_call i c s)
call-Inv {s} inv i lt c room =
    Inv-Moved inv i lt (begin-Moved Bool.true i (local i s) (Inv-Before inv i lt) c _ room refl)

hand_back-Inv :
    {n : ℕ} {s : System}
    → Inv n s
    → (i m k j : ℕ) → i < n
    → j < n
    → (p q : Pc) → (s.task i).pc ≡ p
    → (s.task j).pc ≡ q
    → Inv n (hand_back i m k j p q s)
unfolding hand_back
hand_back-Inv {s} inv i m k j lt lj (holding h) idle e e' = elim (Bool-cases (h == m)) [
  | inl fits ↦
      rw fits
        (call-Inv (split_permit-Inv inv i j lt lj k (holding h) idle e e') j lj drops_permit tt)
  | inr other ↦ rw other inv
]
hand_back-Inv inv i m k j lt lj _ _ e e' = inv

pub step-Inv : {n : ℕ} {s : System} → Inv n s → (e : Event) → Allowed n e s → Inv n (step e s)
unfolding step
step-Inv inv (call i c) (lt, room) = call-Inv inv i lt c room
step-Inv inv (run w i) lt = run_caller-Inv inv w i lt _ refl
step-Inv inv (splits i k j) (lt, lj) = split_permit-Inv inv i j lt lj k _ _ refl refl
step-Inv inv (merges i j) (lt, lj) = merge_permit-Inv inv i j lt lj _ _ refl refl
step-Inv inv (hands_back i m k j) (lt, lj) = hand_back-Inv inv i m k j lt lj _ _ refl refl

pub init-Inv : (n p : ℕ) → p ≤ max_permits → Inv n (init p)
init-Inv n p le = record {
  permits = omega (arith, total-eq-zero weight n (init p).task (λ i lt. refl));
  lock = total-eq-zero locks n (init p).task (λ i lt. refl);
  places = λ j. omega (arith, total-eq-zero (in_chain j) n (init p).task (λ i lt. refl));
  sound = λ j. (tt, refl);
  served = λ i j lt v h. refl;
  unpublished = λ e. refl;
  cleared = λ i lt c. refl;
  among = λ j h. absurd (omega arith);
  bounded = le;
}

pub steps-Inv :
    {n : ℕ} (es : List Event) (s : System) → Inv n s → AllAllowed n es s → Inv n (steps es s)
unfolding steps
steps-Inv [] s inv a = inv
steps-Inv (e ∷ es) s inv a = steps-Inv es (step e s) (step-Inv inv e a.0) a.1

-- Every state that callers reach, if no more than `max_permits` permits exist at any time.
pub reached-Inv :
    (n p : ℕ) (es : List Event)
    → p ≤ max_permits
    → AllAllowed n es (init p)
    → Inv n (steps es (init p))
reached-Inv n p es le a = steps-Inv es (init p) (init-Inv n p le) a
