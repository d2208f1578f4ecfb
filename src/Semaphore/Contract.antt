-- ===== src/Semaphore/Contract.antt =====
-- src/semaphore.rs: the use that the core makes of the lock of its queue.
use xutex.Prelude.{
  ℕ, ◌<◌, ◌≤◌, ◌≡◌, refl, sym, subst, ◌∙◌, inl, inr, Bool, List, [], ◌∷◌, arith, ◌==◌, Bool-cases,
}
use xutex.WaitQueue.Lock.{LockMove, stays}
use xutex.Semaphore.State.{
  max_permits, holding, assigning, idle, parked, only, first, second, Then, acquired, refused,
  queued, wakes, gives, drains, quits, awaits, SemCore, Local, Pc, trying, deciding, unlocking,
  unpublishing, waking, close_popping, cancel_removing,
}
use xutex.Semaphore.Steps.{
  refuse, try_acquire, lock_queue, resume, unlock, unpublish, enqueue_lock, enqueue_flag,
  enqueue_decide, release, drain_lock, drain_take, drain_return, close, close_lock, close_pop,
  forget_permits, await_signal, drop_acquire, cancel_lock, cancel_remove, cancel_wait,
}
use xutex.Semaphore.System.{
  System, Event, call, run, splits, merges, hands_back, step, advance, begin, Call, try_acquires,
  acquires, adds, forgets, closes, drops_permit, forgets_permit, drops_future, assign, signal,
  run_caller, split_permit, merge_permit, hand_back, local, reach, init, Allowed, AllAllowed,
}
use xutex.Semaphore.Invariant.Defs.{Before, Inv}
use xutex.Semaphore.Invariant.Local.{Inv-Before}
use xutex.Semaphore.Invariant.Steps.{reached-Inv}
use xutex.Semaphore.Invariant.Local.{Inv-Before}
use xutex.Semaphore.Invariant.Steps.{reached-Inv}

-- The step from one core to the next, whatever the new queue is, is one that the contract allows.
abbrev pub CoreMove : SemCore → SemCore → Type 0
CoreMove m m' = LockMove (λ q. m'.queue) m.tag m.queue m'.tag m'.queue

module _ (w : Bool) (i : ℕ) (l : Local) (b : Before i l) where
  unlock-CoreMove : (k : Then) → l.task.pc ≡ unlocking k → CoreMove l.core (unlock k l).core
  unfolding unlock resume
  unlock-CoreMove (acquired n) e = ground arith
  unlock-CoreMove refused e = ground arith
  unlock-CoreMove (queued n) e = ground arith
  unlock-CoreMove (wakes c v) e = ground arith
  unlock-CoreMove (gives g) e = ground arith
  unlock-CoreMove drains e = ground arith
  unlock-CoreMove quits e = ground arith
  unlock-CoreMove (awaits n) e = ground arith

  unpublish-CoreMove :
      (k : Then) → l.task.pc ≡ unpublishing k → CoreMove l.core (unpublish k l).core
  unfolding unpublish resume
  unpublish-CoreMove (acquired n) e = ground (arith, b.cleared)
  unpublish-CoreMove _ e = ground (arith, b.cleared)

  advance-CoreMove : (p : Pc) → l.task.pc ≡ p → CoreMove l.core (advance w i p l).core
  unfolding advance try_acquire refuse lock_queue enqueue_lock enqueue_flag enqueue_decide release
      drain_lock drain_take drain_return close close_lock close_pop forget_permits await_signal
      cancel_lock cancel_remove cancel_wait
  advance-CoreMove (trying only n cur) e = ground arith
  advance-CoreMove (trying first n cur) e = ground arith
  advance-CoreMove (trying second n cur) e = ground arith
  advance-CoreMove (deciding n cur) e = ground (arith, b.lock)
  advance-CoreMove (unlocking k) e = unlock-CoreMove k e
  advance-CoreMove (unpublishing k) e = unpublish-CoreMove k e
  advance-CoreMove (cancel_removing n) e = ground (arith, b.lock)
  advance-CoreMove (waking [] v) e = ground arith
  advance-CoreMove (waking (j ∷ c) v) e = ground arith
  advance-CoreMove close_popping e = ground (arith, b.lock)
  advance-CoreMove _ e = ground arith

begin-core : (c : Call) (p : Pc) (l : Local) → (begin c p l).core ≡ l.core
unfolding begin drop_acquire
begin-core (try_acquires n) idle l = refl
begin-core (acquires n) idle l = refl
begin-core (adds n) idle l = refl
begin-core (forgets n) idle l = refl
begin-core closes idle l = refl
begin-core drops_permit (holding n) l = refl
begin-core forgets_permit (holding n) l = refl
begin-core drops_future (parked n) l = ground arith
begin-core _ _ l = refl

split_permit-core : (i k j : ℕ) (p q : Pc) (s : System) → (split_permit i k j p q s).core ≡ s.core
unfolding split_permit
split_permit-core i k j (holding n) idle s = ground arith
split_permit-core i k j _ _ s = refl

merge_permit-core : (i j : ℕ) (p q : Pc) (s : System) → (merge_permit i j p q s).core ≡ s.core
unfolding merge_permit
merge_permit-core i j (holding n) (holding k) s = ground arith
merge_permit-core i j _ _ s = refl

hand_back-core : (i n k j : ℕ) (p q : Pc) (s : System) → (hand_back i n k j p q s).core ≡ s.core
unfolding hand_back
hand_back-core i n k j (holding m) idle s = elim (Bool-cases (m == n)) [
  | inl fits ↦
      let after = split_permit i k j (holding m) idle s in
      rw fits (
        begin-core drops_permit (after.task j).pc (local j after)
        ∙ split_permit-core i k j (holding m) idle s)
  | inr other ↦ rw other refl
]
hand_back-core i n k j _ _ s = refl

same-CoreMove : (m m' : SemCore) → m' ≡ m → CoreMove m m'
same-CoreMove m m' e = subst (λ x. CoreMove m x) (sym e) (stays (λ q. m.queue) m.tag m.queue)

module _ {n : ℕ} {s : System} (inv : Inv n s) (i : ℕ) (lt : i < n) where
  assign-CoreMove : (a : ℕ) → (s.task i).pc ≡ assigning a → CoreMove s.core (assign i a s).core
  unfolding assign
  assign-CoreMove a e = ground (arith, e, (Inv-Before inv i lt).lock)

  run_caller-CoreMove :
      (w : Bool) (p : Pc) → (s.task i).pc ≡ p → CoreMove s.core (run_caller w i p s).core
  unfolding run_caller signal
  run_caller-CoreMove w (assigning a) e = assign-CoreMove a e
  run_caller-CoreMove w (waking (j ∷ c) v) e = same-CoreMove s.core s.core refl
  run_caller-CoreMove w (waking [] v) e =
      advance-CoreMove w i (local i s) (Inv-Before inv i lt) (waking [] v) e
  run_caller-CoreMove w p e = advance-CoreMove w i (local i s) (Inv-Before inv i lt) p e

step-CoreMove :
    {n : ℕ} {s : System} → Inv n s → (e : Event) → Allowed n e s → CoreMove s.core (step e s).core
unfolding step
step-CoreMove {s} inv (call i c) a = same-CoreMove s.core _ (begin-core c (s.task i).pc (local i s))
step-CoreMove inv (run w i) lt = run_caller-CoreMove inv i lt w _ refl
step-CoreMove {s} inv (splits i k j) a =
    same-CoreMove s.core _ (split_permit-core i k j (s.task i).pc (s.task j).pc s)
step-CoreMove {s} inv (merges i j) a =
    same-CoreMove s.core _ (merge_permit-core i j (s.task i).pc (s.task j).pc s)
step-CoreMove {s} inv (hands_back i m k j) a =
    same-CoreMove s.core _ (hand_back-core i m k j (s.task i).pc (s.task j).pc s)

-- In every state that `n` callers reach from a new semaphore, however their steps interleave, if there
-- are never more than `max_permits` permits, the next event does to the lock of the queue and to the
-- nodes in it only what the contract of the lock allows: the nodes change under the lock alone; it is
-- taken with the nodes that were published, or with none; it is given up with the same nodes, as a
-- published queue if there are any, and else as none.
pub reached-CoreMove :
    (n p : ℕ) (es : List Event) (e : Event)
    → p ≤ max_permits
    → AllAllowed n es (init p)
    → Allowed n e (reach p es)
    → CoreMove (reach p es).core (step e (reach p es)).core
reached-CoreMove n p es e fits a allowed = step-CoreMove (reached-Inv n p es fits a) e allowed
