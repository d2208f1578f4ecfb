-- ===== src/Barrier/Reach.antt =====
-- src/barrier.rs: every step of every caller keeps the invariant, when there are no more callers than
-- the barrier's size.
use xutex.Prelude.{
  ℕ, ◌+◌, ◌≤◌, ◌<◌, ◌≡◌, ◌&&◌, not, leb, Bool, true, false, Bool-cases, inl, inr, refl, List, [],
  ◌∷◌, arith, total-eq-zero,
}
use xutex.Barrier.Steps.{
  BarrierSystem, BarrierPlace, arriving, release_popping, telling, barrier_view, barrier_put,
  same_rounds, barrier_alone, BarrierCall, begin_barrier, barrier_from, BarrierEvent, barrier_calls,
  barrier_runs, barrier_step, barrier_steps, new_barrier, BarrierActors,
}
use xutex.Barrier.Invariant.{Inv, counts, leaders, locks, in_chain}
use xutex.Barrier.Moves.{completes, barrier_alone-Moved, begin_barrier-Moved}
use xutex.Barrier.Kept.{view-Before, put-Inv}
use xutex.Barrier.PopRound.{pop_round-Inv}
use xutex.Barrier.Release.{release_node-Inv}
use xutex.Barrier.Complete.{arrive_step-completing, completed-Inv}

module _ {n size : ℕ} {s : BarrierSystem} (inv : Inv n size s) (i : ℕ) (lt : i < n)
    (enough : n ≤ size) (w : Bool) where
  moved-Inv :
      (p : BarrierPlace)
      → (s.caller i).place ≡ p
      → completes w size s.core.state p ≡ false
      → Inv n size
          (barrier_put i s (barrier_alone w size (λ j. (s.caller j).aux) i p (barrier_view i s)))
  moved-Inv p e c = put-Inv inv i lt (
      barrier_alone-Moved w size (λ j. (s.caller j).aux) i (barrier_view i s) (view-Before inv i lt)
        p e c)

  barrier_from-Inv :
      (p : BarrierPlace) → (s.caller i).place ≡ p → Inv n size (barrier_from w size i p s)
  unfolding barrier_from barrier_alone
  barrier_from-Inv (telling (j ∷ c)) e = release_node-Inv inv i lt j c e
  barrier_from-Inv (release_popping g) e = pop_round-Inv inv i lt g e
  barrier_from-Inv (arriving cur) e =
      elim (Bool-cases (completes w size s.core.state (arriving cur))) [
        | inr other ↦ moved-Inv (arriving cur) e other
        | inl last ↦
            let exchanged : (not w && same_rounds s.core.state cur) ≡ true = ground arith in
            let enough' : leb size (cur.arrivals + 1) ≡ true = ground arith in
            let last' : size ≤ s.core.state.arrivals + 1 = ground arith in
            rw (arrive_step-completing w size cur (barrier_view i s) exchanged enough')
              (completed-Inv inv i lt enough cur e last')
      ]
  barrier_from-Inv (telling []) e = moved-Inv (telling []) e refl
  barrier_from-Inv p e = moved-Inv p e refl

  begun-Inv :
      (c : BarrierCall)
      → Inv n size (barrier_put i s (begin_barrier c (s.caller i).place (barrier_view i s)))
  begun-Inv c = put-Inv inv i lt (
      begin_barrier-Moved w size (λ j. (s.caller j).aux) i (barrier_view i s) (view-Before inv i lt)
        c _ refl)

pub new_barrier-Inv : (n size : ℕ) → 0 < size → Inv n size new_barrier
new_barrier-Inv n size some_caller = record {
  bound = omega arith;
  few = some_caller;
  arrived = total-eq-zero (counts 0) n new_barrier.caller (λ i lt. refl);
  one_leader = omega (arith, total-eq-zero leaders n new_barrier.caller (λ i lt. refl));
  lock = total-eq-zero locks n new_barrier.caller (λ i lt. refl);
  places = λ j. omega (arith, total-eq-zero (in_chain j) n new_barrier.caller (λ i lt. refl));
  known = λ j p. ground arith;
  among = λ j h. absurd (omega arith);
  unpublished = λ e. refl;
  released_past = λ j h.
      absurd (omega (arith, h, total-eq-zero (in_chain j) n new_barrier.caller (λ i lt. refl)));
  attended = λ j h. absurd (omega arith);
  in_order = refl;
}

pub barrier_steps-Inv :
    {n size : ℕ} (es : List BarrierEvent) (s : BarrierSystem)
    → Inv n size s
    → n ≤ size
    → BarrierActors n es
    → Inv n size (barrier_steps size es s)
unfolding barrier_steps barrier_step
barrier_steps-Inv [] s inv enough a = inv
barrier_steps-Inv {n} {size} (barrier_calls i c ∷ es) s inv enough (lt, a) =
    barrier_steps-Inv es (barrier_step size (barrier_calls i c) s)
      (begun-Inv inv i lt enough true c) enough a
barrier_steps-Inv {n} {size} (barrier_runs w i ∷ es) s inv enough (lt, a) =
    barrier_steps-Inv es (barrier_step size (barrier_runs w i) s)
      (barrier_from-Inv inv i lt enough w _ refl) enough a
