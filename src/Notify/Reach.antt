-- ===== src/Notify/Reach.antt =====
-- src/notify.rs: every step of every caller keeps the invariant, as long as the generation does not
-- come round.
use xutex.Prelude.{
  ℕ, ◌+◌, ◌^◌, ◌≤◌, ◌<◌, ◌≡◌, Bool, true, false, inl, inr, refl, List, [], ◌∷◌, arith, length,
  total-eq-zero,
}
use xutex.Notify.Steps.{
  NotifySystem, NotifyPlace, telling, bumping, all_popping, notify_view, notify_put, bump,
  pop_stale, notify_node, notify_alone, NotifyCall, begin_notify, notify_from, NotifyEvent,
  notify_calls, notify_runs, notify_step, notify_steps, new_notify, NotifyActors,
}
use xutex.Notify.Invariant.{Inv, locks, claimers, in_chain}
use xutex.Notify.Moves.{changes, notify_alone-Moved, begin_notify-Moved}
use xutex.Notify.Kept.{view-Before, put-Inv}
use xutex.Notify.Bump.{bump-Inv, pop_stale-Inv}
use xutex.Notify.Release.{notify_node-Inv}

module _ {n : ℕ} {s : NotifySystem} (inv : Inv n s) (i : ℕ) (lt : i < n)
    (small : s.core.word.gen + 1 < 2 ^ 61) where
  -- The invariant after a step, by which the generation grew by one at most.
  abbrev Kept : NotifySystem → Type 0
  Kept s' = Inv n s' × (s'.core.word.gen ≤ s.core.word.gen + 1)

  moved-Kept :
      (w : Bool) (p : NotifyPlace)
      → (s.caller i).place ≡ p
      → changes p ≡ false
      → Kept (notify_put i s (notify_alone w (λ j. (s.caller j).aux) i p (notify_view i s)))
  moved-Kept w p e c =
      let m =
        notify_alone-Moved w i (notify_view i s) (view-Before inv i lt) (λ j. (s.caller j).aux) p e
          c in
      (put-Inv inv i lt m, omega (arith, m.gen))

  notify_from-Kept :
      (w : Bool) (p : NotifyPlace) → (s.caller i).place ≡ p → Kept (notify_from w i p s)
  unfolding notify_from notify_alone bump pop_stale notify_node
  notify_from-Kept w (telling (j ∷ c) t) e = (notify_node-Inv inv i lt j c t e, omega arith)
  notify_from-Kept w bumping e = (bump-Inv inv i lt e small, ground arith)
  notify_from-Kept w all_popping e = (pop_stale-Inv inv i lt e, omega arith)
  notify_from-Kept w (telling [] t) e = moved-Kept w (telling [] t) e refl
  notify_from-Kept w p e = moved-Kept w p e refl

  begun-Kept :
      (c : NotifyCall) → Kept (notify_put i s (begin_notify c (s.caller i).place (notify_view i s)))
  begun-Kept c =
      let m = begin_notify-Moved true i (notify_view i s) (view-Before inv i lt) c _ refl in
      (put-Inv inv i lt m, omega (arith, m.gen))

pub new_notify-Inv : (n : ℕ) → Inv n new_notify
new_notify-Inv n = record {
  lock = total-eq-zero locks n new_notify.caller (λ i lt. refl);
  places = λ j. omega (arith, total-eq-zero (in_chain j) n new_notify.caller (λ i lt. refl));
  known = λ j. ground arith;
  among = λ j h. absurd (omega arith);
  announced = ground arith;
  emptied = inl refl;
  raised = inr (total-eq-zero claimers n new_notify.caller (λ i lt. refl));
  past = λ j h. absurd (omega arith);
  attended = λ j h. absurd (omega arith);
  in_order = refl;
}

pub notify_steps-Inv :
    {n : ℕ} (es : List NotifyEvent) (s : NotifySystem)
    → Inv n s
    → s.core.word.gen + length es < 2 ^ 61
    → NotifyActors n es
    → Inv n (notify_steps es s)
unfolding notify_steps notify_step
notify_steps-Inv [] s inv small a = inv
notify_steps-Inv (notify_calls i c ∷ es) s inv small (lt, a) =
    let kept = begun-Kept inv i lt (omega (arith, small)) c in
    notify_steps-Inv es (notify_step (notify_calls i c) s) kept.0 (omega (arith, small, kept.1)) a
notify_steps-Inv (notify_runs w i ∷ es) s inv small (lt, a) =
    let kept = notify_from-Kept inv i lt (omega (arith, small)) w (s.caller i).place refl in
    notify_steps-Inv es (notify_step (notify_runs w i) s) kept.0 (omega (arith, small, kept.1)) a
