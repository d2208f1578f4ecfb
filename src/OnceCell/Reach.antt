-- ===== src/OnceCell/Reach.antt =====
-- src/once_cell.rs: every step of every caller keeps the invariant of the cell.
use xutex.Prelude.{
  ℕ, ◌<◌, ◌≡◌, Bool, true, Bool-cases, inl, inr, refl, ◌∙◌, Option, none, some, List, [], ◌∷◌, ◌==◌,
  arith, count_at, total-eq-zero, total-update, weight-le-total,
}
use xutex.OnceCell.State.{ready, Cell, OncePlace, telling, OnceCaller, OnceView}
use xutex.OnceCell.Steps.{
  OnceSystem, once_view, once_put, begin_once, OnceCall, tell, once_from, OnceEvent, once_calls,
  once_runs, once_step, once_steps, new_once, OnceActors,
}
use xutex.OnceCell.Invariant.{
  Inv, Before, Moved, Sound, roles, locks, in_chain, linked, contends, completes, full,
}
use xutex.OnceCell.Tell.{tell-Inv}
use xutex.OnceCell.Moves.{once_alone-Moved, begin_once-Moved}

-- Others know what they knew.
Sound-kept :
    (cell cell' : Cell) (c : OnceCaller)
    → (cell.stage ≡ ready → cell'.stage ≡ ready)
    → (full cell.slot ≡ true → full cell'.slot ≡ true)
    → Sound cell c
    → Sound cell' c
Sound-kept cell cell' c stays fills s = record {
  sees_ready = λ e. stays (s.sees_ready e);
  wrote = λ e. fills (s.wrote e);
  fresh = s.fresh;
  fresh_lock = s.fresh_lock;
  tells_awake = s.tells_awake;
}

module _ {n : ℕ} {s : OnceSystem} (inv : Inv n s) (i : ℕ) (lt : i < n) where
  pub view-Before : Before i (once_view i s)
  view-Before = record {
    role = omega (arith, inv.role, weight-le-total roles n s.caller i lt);
    lock = omega (arith, inv.lock, weight-le-total locks n s.caller i lt);
    places = omega (arith, inv.places i, weight-le-total (in_chain i) n s.caller i lt);
    sound = inv.sound i;
    filled = inv.filled;
    unpublished = inv.unpublished;
  }

  put-Inv : {v : OnceView} → Moved i (once_view i s) v → Inv n (once_put i s v)
  put-Inv {v} m = record {
    role = omega (arith, inv.role, m.role, total-update roles n s.caller i v.caller lt);
    lock = omega (arith, inv.lock, m.lock, total-update locks n s.caller i v.caller lt);
    places = λ j.
        count_at s.caller v.caller i j linked _ _ _ _ _ _ (inv.places j) (m.places j)
          (omega (arith, total-update (in_chain j) n s.caller i v.caller lt));
    sound = λ j. elim (Bool-cases (j == i)) [
      | inl mover ↦ rw mover m.sound
      | inr other ↦ rw other (
          Sound-kept s.cell v.cell (s.caller j) (λ e. (m.stays_ready e).0) m.stays_full
            (inv.sound j))
    ];
    filled = m.filled;
    unpublished = m.unpublished;
    attended =
        m.attended _ _ _ _ (total-update contends n s.caller i v.caller lt)
          (total-update completes n s.caller i v.caller lt)
          (weight-le-total contends n s.caller i lt) inv.attended;
    among = λ j h. elim (Bool-cases (j == i)) [
      | inl mover ↦ ground (arith, lt)
      | inr other ↦ inv.among j (rw other at h)
    ];
  }

  once_from-Inv : (w : Bool) (p : OncePlace) → (s.caller i).place ≡ p → Inv n (once_from w i p s)
  unfolding once_from
  once_from-Inv w (telling (j ∷ c) k) e = tell-Inv inv i lt j c k e
  once_from-Inv w (telling [] k) e = put-Inv (once_alone-Moved w i (once_view i s) view-Before _ e)
  once_from-Inv w p e = put-Inv (once_alone-Moved w i (once_view i s) view-Before p e)

  begun-Inv :
      (c : OnceCall) → Inv n (once_put i s (begin_once c (s.caller i).place (once_view i s)))
  begun-Inv c = put-Inv (begin_once-Moved true i (once_view i s) view-Before c _ refl)

pub new_once-Inv : (n : ℕ) (value : Option ℕ) → Inv n (new_once value)
new_once-Inv n none = record {
  role = total-eq-zero roles n (new_once none).caller (λ i lt. refl);
  lock = total-eq-zero locks n (new_once none).caller (λ i lt. refl);
  places = λ j. omega (arith, total-eq-zero (in_chain j) n (new_once none).caller (λ i lt. refl));
  sound = λ j. ground arith;
  filled = ground arith;
  unpublished = λ e. refl;
  attended = inl refl;
  among = λ j h. absurd (omega arith);
}
new_once-Inv n (some x) = record {
  role = total-eq-zero roles n (new_once (some x)).caller (λ i lt. refl);
  lock = total-eq-zero locks n (new_once (some x)).caller (λ i lt. refl);
  places =
      λ j. omega (arith, total-eq-zero (in_chain j) n (new_once (some x)).caller (λ i lt. refl));
  sound = λ j. ground arith;
  filled = ground arith;
  unpublished = λ e. refl;
  attended = inl refl;
  among = λ j h. absurd (omega arith);
}

pub once_steps-Inv :
    {n : ℕ} (es : List OnceEvent) (s : OnceSystem)
    → Inv n s
    → OnceActors n es
    → Inv n (once_steps es s)
unfolding once_steps once_step
once_steps-Inv [] s inv a = inv
once_steps-Inv (once_calls i c ∷ es) s inv (lt, a) =
    once_steps-Inv es (once_step (once_calls i c) s) (begun-Inv inv i lt c) a
once_steps-Inv (once_runs w i ∷ es) s inv (lt, a) =
    once_steps-Inv es (once_step (once_runs w i) s) (once_from-Inv inv i lt w _ refl) a

-- A cell that is READY stays so, with its value.
step_keeps :
    {n : ℕ} {s : OnceSystem} (inv : Inv n s) (i : ℕ)
    → i < n
    → s.cell.stage ≡ ready
    → (w : Bool) (p : OncePlace) → (s.caller i).place ≡ p
    → ((once_from w i p s).cell.stage ≡ ready) × ((once_from w i p s).cell.slot ≡ s.cell.slot)
unfolding once_from tell
step_keeps inv i lt e w (telling (j ∷ c) k) at = (e, refl)
step_keeps {n} {s} inv i lt e w (telling [] k) at =
    (once_alone-Moved w i (once_view i s) (view-Before inv i lt) _ at).stays_ready e
step_keeps {n} {s} inv i lt e w p at =
    (once_alone-Moved w i (once_view i s) (view-Before inv i lt) p at).stays_ready e

pub once_steps-keeps :
    {n : ℕ} (es : List OnceEvent) (s : OnceSystem)
    → Inv n s
    → OnceActors n es
    → s.cell.stage ≡ ready
    → ((once_steps es s).cell.stage ≡ ready) × ((once_steps es s).cell.slot ≡ s.cell.slot)
unfolding once_steps once_step
once_steps-keeps [] s inv a e = (e, refl)
once_steps-keeps (once_calls i c ∷ es) s inv (lt, a) e =
    let m = begin_once-Moved true i (once_view i s) (view-Before inv i lt) c _ refl in
    let kept = m.stays_ready e in
    let rest = once_steps-keeps es (once_step (once_calls i c) s) (begun-Inv inv i lt c) a kept.0 in
    (rest.0, rest.1 ∙ kept.1)
once_steps-keeps (once_runs w i ∷ es) s inv (lt, a) e =
    let kept = step_keeps inv i lt e w (s.caller i).place refl in
    let rest =
      once_steps-keeps es (once_step (once_runs w i) s) (once_from-Inv inv i lt w _ refl) a
        kept.0 in
    (rest.0, rest.1 ∙ kept.1)
