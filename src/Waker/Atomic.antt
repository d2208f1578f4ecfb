-- ===== src/Waker/Atomic.antt =====
-- src/waker.rs: the calls on a slot act one after another, however their steps interleave.
use xutex.Prelude.{
  ℕ, ◌+◌, ◌≤◌, ◌<◌, ◌≡◌, refl, subst, sym, inl, inr, Bool, true, false, List, [], ◌∷◌, ◌++◌, ◌==◌,
  if◌then◌else◌, Bool-cases, arith, total, total-update, two-le-total, weight-le-total,
  total-eq-zero,
}
use xutex.WaitQueue.Handshake.{WakerSlot}
use xutex.Waker.{
  SlotCall, SlotAnswer, slot_after, slot_answer, SlotPlace, resting, swapping, reading, writing,
  storing, DynamicWaker, SlotEvent, slot_calls, slot_runs, slot_run, slot_begin, slot_step,
  slot_steps, new_waker, SlotActors, go,
}

-- The calls of a log, one after another: what they leave in the slot, and whether each answers so.
abbrev pub Replays : (ℕ → ℕ → Bool) → WakerSlot → List (SlotCall × SlotAnswer) → WakerSlot → Type 0
Replays will_wake before [] after = after ≡ before
Replays will_wake before ((c, a) ∷ log) after =
    (a ≡ slot_answer c before) × Replays will_wake (slot_after will_wake c before) log after

Replays-append :
    (will_wake : ℕ → ℕ → Bool) (before : WakerSlot) (log : List (SlotCall × SlotAnswer))
    (after : WakerSlot) (c : SlotCall)
    → Replays will_wake before log after
    → Replays will_wake before (log ++ (c, slot_answer c after) ∷ []) (slot_after will_wake c after)
Replays-append will_wake before [] after c h = rw h (refl, refl)
Replays-append will_wake before ((d, a) ∷ log) after c h =
    (h.0, Replays-append will_wake (slot_after will_wake d before) log after c h.1)

-- Whether a caller there has the lock.
abbrev pub slot_lock : SlotPlace → ℕ
slot_lock (reading c) = 1
slot_lock (writing c seen) = 1
slot_lock storing = 1
slot_lock _ = 0

-- What it has read is still there.
abbrev Current : WakerSlot → SlotPlace → Type 0
Current slot (writing c seen) = seen ≡ slot
Current slot _ = Unit {0}

record SlotInv (will_wake : ℕ → ℕ → Bool) (first : WakerSlot) (n : ℕ) (s : DynamicWaker)
    : Type 0 where
  lock : total slot_lock n s.place ≡ (if s.updating then 1 else 0)
  current : (i : ℕ) → i < n → Current s.slot (s.place i)
  replay : Replays will_wake first s.log s.slot

idle_slot : (p : SlotPlace) (slot : WakerSlot) → slot_lock p ≡ 0 → Current slot p
idle_slot (writing c seen) slot h = absurd (omega (arith, h))
idle_slot _ slot h = tt

module _ (will_wake : ℕ → ℕ → Bool) (first : WakerSlot) {n : ℕ} {s : DynamicWaker}
    (inv : SlotInv will_wake first n s) (i : ℕ) (lt : i < n) where
  -- A step that leaves the slot as it is.
  quiet :
      (p : SlotPlace) (u : Bool)
      → slot_lock p + (if s.updating then 1 else 0) ≡ slot_lock (s.place i) + (if u then 1 else 0)
      → Current s.slot p
      → SlotInv will_wake first n (record (go i p s) { updating = u })
  quiet p u count same = record {
    lock = omega (arith, inv.lock, count, total-update slot_lock n s.place i p lt);
    current = λ j le. elim (Bool-cases (j == i)) [
      | inl mine ↦ rw mine same
      | inr other ↦ rw other (inv.current j le)
    ];
    replay = inv.replay;
  }

  -- The step that writes the slot: nobody else has read it.
  write-SlotInv :
      (c : SlotCall) (seen : WakerSlot)
      → s.place i ≡ writing c seen
      → SlotInv will_wake first n (slot_run will_wake i (writing c seen) s)
  unfolding slot_run
  write-SlotInv c seen e =
      let same : seen ≡ s.slot = rw e at (inv.current i lt) in
      record {
        lock = ground (arith, e, inv.lock, total-update slot_lock n s.place i storing lt);
        current = λ j le. elim (Bool-cases (j == i)) [
          | inl mine ↦ rw mine tt
          | inr other ↦ rw other (
              idle_slot (s.place j) _ (
                ground (
                  arith,
                  e,
                  inv.lock,
                  two-le-total slot_lock n s.place i j resting refl lt le other,
                )))
        ];
        replay =
            subst
              (λ x.
                Replays will_wake first (s.log ++ (c, slot_answer c x) ∷ [])
                  (slot_after will_wake c x))
              (sym same) (Replays-append will_wake first s.log s.slot c inv.replay);
      }

  abbrev taken_lock : SlotCall → DynamicWaker
  taken_lock c = record (go i (reading c) s) { updating = true }

  slot_run-SlotInv :
      (p : SlotPlace) → s.place i ≡ p → SlotInv will_wake first n (slot_run will_wake i p s)
  unfolding slot_run
  slot_run-SlotInv (swapping c) e = elim (Bool-cases s.updating) [
    | inl busy ↦
        subst (λ u. SlotInv will_wake first n (if u then s else taken_lock c)) (sym busy) inv
    | inr free ↦
        subst (λ u. SlotInv will_wake first n (if u then s else taken_lock c)) (sym free)
          (quiet (reading c) true (ground (arith, e, free)) tt)
  ]
  slot_run-SlotInv (reading c) e = quiet (writing c s.slot) s.updating (ground (arith, e)) refl
  slot_run-SlotInv (writing c seen) e = write-SlotInv c seen e
  slot_run-SlotInv storing e =
      quiet resting false (ground (arith, e, inv.lock, weight-le-total slot_lock n s.place i lt)) tt
  slot_run-SlotInv resting e = inv

  slot_begin-SlotInv :
      (c : SlotCall) (p : SlotPlace)
      → s.place i ≡ p
      → SlotInv will_wake first n (slot_begin i c p s)
  unfolding slot_begin
  slot_begin-SlotInv c resting e = quiet (swapping c) s.updating (ground (arith, e)) tt
  slot_begin-SlotInv c _ e = inv

slot_steps-SlotInv :
    (will_wake : ℕ → ℕ → Bool) (first : WakerSlot) {n : ℕ} (es : List SlotEvent) (s : DynamicWaker)
    → SlotInv will_wake first n s
    → SlotActors n es
    → SlotInv will_wake first n (slot_steps will_wake es s)
unfolding slot_steps slot_step
slot_steps-SlotInv will_wake first [] s inv a = inv
slot_steps-SlotInv will_wake first (slot_calls i c ∷ es) s inv (lt, a) =
    slot_steps-SlotInv will_wake first es _
      (slot_begin-SlotInv will_wake first inv i lt c (s.place i) refl) a
slot_steps-SlotInv will_wake first (slot_runs i ∷ es) s inv (lt, a) =
    slot_steps-SlotInv will_wake first es _
      (slot_run-SlotInv will_wake first inv i lt (s.place i) refl) a

-- The slot after the events.
abbrev pub slot_reach : (ℕ → ℕ → Bool) → WakerSlot → List SlotEvent → DynamicWaker
slot_reach will_wake first es = slot_steps will_wake es (new_waker first)

-- In every state that `n` callers reach from a new slot, however their steps interleave: at most one of
-- them is between its swap and its store, and what the slot holds, and every answer, is what the calls
-- leave and return one after another, in the order of their writes.
pub slot-acts :
    (will_wake : ℕ → ℕ → Bool) (first : WakerSlot) (n : ℕ) (es : List SlotEvent)
    → SlotActors n es
    → (total slot_lock n (slot_reach will_wake first es).place ≤ 1)
      × Replays will_wake first
          (slot_reach will_wake first es).log
          (slot_reach will_wake first es).slot
slot-acts will_wake first n es a =
    let inv =
      slot_steps-SlotInv will_wake first {n = n} es (new_waker first)
        (record {
          lock = total-eq-zero slot_lock n (λ i. resting) (λ i lt. refl);
          current = λ i lt. tt;
          replay = refl;
        })
        a in
    (ground (arith, inv.lock), inv.replay)
