-- ===== src/Notify/Kept.antt =====
-- src/notify.rs: the steps of a caller that touch no node but its own and leave the generation keep
-- the invariant.
use xutex.Prelude.{
  ℕ, ◌≤◌, ◌<◌, ◌≡◌, ◌⊎◌, true, Bool-cases, inl, inr, refl, [], ◌∷◌, ◌++◌, ◌==◌, arith, count,
  count-append, erase, count_at, total, total-le, total-update, weight-le-total, update, ==_refl,
}
use xutex.WaitQueue.Lock.{Tag, held_count}
use xutex.WaitQueue.Order.{
  ordered, ordered-append, ordered-erase, ordered-cong, ordered-tail, count-erase_le,
}
use xutex.Notify.Steps.{
  NotifySystem, NotifyView, NotifyCaller, idle, by_all, notify_view, notify_put,
}
use xutex.Notify.Invariant.{
  Inv, Before, Moved, Guards, locks, unpublishers, claimers, bumpers, in_chain, linked, fresh_in,
}

held_count-le : (t : Tag) → held_count t ≤ 1
held_count-le t = ground arith

pub unpublishers-le : (c : NotifyCaller) → unpublishers c ≤ locks c
unpublishers-le c = ground arith

pub claimers-le : (c : NotifyCaller) → claimers c ≤ locks c
claimers-le c = ground arith

module _ {n : ℕ} {s : NotifySystem} (inv : Inv n s) (i : ℕ) (lt : i < n) where
  part_le :
      (w : NotifyCaller → ℕ) {P : Type 0} → P ⊎ (total w n s.caller ≡ 0) → P ⊎ (w (s.caller i) ≡ 0)
  part_le w (inl p) = inl p
  part_le w (inr z) = inr (omega (arith, z, weight-le-total w n s.caller i lt))

  pub view-Before : Before i (notify_view i s)
  view-Before = record {
    lock = omega (arith, inv.lock, weight-le-total locks n s.caller i lt);
    places = omega (arith, inv.places i, weight-le-total (in_chain i) n s.caller i lt);
    known = inv.known i;
    announced = inv.announced;
    emptied = part_le unpublishers inv.emptied;
    raised = part_le claimers inv.raised;
  }

  -- While the mover holds the lock, no other caller is at a place under the lock.
  pub alone :
      (w : NotifyCaller → ℕ) (a : NotifyCaller)
      → ((c : NotifyCaller) → w c ≤ locks c)
      → locks (s.caller i) ≡ 1
      → w a ≡ 0
      → total w n (update s.caller i a) ≡ 0
  alone w a part mine none = omega (
    arith,
    mine,
    none,
    part still,
    inv.lock,
    held_count-le s.core.tag,
    total-update w n s.caller i a lt,
    total-update w n s.caller i still lt,
    total-update locks n s.caller i still lt,
    total-le w locks n (update s.caller i still) part,
  )
    where
      still : NotifyCaller
      still = record { place = idle; told = by_all; aux = 0 }

  guard_kept :
      (w : NotifyCaller → ℕ) (v : NotifyView) {P P' : Type 0}
      → ((c : NotifyCaller) → w c ≤ locks c)
      → P ⊎ (total w n s.caller ≡ 0)
      → Guards w P P' (notify_view i s) v
      → P' ⊎ (total w n (update s.caller i v.caller) ≡ 0)
  guard_kept w v part before (inl p') = inl p'
  guard_kept w v part (inl p) (inr (inl kept)) = inl (kept.0 p)
  guard_kept w v part (inr z) (inr (inl kept)) =
      inr (omega (arith, z, kept.1, total-update w n s.caller i v.caller lt))
  guard_kept w v part before (inr (inr only)) = inr (alone w v.caller part only.0 only.1)

  module _ {v : NotifyView} (m : Moved i (notify_view i s) v) where
    abbrev after : ℕ → NotifyCaller
    after = update s.caller i v.caller

    abbrev g : ℕ
    g = s.core.word.gen

    stores_kept : 0 < linked (s.caller i) → v.caller.aux ≡ (s.caller i).aux
    stores_kept l = elim m.stores [ inl same ↦ same | inr fresh ↦ absurd (omega (arith, fresh.0)) ]

    aux_kept : (j : ℕ) → 0 < count j s.core.queue → (after j).aux ≡ (s.caller j).aux
    aux_kept j h = elim (Bool-cases (j == i)) [
      | inl mover ↦
          let e : j ≡ i = ground arith in
          let h' : 0 < count i s.core.queue = rw e at h in
          rw (mover, e) (stores_kept (omega (arith, inv.places i, h')))
      | inr other ↦ rw other refl
    ]

    kept_order : ordered (fresh_in g after) s.core.queue ≡ true
    kept_order =
        rw
          (ordered-cong (fresh_in g s.caller) (fresh_in g after) s.core.queue
            (λ j h. rw (aux_kept j h) refl))
          inv.in_order

    in_order' : ordered (fresh_in g after) v.core.queue ≡ true
    in_order' = elim m.queue [
      | inl same ↦ rw same kept_order
      | inr (inl appended) ↦ rw appended.0 (
          ordered-append (fresh_in g after) s.core.queue i kept_order
            (rw (==_refl i, appended.1) (==_refl g)))
      | inr (inr (inl erased)) ↦
          rw erased (ordered-erase (fresh_in g after) s.core.queue i kept_order)
      | inr (inr (inr (j, popped))) ↦
          ordered-tail (fresh_in g after) j v.core.queue (rw popped at kept_order)
    ]

    bumpers_kept :
        (j : ℕ) → 0 < count j v.core.queue → total bumpers n s.caller ≤ total bumpers n after
    bumpers_kept j h = elim m.attended [
      | inl free ↦ let h' : 0 < count j [] = rw free at h in absurd (omega (arith, h'))
      | inr more ↦ omega (arith, more, total-update bumpers n s.caller i v.caller lt)
    ]

    -- A node that is queued now was queued before, and stores what it did, or is the mover's and of the
    -- generation.
    queued_before :
        (j : ℕ) → 0 < count j v.core.queue → ((after j).aux ≡ g) ⊎ (0 < count j s.core.queue)
    queued_before j h = elim m.queue [
      | inl e ↦ inr (rw e at h)
      | inr (inl appended) ↦ elim (Bool-cases (j == i)) [
        | inl mover ↦ inl (rw mover appended.1)
        | inr other ↦
            let h' : 0 < count j (s.core.queue ++ i ∷ []) = rw appended.0 at h in
            inr (ground (arith, h', other, count-append j s.core.queue (i ∷ [])))
      ]
      | inr (inr (inl erased)) ↦
          let h' : 0 < count j (erase i s.core.queue) = rw erased at h in
          inr (omega (arith, h', count-erase_le i j s.core.queue))
      | inr (inr (inr (k, popped))) ↦ inr (rw popped (ground (arith, h)))
    ]

    pub put-Inv : Inv n (notify_put i s v)
    put-Inv = record {
      lock = omega (arith, inv.lock, m.lock, total-update locks n s.caller i v.caller lt);
      places = λ j.
          count_at s.caller v.caller i j linked _ _ _ _ (in_chain j (s.caller i))
            (in_chain j v.caller) (inv.places j) (m.places j)
            (omega (arith, total-update (in_chain j) n s.caller i v.caller lt));
      known = λ j. elim (Bool-cases (j == i)) [
        | inl mover ↦ rw mover m.known
        | inr other ↦ rw other (inv.known j)
      ];
      among = λ j h. elim (Bool-cases (j == i)) [
        | inl mover ↦ ground (arith, lt)
        | inr other ↦ inv.among j (rw other at h)
      ];
      announced = m.announced;
      emptied = guard_kept unpublishers v unpublishers-le inv.emptied m.emptied;
      raised = guard_kept claimers v claimers-le inv.raised m.raised;
      past = λ j h. rw m.gen (elim (queued_before j h) [
        | inl fresh ↦ omega (arith, fresh)
        | inr h' ↦ rw (aux_kept j h') (inv.past j h')
      ]);
      attended = λ j h. rw m.gen (elim (queued_before j h) [
        | inl fresh ↦ inl fresh
        | inr h' ↦ rw (aux_kept j h') (elim (inv.attended j h') [
          | inl fresh ↦ inl fresh
          | inr some_bumper ↦ inr (omega (arith, some_bumper, bumpers_kept j h))
        ])
      ]);
      in_order = rw m.gen in_order';
    }
