-- ===== src/Semaphore/Invariant/Local.antt =====
-- src/semaphore.rs: a step of one caller that touches no node but its own keeps the invariant.
use xutex.Prelude.{
  ℕ, ◌<◌, ◌≤◌, ◌≡◌, true, refl, ◌∙◌, inl, inr, List, [], ◌⊎◌, ◌==◌, arith, Bool-cases, has,
  total-update, two-le-total, count_at, weight-le-total, update, count-pos_of_has,
}
use xutex.Semaphore.State.{Local, signaled, Pc, Tag, new_task}
use xutex.Semaphore.System.{System, local, restore}
use xutex.Semaphore.Invariant.Defs.{
  Inv, Before, Moved, weight, locks, in_chain, linked, chain, chain_value, clears, lock_count,
  held_count,
}

pub lock_of_clears : (p : Pc) → clears p ≡ true → lock_count p ≡ 1
lock_of_clears p c = ground arith

pub held_count-le : (t : Tag) → held_count t ≤ 1
held_count-le t = ground arith

module _ {n : ℕ} {s : System} (inv : Inv n s) (i : ℕ) (lt : i < n) where
  pub Inv-Before : Before i (local i s)
  Inv-Before = record {
    permits = omega (arith, inv.permits, weight-le-total weight n s.task i lt);
    lock = omega (arith, inv.lock, weight-le-total locks n s.task i lt);
    places = omega (arith, inv.places i, weight-le-total (in_chain i) n s.task i lt);
    sound = inv.sound i;
    unpublished = inv.unpublished;
    cleared = inv.cleared i lt;
    bounded = inv.bounded;
  }

  -- The node of a caller that is in somebody's chain is linked.
  linked_of_chain : (k j : ℕ) → k < n → has j (chain (s.task k).pc) ≡ true → 0 < linked (s.task j)
  linked_of_chain k j p h = omega (
    arith,
    inv.places j,
    weight-le-total (in_chain j) n s.task k p,
    count-pos_of_has j (chain (s.task k).pc) h,
  )

  aux_kept :
      {a : ℕ}
      → (a ≡ (s.task i).aux) ⊎ (linked (s.task i) ≡ 0)
      → (s.task i).aux ≡ 0
      → 0 < linked (s.task i)
      → a ≡ 0
  aux_kept (inl same) old live = omega arith
  aux_kept (inr gone) old live = absurd (omega arith)

  still_empty :
      {q : List ℕ}
      → (q ≡ s.core.queue) ⊎ ((q ≡ []) ⊎ (locks (s.task i) ≡ 1))
      → s.core.queue ≡ []
      → locks (s.task i) ≡ 0
      → q ≡ []
  still_empty (inl same) old free = same ∙ old
  still_empty (inr (inl nil)) old free = nil
  still_empty (inr (inr mine)) old free = absurd (omega arith)

  module _ {l : Local} (m : Moved i (local i s) l) where
    served_old :
        (k j : ℕ)
        → k < n
        → chain_value (s.task k).pc ≡ signaled
        → has j (chain (s.task k).pc) ≡ true
        → (update s.task i l.task j).aux ≡ 0
    served_old k j p v h = elim (Bool-cases (j == i)) [
      | inl mover ↦
          let same : j ≡ i = ground arith in
          let old : (s.task i).aux ≡ 0 = rw same at (inv.served k j p v h) in
          let live : 0 < linked (s.task i) = rw same at (linked_of_chain k j p h) in
          rw mover (aux_kept m.aux old live)
      | inr other ↦ rw other (inv.served k j p v h)
    ]

    served_after :
        (k j : ℕ)
        → k < n
        → chain_value (update s.task i l.task k).pc ≡ signaled
        → has j (chain (update s.task i l.task k).pc) ≡ true
        → (update s.task i l.task j).aux ≡ 0
    served_after k j p v h = elim (Bool-cases (k == i)) [
      | inl mover ↦
          let (same, value) = m.served (rw mover at v) in
          served_old i j lt value (rw (← same) (rw mover at h))
      | inr other ↦ served_old k j p (rw other at v) (rw other at h)
    ]

    cleared_after :
        (k : ℕ) → k < n → clears (update s.task i l.task k).pc ≡ true → l.core.queue ≡ []
    cleared_after k p c = elim (Bool-cases (k == i)) [
      | inl mover ↦ m.cleared (rw mover at c)
      | inr other ↦
          let clearing : clears (s.task k).pc ≡ true = rw other at c in
          still_empty m.queue (inv.cleared k p clearing) (
            omega (
              arith,
              inv.lock,
              held_count-le (s.core.tag),
              lock_of_clears (s.task k).pc clearing,
              two-le-total locks n s.task i k new_task refl lt p other,
            ))
    ]

    pub Inv-Moved : Inv n (restore i s l)
    Inv-Moved = record {
      permits = omega (arith, inv.permits, m.permits, total-update weight n s.task i l.task lt);
      lock = omega (arith, inv.lock, m.lock, total-update locks n s.task i l.task lt);
      places = λ j.
          count_at s.task l.task i j linked _ _ _ _ _ _ (inv.places j) (m.places j)
            (omega (arith, total-update (in_chain j) n s.task i l.task lt));
      sound = λ j. elim (Bool-cases (j == i)) [
        | inl mover ↦ rw mover m.sound
        | inr other ↦ rw other (inv.sound j)
      ];
      served = served_after;
      unpublished = m.unpublished;
      cleared = cleared_after;
      among = λ j h. elim (Bool-cases (j == i)) [
        | inl mover ↦ ground (arith, lt)
        | inr other ↦ inv.among j (rw other at h)
      ];
      bounded = m.bounded;
    }
