-- ===== src/Notify/Bump.antt =====
-- src/notify.rs: `notify_waiters` changes the generation, and pops the nodes of earlier ones.
use xutex.Prelude.{
  ℕ, ◌+◌, ◌%◌, ◌^◌, ◌≤◌, ◌<◌, ◌≡◌, ◌⊎◌, Bool, true, false, not, Bool-cases, inl, inr, refl, List,
  [], ◌==◌, arith, count, count_at, total, total-update, weight-le-total, update,
}
use xutex.WaitQueue.Lock.{null, held_count}
use xutex.WaitQueue.Order.{
  ordered_of_past, ordered_of_all_in, ordered-cong, all_in, all_in-member, count-split,
  drop_while-fresh,
}
use xutex.WaitQueue.Popped.{take_while, drop_while}
use xutex.Notify.Steps.{
  NotifySystem, NotifyCaller, NotifyPlace, idle, bumping, all_locking, all_popping, unlocking,
  tells, by_all, bump, pop_stale, notify_view, notify_put,
}
use xutex.Notify.Invariant.{
  Inv, Known, Announced, locks, unpublishers, claimers, bumpers, in_chain, linked, fresh_in,
}
use xutex.Notify.Kept.{alone, unpublishers-le, claimers-le}

module _ {n : ℕ} {s : NotifySystem} (inv : Inv n s) (i : ℕ) (lt : i < n) where
  -- A weight that the mover does not add to.
  part_kept :
      (w : NotifyCaller → ℕ) (a : NotifyCaller) {P : Type 0}
      → w a ≤ w (s.caller i)
      → P ⊎ (total w n s.caller ≡ 0)
      → P ⊎ (total w n (update s.caller i a) ≡ 0)
  part_kept w a less (inl p) = inl p
  part_kept w a less (inr z) = inr (omega (arith, z, less, total-update w n s.caller i a lt))

  module _ (p : NotifyPlace) (here : (s.caller i).place ≡ bumping) where
    abbrev bumper : NotifyCaller
    bumper = record (s.caller i) { place = p }

    abbrev Reached : Type 0
    Reached = ((p ≡ idle) × (s.core.queue ≡ [])) ⊎ (p ≡ all_locking)

    bumping_counts :
        (linked (s.caller i) ≡ 0)
        × (locks (s.caller i) ≡ 0)
        × (unpublishers (s.caller i) ≡ 0)
        × (claimers (s.caller i) ≡ 0)
        × (bumpers (s.caller i) ≡ 0)
    bumping_counts = (
      rw (linked, here) refl,
      rw (locks, here) refl,
      rw (unpublishers, here) refl,
      rw (claimers, here) refl,
      rw (bumpers, here) refl,
    )

    bumping_unchained : (j : ℕ) → in_chain j (s.caller i) ≡ 0
    bumping_unchained j = rw (in_chain, here) refl

    bumper_counts :
        Reached
        → (linked bumper ≡ 0)
          × (locks bumper ≡ 0)
          × (unpublishers bumper ≡ 0)
          × (claimers bumper ≡ 0)
          × ((s.core.queue ≡ []) ⊎ (bumpers bumper ≡ 1))
    bumper_counts (inl (e, free)) = (rw e refl, rw e refl, rw e refl, rw e refl, inl free)
    bumper_counts (inr e) = (rw e refl, rw e refl, rw e refl, rw e refl, inr (rw e refl))

    bumper_unchained : Reached → (j : ℕ) → in_chain j bumper ≡ 0
    bumper_unchained (inl (e, free)) j = rw e refl
    bumper_unchained (inr e) j = rw e refl

    bumper-Known : Reached → Known bumper
    bumper-Known (inl (e, free)) = rw e (ground arith)
    bumper-Known (inr e) = rw e (ground arith)

    still_aux : (j : ℕ) → (update s.caller i bumper j).aux ≡ (s.caller j).aux
    still_aux j = ground arith

    bumped-Inv :
        Reached
        → Inv n (
            notify_put i s (record {
              core = record s.core { word = record s.core.word { gen = s.core.word.gen + 1 } };
              caller = bumper;
            }))
    bumped-Inv which =
        let b = bumper_counts which in
        record {
          lock =
              omega
                (arith, inv.lock, bumping_counts.1, b.1, total-update locks n s.caller i bumper lt);
          places = λ j.
              count_at s.caller bumper i j linked _ _ _ _ (in_chain j (s.caller i))
                (in_chain j bumper) (inv.places j)
                (ground
                  (arith, bumping_counts.0, b.0, bumping_unchained j, bumper_unchained which j))
                (omega (arith, total-update (in_chain j) n s.caller i bumper lt));
          known = λ j. elim (Bool-cases (j == i)) [
            | inl mover ↦ rw mover (bumper-Known which)
            | inr other ↦ rw other (inv.known j)
          ];
          among = λ j h. elim (Bool-cases (j == i)) [
            | inl mover ↦ ground (arith, lt)
            | inr other ↦ inv.among j (rw other at h)
          ];
          announced = record {
            flagged = inv.announced.flagged;
            unpublished = inv.announced.unpublished;
          };
          emptied = part_kept unpublishers bumper (omega (arith, b.2)) inv.emptied;
          raised = part_kept claimers bumper (omega (arith, b.3)) inv.raised;
          past = λ j h. rw (still_aux j) (omega (arith, inv.past j h));
          attended = λ j h. elim b.4 [
            | inl free ↦ let h' : 0 < count j [] = rw free at h in absurd (omega (arith, h'))
            | inr one ↦
                inr (
                  omega (arith, one, bumping_counts.4, total-update bumpers n s.caller i bumper lt))
          ];
          in_order =
              ordered_of_past (fresh_in (s.core.word.gen + 1) (update s.caller i bumper))
                s.core.queue λ j h. rw (still_aux j) (ground (arith, inv.past j h));
        }

  module _ (here : (s.caller i).place ≡ bumping) (small : s.core.word.gen + 1 < 2 ^ 61) where
    pub bump-Inv : Inv n (notify_put i s (bump (notify_view i s)))
    unfolding bump
    bump-Inv =
        let next : (s.core.word.gen + 1) % 2 ^ 61 ≡ s.core.word.gen + 1 = ground arith in
        elim (Bool-cases s.core.word.has_queue) [
          | inl flag ↦
              let done = bumped-Inv all_locking here (inr refl) in rw (next, flag) (rw flag at done)
          | inr clear ↦
              let done = bumped-Inv idle here (inl (refl, empty_lem clear)) in
              rw (next, clear) (rw clear at done)
        ]
      where
        empty_lem : s.core.word.has_queue ≡ false → s.core.queue ≡ []
        empty_lem clear = elim inv.announced.flagged [
          | inl free ↦ free
          | inr announced ↦ absurd (ground (arith, announced.0, clear))
        ]

  module _ (here : (s.caller i).place ≡ all_popping) where
    abbrev stale : ℕ → Bool
    stale j = not ((s.caller j).aux == s.core.word.gen)

    abbrev popper : NotifyCaller
    popper = record (s.caller i) {
      place = unlocking (tells (take_while stale s.core.queue) by_all);
    }

    abbrev rest : List ℕ
    rest = drop_while stale s.core.queue

    popped_aux : (j : ℕ) → (update s.caller i popper j).aux ≡ (s.caller j).aux
    popped_aux j = ground arith

    rest_fresh : all_in (fresh_in s.core.word.gen s.caller) rest ≡ true
    rest_fresh =
        drop_while-fresh (fresh_in s.core.word.gen s.caller) stale s.core.queue inv.in_order
          λ j h e. ground (arith, e)

    rest_fresh_at : (j : ℕ) → 0 < count j rest → (s.caller j).aux ≡ s.core.word.gen
    rest_fresh_at j h =
        let accepted = all_in-member (fresh_in s.core.word.gen s.caller) rest j rest_fresh h in
        ground (arith, accepted)

    popper_counts : (linked (s.caller i) ≡ 0) × (locks (s.caller i) ≡ 1)
    popper_counts = (rw (linked, here) refl, rw (locks, here) refl)

    popper_unchained : (j : ℕ) → in_chain j (s.caller i) ≡ 0
    popper_unchained j = rw (in_chain, here) refl

    tag_held : s.core.tag ≡ null → locks (s.caller i) ≡ 0
    tag_held e =
        let most = weight-le-total locks n s.caller i lt in
        let free : held_count s.core.tag ≡ 0 = rw e refl in omega (arith, inv.lock, most, free)

    rest-Announced : Announced (record s.core { queue = rest })
    rest-Announced = record {
      flagged = elim inv.announced.flagged [
        | inl free ↦ inl (rw free refl)
        | inr announced ↦ inr announced
      ];
      unpublished = λ e. absurd (omega (arith, tag_held e, popper_counts.1));
    }

    pub pop_stale-Inv : Inv n (notify_put i s (pop_stale (λ j. (s.caller j).aux) (notify_view i s)))
    unfolding pop_stale
    pop_stale-Inv = record {
      lock = omega (arith, inv.lock, popper_counts.1, total-update locks n s.caller i popper lt);
      places = λ j.
          count_at s.caller popper i j linked _ _ _ _ (in_chain j (s.caller i)) (in_chain j popper)
            (inv.places j)
            (ground (arith, popper_counts.0, popper_unchained j, count-split stale j s.core.queue))
            (omega (arith, total-update (in_chain j) n s.caller i popper lt));
      known = λ j. elim (Bool-cases (j == i)) [
        | inl mover ↦ rw mover (ground arith)
        | inr other ↦ rw other (inv.known j)
      ];
      among = λ j h. elim (Bool-cases (j == i)) [
        | inl mover ↦ ground (arith, lt)
        | inr other ↦ inv.among j (rw other at h)
      ];
      announced = rest-Announced;
      emptied = inr (alone inv i lt unpublishers popper unpublishers-le popper_counts.1 refl);
      raised = inr (alone inv i lt claimers popper claimers-le popper_counts.1 refl);
      past = λ j h. rw (popped_aux j) (omega (arith, rest_fresh_at j h));
      attended = λ j h. inl (rw (popped_aux j) (rest_fresh_at j h));
      in_order =
          rw
            (ordered-cong (fresh_in s.core.word.gen s.caller)
              (fresh_in s.core.word.gen (update s.caller i popper)) rest
              (λ j h. rw (popped_aux j) refl))
            (ordered_of_all_in (fresh_in s.core.word.gen s.caller) rest rest_fresh);
    }
