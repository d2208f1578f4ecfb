-- ===== src/Notify/Release.antt =====
-- src/notify.rs: a node that was popped is signaled.
use xutex.Prelude.{
  ℕ, ◌+◌, ◌≤◌, ◌<◌, ◌≡◌, ◌⊎◌, false, Bool-cases, inl, inr, refl, List, ◌∷◌, ◌==◌, if◌then◌else◌,
  arith, count, total, total-update_two, update_two, update_two-cases, weight-le-total,
}
use xutex.WaitQueue.Order.{ordered-cong}
use xutex.Notify.Steps.{NotifySystem, NotifyCaller, Told, telling, notify_node}
use xutex.Notify.Invariant.{
  Inv, Known, locks, unpublishers, claimers, bumpers, in_chain, linked, sleeps, fresh_in,
}

module _ {n : ℕ} {s : NotifySystem} (inv : Inv n s) (i : ℕ) (lt : i < n) where
  module _ (j : ℕ) (c : List ℕ) (t : Told) (here : (s.caller i).place ≡ telling (j ∷ c) t) where
    told_linked : linked (s.caller j) ≡ 1
    told_linked =
        let mine : in_chain j (s.caller i) ≡ 1 + count j c = rw (in_chain, here) (ground arith) in
        omega (
          arith,
          linked-le (s.caller j),
          inv.places j,
          mine,
          weight-le-total (in_chain j) n s.caller i lt,
        )
      where
        linked-le : (c : NotifyCaller) → linked c ≤ 1
        linked-le c = ground arith

    told_among : j < n
    told_among = inv.among j (omega (arith, told_linked))

    teller_unlinked : linked (s.caller i) ≡ 0
    teller_unlinked = rw (linked, here) refl

    apart : (i == j) ≡ false
    apart = elim (Bool-cases (i == j)) [
      | inl same ↦
          let e : i ≡ j = ground arith in
          let unlinked : linked (s.caller j) ≡ 0 = rw e at teller_unlinked in
          absurd (omega (arith, told_linked))
      | inr other ↦ other
    ]

    told_awake : sleeps t ≡ 0
    told_awake = let known : Known (s.caller i) = inv.known i in rw here at known.tells_awake

    abbrev told : NotifyCaller
    told = record (s.caller j) { told = t }

    abbrev teller : NotifyCaller
    teller = record (s.caller i) { place = telling c t }

    abbrev after : ℕ → NotifyCaller
    after = update_two s.caller i teller j told

    after-sum :
        (w : NotifyCaller → ℕ)
        → w teller + w told + total w n s.caller ≡ w (s.caller i) + w (s.caller j) + total w n after
    after-sum w = total-update_two w n s.caller i teller j told lt told_among apart

    after_cases :
        (P : ℕ → NotifyCaller → Type 0)
        → P i teller
        → P j told
        → ((x : ℕ) → (x == i) ≡ false → (x == j) ≡ false → P x (s.caller x))
        → (x : ℕ) → P x (after x)
    after_cases = update_two-cases s.caller i teller j told

    held_at : (x : ℕ) → in_chain x (s.caller i) ≡ (if x == j then 1 else 0) + in_chain x teller
    held_at x = rw (in_chain, here) refl

    after-aux : (x : ℕ) → (after x).aux ≡ (s.caller x).aux
    after-aux = after_cases (λ x c. c.aux ≡ (s.caller x).aux) refl refl (λ x other miss. refl)

    after-places : (x : ℕ) → count x s.core.queue + total (in_chain x) n after ≡ linked (after x)
    after-places =
        after_cases (λ x c. count x s.core.queue + total (in_chain x) n after ≡ linked c)
          (ground (arith, inv.places i, after-sum (in_chain i), held_at i, apart, teller_unlinked))
          (ground (arith, inv.places j, after-sum (in_chain j), held_at j, told_linked, told_awake))
          (λ x other miss. ground (arith, inv.places x, after-sum (in_chain x), held_at x))

    teller_counts :
        (locks (s.caller i) ≡ 0)
        × (bumpers (s.caller i) ≡ 0)
        × (unpublishers (s.caller i) ≡ 0)
        × (claimers (s.caller i) ≡ 0)
    teller_counts = (
      rw (locks, here) refl,
      rw (bumpers, here) refl,
      rw (unpublishers, here) refl,
      rw (claimers, here) refl,
    )

    told-Known : Known told
    told-Known = known_told (s.caller j) told_linked (inv.known j)
      where
        known_told : (b : NotifyCaller) → linked b ≡ 1 → Known b → Known (record b { told = t })
        known_told b live known = ground (arith, known.at, known.tells_awake)

    teller-Known : Known teller
    teller-Known = ground (arith, told_awake)

    pub notify_node-Inv : Inv n (notify_node i j c t s)
    unfolding notify_node
    notify_node-Inv = rw (apart, notify_node) after-Inv
      where
        part_after :
            (w : NotifyCaller → ℕ) {P : Type 0}
            → w (s.caller i) ≡ 0
            → w teller ≡ 0
            → w told ≡ w (s.caller j)
            → P ⊎ (total w n s.caller ≡ 0)
            → P ⊎ (total w n after ≡ 0)
        part_after w a b c (inl p) = inl p
        part_after w a b c (inr z) = inr (omega (arith, z, a, b, c, after-sum w))

        after-Inv : Inv n (record s { caller = after })
        after-Inv = record {
          lock = omega (arith, inv.lock, after-sum locks, teller_counts.0);
          places = after-places;
          known =
              after_cases (λ x c. Known c) teller-Known told-Known (λ x other miss. inv.known x);
          among =
              after_cases (λ x c. 0 < linked c → x < n) (λ l. lt) (λ l. told_among)
                (λ x other miss l. inv.among x l);
          announced = inv.announced;
          emptied = part_after unpublishers teller_counts.2 refl refl inv.emptied;
          raised = part_after claimers teller_counts.3 refl refl inv.raised;
          past = λ x h. rw (after-aux x) (inv.past x h);
          attended = λ x h.
              let same : total bumpers n after ≡ total bumpers n s.caller =
                omega (arith, after-sum bumpers, teller_counts.1) in
              rw (after-aux x, same) (inv.attended x h);
          in_order =
              rw
                (ordered-cong (fresh_in s.core.word.gen s.caller) (fresh_in s.core.word.gen after)
                  s.core.queue (λ x h. rw (after-aux x) refl))
                inv.in_order;
        }
