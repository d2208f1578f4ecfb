-- ===== src/Barrier/Release.antt =====
-- src/barrier.rs: a node that was popped is released.
use xutex.Prelude.{
  ℕ, ◌+◌, ◌≤◌, ◌<◌, ◌≡◌, true, false, Bool-cases, inl, inr, refl, List, ◌∷◌, ◌==◌, if◌then◌else◌,
  arith, count, total, total-update_two, update_two, update_two-cases, weight-le-total,
}
use xutex.Barrier.Steps.{BarrierSystem, BarrierCaller, telling, release_node}
use xutex.Barrier.Invariant.{
  Inv, Known, counts, leaders, locks, in_chain, linked, round_before, fresh_in,
}
use xutex.WaitQueue.Order.{ordered-cong}

module _ {n size : ℕ} {s : BarrierSystem} (inv : Inv n size s) (i : ℕ) (lt : i < n) where
  module _ (j : ℕ) (c : List ℕ) (here : (s.caller i).place ≡ telling (j ∷ c)) where
    told_linked : linked (s.caller j) ≡ 1
    told_linked =
        let mine : in_chain j (s.caller i) ≡ 1 + count j c = rw (in_chain, here) (ground arith) in
        omega (
          arith,
          linked-le (s.caller j),
          inv.places j,
          mine,
          weight-le-total (in_chain j) n s.caller i lt,
        )
      where
        linked-le : (c : BarrierCaller) → linked c ≤ 1
        linked-le c = ground arith

    told_among : j < n
    told_among = inv.among j (omega (arith, told_linked))

    told_past : (s.caller j).aux ≡ round_before s.core.state.round
    told_past =
        let mine : in_chain j (s.caller i) ≡ 1 + count j c = rw (in_chain, here) (ground arith) in
        inv.released_past j (omega (arith, mine, weight-le-total (in_chain j) n s.caller i lt))

    teller_unlinked : linked (s.caller i) ≡ 0
    teller_unlinked = rw (linked, here) refl

    pub apart : (i == j) ≡ false
    apart = elim (Bool-cases (i == j)) [
      | inl same ↦
          let e : i ≡ j = ground arith in
          let unlinked : linked (s.caller j) ≡ 0 = rw e at teller_unlinked in
          absurd (omega (arith, told_linked))
      | inr other ↦ other
    ]

    abbrev told : BarrierCaller
    told = record (s.caller j) { released = true }

    abbrev teller : BarrierCaller
    teller = record (s.caller i) { place = telling c }

    abbrev after : ℕ → BarrierCaller
    after = update_two s.caller i teller j told

    after-sum :
        (w : BarrierCaller → ℕ)
        → w teller + w told + total w n s.caller ≡ w (s.caller i) + w (s.caller j) + total w n after
    after-sum w = total-update_two w n s.caller i teller j told lt told_among apart

    after_cases :
        (P : ℕ → BarrierCaller → Type 0)
        → P i teller
        → P j told
        → ((x : ℕ) → (x == i) ≡ false → (x == j) ≡ false → P x (s.caller x))
        → (x : ℕ) → P x (after x)
    after_cases = update_two-cases s.caller i teller j told

    held_at : (x : ℕ) → in_chain x (s.caller i) ≡ (if x == j then 1 else 0) + in_chain x teller
    held_at x = rw (in_chain, here) refl

    after-aux : (x : ℕ) → (after x).aux ≡ (s.caller x).aux
    after-aux = after_cases (λ x c. c.aux ≡ (s.caller x).aux) refl refl (λ x other miss. refl)

    after-places : (x : ℕ) → count x s.core.queue + total (in_chain x) n after ≡ linked (after x)
    after-places =
        after_cases (λ x c. count x s.core.queue + total (in_chain x) n after ≡ linked c)
          (ground (arith, inv.places i, after-sum (in_chain i), held_at i, apart, teller_unlinked))
          (ground (arith, inv.places j, after-sum (in_chain j), held_at j, told_linked))
          (λ x other miss. ground (arith, inv.places x, after-sum (in_chain x), held_at x))

    teller_counts :
        (counts s.core.state.round (s.caller i) ≡ 0)
        × (locks (s.caller i) ≡ 0)
        × (leaders (s.caller i) ≡ 0)
    teller_counts = (rw (counts, here) refl, rw (locks, here) refl, rw (leaders, here) refl)

    told-Known : Known s.core.state.round told
    told-Known = known_told (s.caller j) told_linked told_past (inv.known j told_among)
      where
        known_told :
            (b : BarrierCaller)
            → linked b ≡ 1
            → b.aux ≡ round_before s.core.state.round
            → Known s.core.state.round b
            → Known s.core.state.round (record b { released = true })
        known_told b live past known = ground (arith, known.at)

    after-leaders : total leaders n after ≡ total leaders n s.caller
    after-leaders = omega (arith, after-sum leaders, teller_counts.2)

    pub release_node-Inv : Inv n size (release_node i j c s)
    unfolding release_node
    release_node-Inv = rw (apart, release_node) after-Inv
      where
        after-Inv : Inv n size (record s { caller = after })
        after-Inv = record {
          bound = inv.bound;
          few = inv.few;
          arrived =
              omega (arith, inv.arrived, after-sum (counts s.core.state.round), teller_counts.0);
          one_leader = omega (arith, inv.one_leader, after-leaders);
          lock = omega (arith, inv.lock, after-sum locks, teller_counts.1);
          places = after-places;
          known =
              after_cases (λ x c. x < n → Known s.core.state.round c) (λ p. ground arith)
                (λ p. told-Known) (λ x other miss p. inv.known x p);
          among =
              after_cases (λ x c. 0 < linked c → x < n) (λ l. lt) (λ l. told_among)
                (λ x other miss l. inv.among x l);
          unpublished = inv.unpublished;
          released_past = λ x h.
              rw (after-aux x)
                (inv.released_past x (ground (arith, h, after-sum (in_chain x), held_at x)));
          attended = λ x h. rw (after-aux x, after-leaders) (inv.attended x h);
          in_order =
              rw
                (ordered-cong (fresh_in s.core.state.round s.caller)
                  (fresh_in s.core.state.round after) s.core.queue (λ x h. rw (after-aux x) refl))
                inv.in_order;
        }
