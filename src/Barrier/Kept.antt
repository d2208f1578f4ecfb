-- ===== src/Barrier/Kept.antt =====
-- src/barrier.rs: the steps of a caller that touch no node but its own, pop nothing and complete no
-- round keep the invariant.
use xutex.Prelude.{
  ℕ, ◌≤◌, ◌<◌, ◌≡◌, ◌⊎◌, true, Bool-cases, inl, inr, refl, [], ◌==◌, arith, count, erase, count_at,
  total, total-update, weight-le-total, update, ==_refl,
}
use xutex.Barrier.Steps.{BarrierSystem, BarrierView, barrier_view, barrier_put}
use xutex.Barrier.Invariant.{
  Inv, Before, Moved, counts, leaders, locks, in_chain, linked, round_before, fresh_in,
}
use xutex.Barrier.Moves.{round_before-apart}
use xutex.WaitQueue.Order.{ordered, ordered-append, ordered-erase, ordered-cong, count-erase_le}

module _ {n size : ℕ} {s : BarrierSystem} (inv : Inv n size s) (i : ℕ) (lt : i < n) where
  -- A node of the round is in no chain.
  unchained : (s.caller i).aux ≡ s.core.state.round → total (in_chain i) n s.caller ≡ 0
  unchained e = elim (Bool-cases (total (in_chain i) n s.caller == 0)) [
    | inl free ↦ ground arith
    | inr chained ↦
        let past = inv.released_past i (ground arith) in
        let apart = round_before-apart s.core.state.round inv.bound in
        absurd (ground (arith, past, apart, e))
  ]

  pub view-Before : Before i size (barrier_view i s)
  view-Before = record {
    bound = inv.bound;
    few = inv.few;
    arrived =
        omega (arith, inv.arrived, weight-le-total (counts s.core.state.round) n s.caller i lt);
    lock = omega (arith, inv.lock, weight-le-total locks n s.caller i lt);
    places = omega (arith, inv.places i, weight-le-total (in_chain i) n s.caller i lt);
    unchained = λ e. omega (arith, inv.places i, unchained e);
    known = inv.known i lt;
    unpublished = inv.unpublished;
  }

  module _ {v : BarrierView} (m : Moved i size (barrier_view i s) v) where
    -- A linked node stores the round that it stored.
    stores_kept : 0 < linked (s.caller i) → v.caller.aux ≡ (s.caller i).aux
    stores_kept l = elim m.stores [ inl same ↦ same | inr fresh ↦ absurd (omega (arith, fresh.0)) ]

    aux_kept :
        (j : ℕ) → 0 < linked (s.caller j) → (update s.caller i v.caller j).aux ≡ (s.caller j).aux
    aux_kept j l = elim (Bool-cases (j == i)) [
      | inl mover ↦
          let e : j ≡ i = ground arith in
          let l' : 0 < linked (s.caller i) = rw e at l in rw (mover, e) (stores_kept l')
      | inr other ↦ rw other refl
    ]

    linked_of_queued : (j : ℕ) → 0 < count j s.core.queue → 0 < linked (s.caller j)
    linked_of_queued j h = omega (arith, inv.places j)

    kept_order :
        ordered (fresh_in s.core.state.round (update s.caller i v.caller)) s.core.queue ≡ true
    kept_order =
        rw
          (ordered-cong (fresh_in s.core.state.round s.caller)
            (fresh_in s.core.state.round (update s.caller i v.caller)) s.core.queue
            (λ j h. rw (aux_kept j (linked_of_queued j h)) refl))
          inv.in_order

    in_order' :
        ordered (fresh_in s.core.state.round (update s.caller i v.caller)) v.core.queue ≡ true
    in_order' = elim m.queue [
      | inl same ↦ rw same kept_order
      | inr (inl appended) ↦ rw appended.0 (
          ordered-append (fresh_in s.core.state.round (update s.caller i v.caller)) s.core.queue i
            kept_order (rw (==_refl i, appended.1) (==_refl s.core.state.round)))
      | inr (inr erased) ↦ rw erased (
          ordered-erase (fresh_in s.core.state.round (update s.caller i v.caller)) s.core.queue i
            kept_order)
    ]

    leaders_kept :
        (j : ℕ)
        → 0 < count j v.core.queue
        → total leaders n s.caller ≤ total leaders n (update s.caller i v.caller)
    leaders_kept j h = elim m.attended [
      | inl free ↦ let h' : 0 < count j [] = rw free at h in absurd (omega (arith, h'))
      | inr more ↦ omega (arith, more, total-update leaders n s.caller i v.caller lt)
    ]

    -- The mover's node, if it is queued, is of the round or was queued already.
    queued_mover :
        0 < count i v.core.queue
        → (v.caller.aux ≡ s.core.state.round)
          ⊎ ((v.caller.aux ≡ (s.caller i).aux) × (0 < count i s.core.queue))
    queued_mover h = elim m.stores [
      | inr fresh ↦ inl fresh.1
      | inl same ↦ elim m.queue [
        | inl e ↦ inr (same, rw e at h)
        | inr (inl appended) ↦ inl appended.1
        | inr (inr erased) ↦
            let h' : 0 < count i (erase i s.core.queue) = rw erased at h in
            inr (same, omega (arith, h', count-erase_le i i s.core.queue))
      ]
    ]

    attended' :
        (j : ℕ)
        → 0 < count j v.core.queue
        → ((update s.caller i v.caller j).aux ≡ s.core.state.round)
          ⊎ (((update s.caller i v.caller j).aux ≡ round_before s.core.state.round)
              × (0 < total leaders n (update s.caller i v.caller)))
    attended' j h = elim (Bool-cases (j == i)) [
      | inl mover ↦
          let e : j ≡ i = ground arith in
          let h' : 0 < count i v.core.queue = rw e at h in
          rw mover (ground (arith, queued_mover h', inv.attended i, leaders_kept j h))
      | inr other ↦ rw other (ground (arith, inv.attended j, m.places j, other, leaders_kept j h))
    ]

    pub put-Inv : Inv n size (barrier_put i s v)
    put-Inv = record {
      bound = omega (arith, m.round, inv.bound);
      few = m.few;
      arrived = rw m.round (
          omega (
            arith,
            inv.arrived,
            m.arrived,
            total-update (counts s.core.state.round) n s.caller i v.caller lt,
          ));
      one_leader =
          omega
            (arith, inv.one_leader, m.leaders_le, total-update leaders n s.caller i v.caller lt);
      lock = omega (arith, inv.lock, m.lock, total-update locks n s.caller i v.caller lt);
      places = λ j.
          count_at s.caller v.caller i j linked _ _ _ _ (in_chain j (s.caller i))
            (in_chain j v.caller) (inv.places j) (omega (arith, m.places j, m.chains j))
            (omega (arith, total-update (in_chain j) n s.caller i v.caller lt));
      known = λ j p. elim (Bool-cases (j == i)) [
        | inl mover ↦ rw (m.round, mover) m.known
        | inr other ↦ rw (m.round, other) (inv.known j p)
      ];
      among = λ j h. elim (Bool-cases (j == i)) [
        | inl mover ↦ ground (arith, lt)
        | inr other ↦ inv.among j (rw other at h)
      ];
      unpublished = m.unpublished;
      released_past = λ j h.
          let before : 0 < total (in_chain j) n s.caller =
            omega (arith, h, m.chains j, total-update (in_chain j) n s.caller i v.caller lt) in
          rw (m.round, aux_kept j (omega (arith, before, inv.places j)))
            (inv.released_past j before);
      attended = λ j h. rw m.round (attended' j h);
      in_order = rw m.round in_order';
    }
