-- ===== src/Barrier/PopRound.antt =====
-- src/barrier.rs: a leader pops the waiters of its round.
use xutex.Prelude.{
  ℕ, ◌<◌, ◌≡◌, Bool, true, Bool-cases, inl, inr, refl, List, ◌==◌, arith, count, count_at, total,
  total-update, weight-le-total, update,
}
use xutex.WaitQueue.Popped.{take_while, drop_while}
use xutex.WaitQueue.Lock.{null, held_count}
use xutex.Barrier.Steps.{
  BarrierSystem, BarrierCaller, barrier_view, barrier_put, release_popping, unlocking, tells,
  pop_round,
}
use xutex.Barrier.Invariant.{
  Inv, KnownAt, counts, leaders, locks, in_chain, linked, round_before, fresh_in,
}
use xutex.WaitQueue.Order.{
  all_in, ordered_of_all_in, ordered-cong, count-split, take_while-accepts, drop_while-fresh,
  all_in-member,
}

module _ {n size : ℕ} {s : BarrierSystem} (inv : Inv n size s) (i : ℕ) (lt : i < n) where
  module _ (g : ℕ) (here : (s.caller i).place ≡ release_popping g) where
    abbrev of_round : ℕ → Bool
    of_round j = (s.caller j).aux == g

    abbrev popper : BarrierCaller
    popper = record (s.caller i) { place = unlocking (tells (take_while of_round s.core.queue)) }

    abbrev rest : List ℕ
    rest = drop_while of_round s.core.queue

    past_round : g ≡ round_before s.core.state.round
    past_round =
        let known : KnownAt s.core.state.round (s.caller i).aux (s.caller i).place =
          (inv.known i lt).at in
        rw here at known

    aux_same : (j : ℕ) → (update s.caller i popper j).aux ≡ (s.caller j).aux
    aux_same j = ground arith

    rest_fresh : all_in (fresh_in s.core.state.round s.caller) rest ≡ true
    rest_fresh =
        drop_while-fresh (fresh_in s.core.state.round s.caller) of_round s.core.queue inv.in_order
          λ j h stale. ground (arith, inv.attended j h, stale, past_round)

    rest_fresh_at : (j : ℕ) → 0 < count j rest → (s.caller j).aux ≡ s.core.state.round
    rest_fresh_at j h =
        let accepted = all_in-member (fresh_in s.core.state.round s.caller) rest j rest_fresh h in
        ground (arith, accepted)

    popped_past :
        (j : ℕ)
        → 0 < total (in_chain j) n (update s.caller i popper)
        → (s.caller j).aux ≡ round_before s.core.state.round
    popped_past j h = elim (Bool-cases (total (in_chain j) n s.caller == 0)) [
      | inl unchained ↦
          let mine : in_chain j (s.caller i) ≡ 0 = rw (in_chain, here) refl in
          let sum = total-update (in_chain j) n s.caller i popper lt in
          let accepted =
            take_while-accepts of_round j s.core.queue (ground (arith, sum, mine, h, unchained)) in
          ground (arith, accepted, past_round)
      | inr chained ↦ inv.released_past j (ground (arith, chained))
    ]

    popper_counts :
        (counts s.core.state.round (s.caller i) ≡ 0)
        × (linked (s.caller i) ≡ 0)
        × (locks (s.caller i) ≡ 1)
    popper_counts = (rw (counts, here) refl, rw (linked, here) refl, rw (locks, here) refl)

    popper_unchained : (j : ℕ) → in_chain j (s.caller i) ≡ 0
    popper_unchained j = rw (in_chain, here) refl

    tag_held : s.core.tag ≡ null → locks (s.caller i) ≡ 0
    tag_held e =
        let most = weight-le-total locks n s.caller i lt in
        let free : held_count s.core.tag ≡ 0 = rw e refl in omega (arith, inv.lock, most, free)

    pub pop_round-Inv :
        Inv n size (barrier_put i s (pop_round (λ j. (s.caller j).aux) g (barrier_view i s)))
    unfolding pop_round
    pop_round-Inv = record {
      bound = inv.bound;
      few = inv.few;
      arrived = omega (
        arith,
        inv.arrived,
        popper_counts.0,
        total-update (counts s.core.state.round) n s.caller i popper lt,
      );
      one_leader = omega (arith, inv.one_leader, total-update leaders n s.caller i popper lt);
      lock = omega (arith, inv.lock, popper_counts.2, total-update locks n s.caller i popper lt);
      places = λ j.
          count_at s.caller popper i j linked _ _ _ _ (in_chain j (s.caller i)) (in_chain j popper)
            (inv.places j)
            (ground
              (arith, popper_counts.1, popper_unchained j, count-split of_round j s.core.queue))
            (omega (arith, total-update (in_chain j) n s.caller i popper lt));
      known = λ j p. elim (Bool-cases (j == i)) [
        | inl mover ↦ rw mover (ground arith)
        | inr other ↦ rw other (inv.known j p)
      ];
      among = λ j h. elim (Bool-cases (j == i)) [
        | inl mover ↦ ground (arith, lt)
        | inr other ↦ inv.among j (rw other at h)
      ];
      unpublished = λ e. absurd (omega (arith, tag_held e, popper_counts.2));
      released_past = λ j h. rw (aux_same j) (popped_past j h);
      attended = λ j h. inl (rw (aux_same j) (rest_fresh_at j h));
      in_order =
          rw
            (ordered-cong (fresh_in s.core.state.round s.caller)
              (fresh_in s.core.state.round (update s.caller i popper)) rest
              (λ j h. rw (aux_same j) refl))
            (ordered_of_all_in (fresh_in s.core.state.round s.caller) rest rest_fresh);
    }
