-- ===== src/Barrier/Complete.antt =====
-- src/barrier.rs: the last arrival of a round, when there are no more callers than the barrier's size.
use xutex.Prelude.{
  ℕ, ◌+◌, ◌^◌, ◌≤◌, ◌<◌, ◌≡◌, Bool, true, false, Bool-cases, inl, inr, refl, ◌==◌, ◌&&◌, not, leb,
  arith, count, count_at, total, total-update, total-eq-zero, all_but_one, update, ==_refl,
}
use xutex.Barrier.Steps.{
  Rounds, BarrierSystem, BarrierCaller, BarrierView, barrier_put, arriving, releasing, parked,
  follows, round_after, same_rounds, arrive_step,
}
use xutex.Barrier.Invariant.{
  Inv, Known, counts, leaders, locks, in_chain, linked, round_before, fresh_in,
}
use xutex.Barrier.Moves.{round_before-apart}
use xutex.WaitQueue.Order.{ordered_of_past}

round_before-after : (r : ℕ) → r < 2 ^ 32 → round_before (round_after r) ≡ r
round_before-after r small = ground arith

round_after-apart : (r : ℕ) → r < 2 ^ 32 → (r == round_after r) ≡ false
round_after-apart r small = ground arith

counts-le : (r : ℕ) (c : BarrierCaller) → counts r c ≤ 1
counts-le r c = ground arith

-- A caller that counts in the round knows of the next one what it must.
counted-Known :
    (r : ℕ) (c : BarrierCaller) → r < 2 ^ 32 → counts r c ≡ 1 → Known r c → Known (round_after r) c
counted-Known r c small one known = ground (
  arith,
  round_before-after r small,
  round_before-apart r small,
  known.at,
  known.over,
  known.unreleased,
)

counted_rest :
    (r : ℕ) (c : BarrierCaller)
    → r < 2 ^ 32
    → counts r c ≡ 1
    → (counts (round_after r) c ≡ 0) × (leaders c ≡ 0)
counted_rest r c small one = (ground (arith, round_after-apart r small), ground arith)

counted_unchained : (r : ℕ) (c : BarrierCaller) (j : ℕ) → counts r c ≡ 1 → in_chain j c ≡ 0
counted_unchained r c j one = ground arith

counted_aux : (r : ℕ) (c : BarrierCaller) → counts r c ≡ 1 → 0 < linked c → Known r c → c.aux ≡ r
counted_aux r c one live known = ground (arith, known.at)

-- The exchange of a last arrival.
pub arrive_step-completing :
    (w : Bool) (size : ℕ) (cur : Rounds) (v : BarrierView)
    → (not w && same_rounds v.core.state cur) ≡ true
    → leb size (cur.arrivals + 1) ≡ true
    → arrive_step w size cur v ≡ record {
      core = record v.core {
        state = record { round = round_after v.core.state.round; arrivals = 0 };
      };
      caller = record v.caller { place = releasing v.core.state.round };
    }
unfolding arrive_step
arrive_step-completing w size cur v e l =
    let same : cur.round ≡ v.core.state.round = ground arith in rw (e, l, same) refl

module _ {n size : ℕ} {s : BarrierSystem} (inv : Inv n size s) (i : ℕ) (lt : i < n)
    (enough : n ≤ size) where
  module _ (cur : Rounds) (here : (s.caller i).place ≡ arriving cur)
      (last : size ≤ s.core.state.arrivals + 1) where
    abbrev r : ℕ
    r = s.core.state.round

    abbrev completer : BarrierCaller
    completer = record (s.caller i) { place = releasing r }

    abbrev completed : BarrierSystem
    completed = barrier_put i s (record {
      core = record s.core { state = record { round = round_after r; arrivals = 0 } };
      caller = completer;
    })

    completer_counts :
        (counts r (s.caller i) ≡ 0)
        × (linked (s.caller i) ≡ 0)
        × (locks (s.caller i) ≡ 0)
        × (leaders (s.caller i) ≡ 0)
    completer_counts = (
      rw (counts, here) refl,
      rw (linked, here) refl,
      rw (locks, here) refl,
      rw (leaders, here) refl,
    )

    completer_unchained : (j : ℕ) → in_chain j (s.caller i) ≡ 0
    completer_unchained j = rw (in_chain, here) refl

    -- Everyone else has arrived.
    counted : (j : ℕ) → j < n → (j == i) ≡ false → counts r (s.caller j) ≡ 1
    counted j p other =
        all_but_one (counts r) n s.caller i j
          (record { place = parked r; released = false; aux = 0; result = follows }) (counts-le r)
          (rw (==_refl r) refl) completer_counts.0 (omega (arith, inv.arrived, last, enough)) lt p
          other

    all_unchained : (j : ℕ) → total (in_chain j) n s.caller ≡ 0
    all_unchained j = total-eq-zero (in_chain j) n s.caller λ k p. elim (Bool-cases (k == i)) [
      | inl mover ↦ let e : k ≡ i = ground arith in rw e (completer_unchained j)
      | inr other ↦ counted_unchained r (s.caller k) j (counted k p other)
    ]

    no_leader : total leaders n s.caller ≡ 0
    no_leader = total-eq-zero leaders n s.caller λ k p. elim (Bool-cases (k == i)) [
      | inl mover ↦ let e : k ≡ i = ground arith in rw e completer_counts.3
      | inr other ↦ (counted_rest r (s.caller k) inv.bound (counted k p other)).1
    ]

    one_leader : total leaders n (update s.caller i completer) ≡ 1
    one_leader =
        omega (arith, no_leader, completer_counts.3, total-update leaders n s.caller i completer lt)

    nobody_counted : total (counts (round_after r)) n (update s.caller i completer) ≡ 0
    nobody_counted = total-eq-zero (counts (round_after r)) n (update s.caller i completer) λ k p.
        elim (Bool-cases (k == i)) [
          | inl mover ↦ rw mover refl
          | inr other ↦ rw other (counted_rest r (s.caller k) inv.bound (counted k p other)).0
        ]

    queued_other : (j : ℕ) → 0 < count j s.core.queue → (j == i) ≡ false
    queued_other j h = elim (Bool-cases (j == i)) [
      | inl mover ↦
          let e : j ≡ i = ground arith in
          let h' : 0 < count i s.core.queue = rw e at h in
          absurd (omega (arith, inv.places i, completer_counts.1, h'))
      | inr other ↦ other
    ]

    queued_aux : (j : ℕ) → 0 < count j s.core.queue → (update s.caller i completer j).aux ≡ r
    queued_aux j h =
        let live : 0 < linked (s.caller j) = omega (arith, inv.places j) in
        let p = inv.among j live in
        let other = queued_other j h in
        rw other (counted_aux r (s.caller j) (counted j p other) live (inv.known j p))

    pub completed-Inv : Inv n size completed
    completed-Inv = record {
      bound = omega arith;
      few = omega (arith, inv.few);
      arrived = nobody_counted;
      one_leader = omega (arith, one_leader);
      lock =
          omega (arith, inv.lock, completer_counts.2, total-update locks n s.caller i completer lt);
      places = λ j.
          count_at s.caller completer i j linked _ _ _ _ (in_chain j (s.caller i))
            (in_chain j completer) (inv.places j)
            (ground (arith, completer_counts.1, completer_unchained j))
            (omega (arith, total-update (in_chain j) n s.caller i completer lt));
      known = λ j p. elim (Bool-cases (j == i)) [
        | inl mover ↦ rw mover (ground (arith, round_before-after r inv.bound))
        | inr other ↦
            rw other (counted-Known r (s.caller j) inv.bound (counted j p other) (inv.known j p))
      ];
      among = λ j h. elim (Bool-cases (j == i)) [
        | inl mover ↦ ground (arith, lt)
        | inr other ↦ inv.among j (rw other at h)
      ];
      unpublished = inv.unpublished;
      released_past = λ j h. absurd (
          omega (
            arith,
            all_unchained j,
            h,
            completer_unchained j,
            total-update (in_chain j) n s.caller i completer lt,
          ));
      attended = λ j h.
          inr (rw (round_before-after r inv.bound) (queued_aux j h), omega (arith, one_leader));
      in_order =
          ordered_of_past (fresh_in (round_after r) (update s.caller i completer)) s.core.queue
            λ j h. rw (queued_aux j h) (round_after-apart r inv.bound);
    }
