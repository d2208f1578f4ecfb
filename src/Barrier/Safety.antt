-- ===== src/Barrier/Safety.antt =====
-- src/barrier.rs: what holds of a barrier in every state that callers reach, when there are no more of
-- them than its size.
use xutex.Prelude.{
  ℕ, ◌+◌, ◌^◌, ◌≤◌, ◌<◌, ◌≡◌, ◌⊎◌, Bool, false, Bool-cases, inl, inr, refl, List, ◌==◌, arith,
  count, has, count-pos_of_has, total, total-eq-zero, total-agree, weight-le-total, two-le-total,
  ==_refl,
}
use xutex.Barrier.Steps.{
  BarrierSystem, BarrierCaller, BarrierEvent, barrier_runs, idle, parked, park_checking,
  withdrawing, leave_locking, unlocking, rests, unfinished, round_after, await_release,
  park_or_pass, withdraw, barrier_alone, barrier_from, barrier_step, barrier_steps, new_barrier,
  BarrierActors,
}
use xutex.Barrier.Invariant.{
  Inv, Known, KnownAt, counts, leaders, in_chain, linked, waits, round_before,
}
use xutex.Barrier.Kept.{view-Before}
use xutex.Barrier.Reach.{new_barrier-Inv, barrier_steps-Inv}

-- A caller that has nothing to do: it makes no call, or waits and has not been released.
abbrev pub Rests : BarrierCaller → Type 0
Rests c = (c.place ≡ idle) ⊎ ((g : ℕ) × (c.place ≡ parked g) × (c.released ≡ false))

-- Whether it waits in the queue.
abbrev pub rests_parked : BarrierCaller → ℕ
rests_parked c = elim c.place [ parked g ↦ 1 | _ ↦ 0 ]

Rests-leaders : (c : BarrierCaller) → Rests c → leaders c ≡ 0
Rests-leaders c (inl at) = rw (leaders, at) refl
Rests-leaders c (inr (g, at, live)) = rw (leaders, at) refl

Rests-in_chain : (j : ℕ) (c : BarrierCaller) → Rests c → in_chain j c ≡ 0
Rests-in_chain j c (inl at) = rw (in_chain, at) refl
Rests-in_chain j c (inr (g, at, live)) = rw (in_chain, at) refl

-- A caller that waits for the round counts in it.
parked_counts :
    (r : ℕ) (c : BarrierCaller)
    → Rests c
    → Known r c
    → ((g : ℕ) → c.place ≡ parked g → c.released ≡ false → g ≡ r)
    → counts r c ≡ rests_parked c
parked_counts r c (inl at) known fresh = rw (counts, rests_parked, at) refl
parked_counts r c (inr (g, at, live)) known fresh =
    let e = fresh g at live in rw (counts, rests_parked, at, e, ==_refl r) refl

round_after-before : (r : ℕ) → r < 2 ^ 32 → round_after (round_before r) ≡ r
round_after-before r small = ground arith

abbrev pub barrier_reach : (size : ℕ) → List BarrierEvent → BarrierSystem
barrier_reach size es = barrier_steps size es new_barrier

module _ (n size : ℕ) (some_caller : 0 < size) (enough : n ≤ size) (es : List BarrierEvent)
    (a : BarrierActors n es) where
  inv : Inv n size (barrier_reach size es)
  inv = barrier_steps-Inv es new_barrier (new_barrier-Inv n size some_caller) enough a

  stale_aux :
      (j g : ℕ)
      → j < n
      → ((barrier_reach size es).caller j).place ≡ parked g
      → ((barrier_reach size es).caller j).aux ≡ g
  stale_aux j g p at =
      let known : KnownAt (barrier_reach size es).core.state.round
          ((barrier_reach size es).caller j).aux ((barrier_reach size es).caller j).place =
        (inv.known j p).at in
      let known' : KnownAt (barrier_reach size es).core.state.round
          ((barrier_reach size es).caller j).aux (parked g) =
        rw at at known in
      known'.0

  waiter_lem :
      ((i : ℕ) → i < n → Rests ((barrier_reach size es).caller i))
      → (j g : ℕ) → j < n
      → ((barrier_reach size es).caller j).place ≡ parked g
      → ((barrier_reach size es).caller j).released ≡ false
      → (g ≡ (barrier_reach size es).core.state.round)
        × (count j (barrier_reach size es).core.queue ≡ 1)
  waiter_lem rest j g p at live =
      let s = barrier_reach size es in
      let one : linked (s.caller j) ≡ 1 = rw (linked, at, live) refl in
      let free =
        total-eq-zero (in_chain j) n s.caller λ k q. Rests-in_chain j (s.caller k) (rest k q) in
      let idle_leaders =
        total-eq-zero leaders n s.caller λ k q. Rests-leaders (s.caller k) (rest k q) in
      let queued : count j s.core.queue ≡ 1 = omega (arith, inv.places j, one) in
      let stored = stale_aux j g p at in
      (
        elim (inv.attended j (omega (arith, queued))) [
          | inl fresh ↦ omega (arith, fresh, stored)
          | inr stale ↦ absurd (omega (arith, stale.1, idle_leaders))
        ],
        queued,
      )

  -- For a barrier of at least one caller that no more callers than its size use, however their steps
  -- interleave: if each caller is idle, or waits and has not been released, then a caller that waits
  -- waits for the round that is still forming, its node is queued once, and the arrivals of the round,
  -- too few to complete it, are the callers that wait.
  pub barrier-wakes :
      ((i : ℕ) → i < n → Rests ((barrier_reach size es).caller i))
      → (j g : ℕ) → j < n
      → ((barrier_reach size es).caller j).place ≡ parked g
      → ((barrier_reach size es).caller j).released ≡ false
      → (g ≡ (barrier_reach size es).core.state.round)
        × (count j (barrier_reach size es).core.queue ≡ 1)
        × (total rests_parked n (barrier_reach size es).caller
            ≡ (barrier_reach size es).core.state.arrivals)
        × ((barrier_reach size es).core.state.arrivals < size)
  barrier-wakes rest j g p at live =
      let s = barrier_reach size es in
      let (fresh, queued) = waiter_lem rest j g p at live in
      let agree = total-agree (counts s.core.state.round) rests_parked n s.caller λ k q.
        parked_counts s.core.state.round (s.caller k) (rest k q) (inv.known k q)
          (λ g' at' live'. (waiter_lem rest k g' q at' live').0) in
      (fresh, queued, omega (arith, agree, inv.arrived), inv.few)

  -- For a barrier of at least one caller that no more callers than its size use, in every state that
  -- they reach: a step of a caller that waits for round `g`, or is about to queue its node, leaves it
  -- waiting, unless the barrier's round is the one after `g`.
  pub barrier-holds :
      (w : Bool) (i g : ℕ)
      → i < n
      → (((barrier_reach size es).caller i).place ≡ parked g)
        ⊎ (((barrier_reach size es).caller i).place ≡ park_checking g)
      → (((barrier_step size (barrier_runs w i) (barrier_reach size es)).caller i).place ≡ parked g)
        ⊎ ((((barrier_step size (barrier_runs w i) (barrier_reach size es)).caller i).place
              ≡ unlocking (rests g))
            ⊎ ((barrier_reach size es).core.state.round ≡ round_after g))
  unfolding barrier_step barrier_from barrier_alone await_release park_or_pass
  barrier-holds w i g p (inl at) =
      let s = barrier_reach size es in
      elim (Bool-cases (s.caller i).released) [
        | inr live ↦ inl (rw (at, ==_refl i, live) at)
        | inl over ↦
            let past = (inv.known i p).over (rw at refl) over in
            let e : g ≡ round_before s.core.state.round = omega (arith, past, stale_aux i g p at) in
            inr (inr (rw (e, round_after-before s.core.state.round inv.bound) refl))
      ]
  barrier-holds w i g p (inr at) =
      let s = barrier_reach size es in
      let known : KnownAt s.core.state.round (s.caller i).aux (s.caller i).place =
        (inv.known i p).at in
      let known' : KnownAt s.core.state.round (s.caller i).aux (park_checking g) = rw at at known in
      elim known' [
        | inl fresh ↦ inr (inl (rw (at, fresh, ==_refl s.core.state.round, ==_refl i) refl))
        | inr past ↦ inr (inr (rw (past, round_after-before s.core.state.round inv.bound) refl))
      ]

  -- For a barrier of at least one caller that no more callers than its size use, in every state that
  -- they reach: two callers that completed a round and have yet to pop its waiters are the same one.
  pub barrier-leads :
      (i j : ℕ)
      → i < n
      → j < n
      → leaders ((barrier_reach size es).caller i) ≡ 1
      → leaders ((barrier_reach size es).caller j) ≡ 1
      → i ≡ j
  barrier-leads i j p q leads leads' = elim (Bool-cases (j == i)) [
    | inl same ↦ ground arith
    | inr apart ↦ absurd (
        omega (
          arith,
          inv.one_leader,
          leads,
          leads',
          two-le-total leaders n (barrier_reach size es).caller i j
              (record { place = idle; released = false; aux = 0; result = unfinished }) refl p q
              apart,
        ))
  ]

  -- For a barrier of at least one caller that no more callers than its size use, in every state that
  -- they reach: if the exchange of a caller that withdraws from the round succeeds, then its arrival is
  -- among those of the round, of which there is one less afterwards.
  pub barrier-withdraws :
      (i g : ℕ)
      → i < n
      → ((barrier_reach size es).caller i).place ≡ withdrawing g (barrier_reach size es).core.state
      → (barrier_reach size es).core.state.round ≡ g
      → ((barrier_step size (barrier_runs false i) (barrier_reach size es)).core.state.arrivals + 1
          ≡ (barrier_reach size es).core.state.arrivals)
        × (((barrier_step size (barrier_runs false i) (barrier_reach size es)).caller i).place
            ≡ leave_locking)
  unfolding barrier_step barrier_from barrier_alone withdraw
  barrier-withdraws i g p at same =
      let s = barrier_reach size es in
      let before = view-Before inv i p in
      let one : counts s.core.state.round (s.caller i) ≡ 1 =
        rw (counts, at, same) (rw (==_refl g) refl) in
      let some_arrival : 1 ≤ s.core.state.arrivals = omega (arith, before.arrived, one) in
      rw (at, same, ==_refl g, ==_refl s.core.state.arrivals, ==_refl i)
        (omega (arith, some_arrival), refl)

  -- For a barrier of at least one caller that no more callers than its size use, in every state that
  -- they reach: the node of a caller that has not been queued, or whose wait has ended, is neither in
  -- the queue nor about to be released.
  pub barrier-unlinks :
      (j k : ℕ)
      → k < n
      → waits ((barrier_reach size es).caller j).place ≡ false
      → (has j (barrier_reach size es).core.queue ≡ false)
        × (in_chain j ((barrier_reach size es).caller k) ≡ 0)
  barrier-unlinks j k p done =
      let s = barrier_reach size es in
      let unlinked : linked (s.caller j) ≡ 0 = rw (linked, done) refl in
      let counted = weight-le-total (in_chain j) n s.caller k p in
      (
        elim (Bool-cases (has j s.core.queue)) [
          | inl there ↦
              absurd (omega (arith, count-pos_of_has j s.core.queue there, inv.places j, unlinked))
          | inr away ↦ away
        ],
        omega (arith, inv.places j, counted),
      )
