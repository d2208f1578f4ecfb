-- ===== src/Barrier/Moves.antt =====
-- src/barrier.rs: the steps of a caller that touch no node but its own.
use xutex.Prelude.{
  ℕ, ◌+◌, ◌^◌, ◌<◌, ◌≡◌, ◌&&◌, ◌==◌, Bool, true, false, not, leb, [], ◌∷◌, arith, count-append,
  count-erase, count-pos_of_has, has_of_count, has, erase_fresh,
}
use xutex.Barrier.Steps.{
  Rounds, BarrierPlace, idle, arriving, release_popping, park_checking, parked, leave_removing,
  BarrierView, BarrierCall, arrives, drops_wait, same_rounds, arrive_step, lock_barrier,
  park_or_pass, unlock_barrier, await_release, withdraw, leave_barrier, barrier_alone,
  begin_barrier,
}
use xutex.Barrier.Invariant.{Before, Moved, round_before, waits, linked}

pub round_before-apart : (r : ℕ) → r < 2 ^ 32 → (round_before r == r) ≡ false
round_before-apart r small = ground arith

-- Whether the step of a caller at a place completes the round, or pops the waiters of one.
abbrev pub completes : (spurious : Bool) → (size : ℕ) → Rounds → BarrierPlace → Bool
completes w size state (arriving cur) =
    (not w && same_rounds state cur) && leb size (cur.arrivals + 1)
completes w size state (release_popping g) = true
completes w size state _ = false

module _ (w : Bool) (size : ℕ) (aux : ℕ → ℕ) (i : ℕ) (v : BarrierView) (b : Before i size v) where
  -- A caller whose round goes on finds its node in the queue.
  pub queued_lem :
      waits v.caller.place ≡ true → v.caller.aux ≡ v.core.state.round → has i v.core.queue ≡ true
  queued_lem waiting e =
      let apart = round_before-apart v.core.state.round b.bound in
      let one : 0 < linked v.caller = ground (arith, b.known.over, apart, waiting, e) in
      has_of_count i v.core.queue (omega (arith, b.unchained e, one))

  pub barrier_alone-Moved :
      (p : BarrierPlace)
      → v.caller.place ≡ p
      → completes w size v.core.state p ≡ false
      → Moved i size v (barrier_alone w size aux i p v)
  unfolding barrier_alone arrive_step lock_barrier park_or_pass unlock_barrier await_release
      withdraw leave_barrier
  barrier_alone-Moved (park_checking g) e c' = record {
    round = ground (arith, b.few, b.known.at, b.known.over, b.known.unreleased, b.unpublished);
    few = ground (arith, b.few, b.known.at, b.known.over, b.known.unreleased, b.unpublished);
    arrived = ground (arith, b.few, b.known.at, b.known.over, b.known.unreleased, b.unpublished);
    lock = ground (arith, b.few, b.known.at, b.known.over, b.known.unreleased, b.unpublished);
    places = λ j. ground (arith, b.known.unreleased, count-append j v.core.queue (i ∷ []));
    chains =
        λ j. ground (arith, b.few, b.known.at, b.known.over, b.known.unreleased, b.unpublished);
    leaders_le = ground (arith, b.few, b.known.at, b.known.over, b.known.unreleased, b.unpublished);
    attended = ground (arith, b.few, b.known.at, b.known.over, b.known.unreleased, b.unpublished);
    known = ground (arith, b.few, b.known.at, b.known.over, b.known.unreleased, b.unpublished);
    unpublished =
        ground (arith, b.few, b.known.at, b.known.over, b.known.unreleased, b.unpublished);
    stores = ground (arith, b.few, b.known.at, b.known.over, b.known.unreleased, b.unpublished);
    queue = ground (arith, b.few, b.known.at, b.known.over, b.known.unreleased, b.unpublished);
  }
  barrier_alone-Moved leave_removing e c' = record {
    round = ground (
      arith,
      b.few,
      b.known.at,
      b.known.over,
      b.known.unreleased,
      b.unpublished,
      b.unchained,
      queued_lem,
      round_before-apart v.core.state.round b.bound,
      erase_fresh i v.core.queue,
      count-pos_of_has i v.core.queue,
      b.places,
    );
    few = ground (
      arith,
      b.few,
      b.known.at,
      b.known.over,
      b.known.unreleased,
      b.unpublished,
      b.unchained,
      queued_lem,
      round_before-apart v.core.state.round b.bound,
      erase_fresh i v.core.queue,
      count-pos_of_has i v.core.queue,
      b.places,
    );
    arrived = ground (
      arith,
      b.few,
      b.known.at,
      b.known.over,
      b.known.unreleased,
      b.unpublished,
      b.unchained,
      queued_lem,
      round_before-apart v.core.state.round b.bound,
      erase_fresh i v.core.queue,
      count-pos_of_has i v.core.queue,
      b.places,
    );
    lock = ground (
      arith,
      b.few,
      b.known.at,
      b.known.over,
      b.known.unreleased,
      b.unpublished,
      b.unchained,
      queued_lem,
      round_before-apart v.core.state.round b.bound,
      erase_fresh i v.core.queue,
      count-pos_of_has i v.core.queue,
      b.places,
    );
    places = λ j. ground (
      arith,
      b.known.at,
      b.known.over,
      b.unchained,
      queued_lem,
      round_before-apart v.core.state.round b.bound,
      erase_fresh i v.core.queue,
      count-pos_of_has i v.core.queue,
      b.places,
      count-erase i j v.core.queue,
    );
    chains = λ j. ground (
      arith,
      b.few,
      b.known.at,
      b.known.over,
      b.known.unreleased,
      b.unpublished,
      b.unchained,
      queued_lem,
      round_before-apart v.core.state.round b.bound,
      erase_fresh i v.core.queue,
      count-pos_of_has i v.core.queue,
      b.places,
    );
    leaders_le = ground (
      arith,
      b.few,
      b.known.at,
      b.known.over,
      b.known.unreleased,
      b.unpublished,
      b.unchained,
      queued_lem,
      round_before-apart v.core.state.round b.bound,
      erase_fresh i v.core.queue,
      count-pos_of_has i v.core.queue,
      b.places,
    );
    attended = ground (
      arith,
      b.few,
      b.known.at,
      b.known.over,
      b.known.unreleased,
      b.unpublished,
      b.unchained,
      queued_lem,
      round_before-apart v.core.state.round b.bound,
      erase_fresh i v.core.queue,
      count-pos_of_has i v.core.queue,
      b.places,
    );
    known = ground (
      arith,
      b.few,
      b.known.at,
      b.known.over,
      b.known.unreleased,
      b.unpublished,
      b.unchained,
      queued_lem,
      round_before-apart v.core.state.round b.bound,
      erase_fresh i v.core.queue,
      count-pos_of_has i v.core.queue,
      b.places,
    );
    unpublished = ground (
      arith,
      b.few,
      b.known.at,
      b.known.over,
      b.known.unreleased,
      b.unpublished,
      b.unchained,
      queued_lem,
      round_before-apart v.core.state.round b.bound,
      erase_fresh i v.core.queue,
      count-pos_of_has i v.core.queue,
      b.places,
    );
    stores = ground (
      arith,
      b.few,
      b.known.at,
      b.known.over,
      b.known.unreleased,
      b.unpublished,
      b.unchained,
      queued_lem,
      round_before-apart v.core.state.round b.bound,
      erase_fresh i v.core.queue,
      count-pos_of_has i v.core.queue,
      b.places,
    );
    queue = ground (
      arith,
      b.few,
      b.known.at,
      b.known.over,
      b.known.unreleased,
      b.unpublished,
      b.unchained,
      queued_lem,
      round_before-apart v.core.state.round b.bound,
      erase_fresh i v.core.queue,
      count-pos_of_has i v.core.queue,
      b.places,
    );
  }
  barrier_alone-Moved (release_popping g) e c' = cc
  barrier_alone-Moved _ e c' =
      ground (arith, b.few, b.known.at, b.known.over, b.known.unreleased, b.unpublished)

  pub begin_barrier-Moved :
      (c : BarrierCall) (p : BarrierPlace)
      → v.caller.place ≡ p
      → Moved i size v (begin_barrier c p v)
  unfolding begin_barrier
  begin_barrier-Moved arrives idle e =
      ground (arith, b.few, b.known.at, b.known.over, b.known.unreleased, b.unpublished)
  begin_barrier-Moved drops_wait (parked g) e =
      ground (arith, b.few, b.known.at, b.known.over, b.known.unreleased, b.unpublished)
  begin_barrier-Moved _ _ e = ground (arith, b.few, b.known, b.unpublished)
