-- ===== src/RwLock/Downgrade.antt =====
-- src/rwlock.rs, `RwLockWriteGuard::downgrade`: the guard stays a guard, and room is made for readers.
use xutex.Prelude.{
  ℕ, ◌+◌, ◌-◌, ◌≤◌, ◌<◌, ◌≡◌, ◌≢◌, Bool, false, refl, ap, ◌∙◌, List, ◌==◌, ==_refl, arith, ltb,
}
use xutex.Semaphore.State.{idle, holding, releasing, panicked}
use xutex.Semaphore.System.{
  System, step, run, begin, split_permit, hand_back, hands_back, run_caller, init,
}
use xutex.Semaphore.Invariant.Steps.{reached-Inv, step-Inv}
use xutex.Semaphore.Invariant.Trade.{places_apart}
use xutex.Semaphore.Safety.{Inv-releases}
use xutex.RwLock.{
  max_readers_limit, RwEvent, rw_downgrades, permit_event, permit_events, rw_reach, RwActors,
}
use xutex.RwLock.Exclusion.{events-allowed}

-- After the downgrade, and after the step of `j` that releases the rest.
abbrev pub Downgraded : ℕ → (i j : ℕ) → Bool → System → System → Type 0
Downgraded r i j w s after =
    let last = step (run w j) after in
    ((after.task i).pc ≡ holding 1)
    × (after.core ≡ s.core)
    × ((last.task i).pc ≡ holding 1)
    × (last.core.pool.permits ≡ s.core.pool.permits + (r - 1))
    × ((last.task j).pc ≢ panicked)

-- The step of `j` leaves another caller where it is.
release-others :
    (w : Bool) (i j k : ℕ) (s : System)
    → (i == j) ≡ false
    → (s.task j).pc ≡ releasing k
    → (step (run w j) s).task i ≡ s.task i
unfolding step run_caller
release-others w i j k s apart e = rw (e, apart) refl

-- What the downgrade does to both callers, where it fits.
hand_back-tasks :
    (i j n k : ℕ) (s : System)
    → (s.task i).pc ≡ holding n
    → (s.task j).pc ≡ idle
    → k ≤ n
    → (let after = step (hands_back i n k j) s in
        ((after.task i).pc ≡ holding (n - k))
        × ((after.task j).pc ≡ releasing k)
        × (after.core ≡ s.core))
unfolding step hand_back split_permit begin
hand_back-tasks i j n k s e e' le =
    let apart = places_apart s i j n e e' in
    let flip : (j == i) ≡ false = ground (arith, apart) in
    let enough : ltb n k ≡ false = ground (arith, le) in
    rw (e, e', ==_refl n, enough, ==_refl j, flip, apart) (ground (arith, flip, apart))

module _ (n r : ℕ) (es : List RwEvent) (some_reader : 0 < r) (fits : r ≤ max_readers_limit)
    (a : RwActors n es) where
  -- In every state that `n` callers reach from a new lock for `r` readers, `r` at least 1 and at most
  -- MAX_READERS: a write guard that is downgraded is a read guard at once, before anyone can take the
  -- lock; and the release that follows leaves it so, gives the permits of `r - 1` readers back, and
  -- does not panic.
  pub rwlock-downgrades :
      (i j : ℕ) (w : Bool)
      → i < n
      → j < n
      → ((rw_reach r es).task i).pc ≡ holding r
      → ((rw_reach r es).task j).pc ≡ idle
      → Downgraded r i j w
          (rw_reach r es)
          (step (permit_event r (rw_downgrades i j)) (rw_reach r es))
  unfolding permit_event
  rwlock-downgrades i j w lt lj e e' =
      let s = rw_reach r es in
      let inv =
        reached-Inv n r (permit_events r es) (omega arith) (events-allowed n r es (init r) a) in
      let (kept, gives, same) = hand_back-tasks i j r (r - 1) s e e' (omega arith) in
      let after = step (hands_back i r (r - 1) j) s in
      let (added, fine) =
        Inv-releases (step-Inv inv (hands_back i r (r - 1) j) (lt, lj)) w j (r - 1) lj gives in
      let one : (after.task i).pc ≡ holding 1 =
        kept ∙ ap (λ x. holding x) (omega (arith, some_reader)) in
      let still = release-others w i j (r - 1) after (places_apart s i j r e e') gives in
      (one, same, ap (λ t. t.pc) still ∙ one, added ∙ ap (λ c. c.pool.permits + (r - 1)) same, fine)
