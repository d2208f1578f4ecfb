-- ===== src/Barrier/Finish.antt =====
-- src/barrier.rs: a leader that has popped the waiters of its round signals them all, and returns.
use xutex.Prelude.{
  ℕ, zero, suc, ◌≤◌, ◌<◌, ◌≡◌, ◌⊎◌, true, false, refl, sym, subst, ap, inl, inr, List, [], ◌∷◌,
  ◌==◌, arith, length, ==_refl, update,
}
use xutex.WaitQueue.Order.{all_in}
use xutex.Barrier.Steps.{
  BarrierSystem, BarrierEvent, barrier_runs, telling, idle, leads, release_node, barrier_alone,
  barrier_from, barrier_step, barrier_steps, new_barrier, BarrierActors,
}
use xutex.Barrier.Invariant.{Inv}
use xutex.Barrier.Release.{release_node-Inv, apart}
use xutex.Barrier.Reach.{new_barrier-Inv, barrier_steps-Inv}
use xutex.Barrier.Safety.{barrier_reach}

-- `n` steps of the caller `i`.
abbrev pub barrier_goes : ℕ → ℕ → List BarrierEvent
barrier_goes zero i = []
barrier_goes (suc n) i = barrier_runs false i ∷ barrier_goes n i

-- A step that releases a node releases it and takes no release back.
released_lem :
    (i j x : ℕ) (c : List ℕ) (s : BarrierSystem)
    → (i == j) ≡ false
    → (x == j) ≡ true ⊎ ((s.caller x).released ≡ true)
    → ((release_node i j c s).caller x).released ≡ true
unfolding release_node
released_lem i j x c s other h = ground (arith, other, h)

tells_step :
    (size i j : ℕ) (c : List ℕ) (s : BarrierSystem)
    → (s.caller i).place ≡ telling (j ∷ c)
    → barrier_step size (barrier_runs false i) s ≡ release_node i j c s
unfolding barrier_step barrier_from
tells_step size i j c s at = rw at refl

tells_on :
    (i j : ℕ) (c : List ℕ) (s : BarrierSystem) → ((release_node i j c s).caller i).place ≡ telling c
unfolding release_node
tells_on i j c s = rw (==_refl i) refl

last_step :
    (size i : ℕ) (s : BarrierSystem)
    → (s.caller i).place ≡ telling []
    → barrier_step size (barrier_runs false i) s ≡ record s {
      caller = update s.caller i (record (s.caller i) { place = idle; result = leads });
    }
unfolding barrier_step barrier_from barrier_alone
last_step size i s at = rw at refl

tells_steps :
    (size i j : ℕ) (c : List ℕ) (s : BarrierSystem)
    → (s.caller i).place ≡ telling (j ∷ c)
    → barrier_steps size (barrier_goes (suc (length (j ∷ c))) i) s
      ≡ barrier_steps size (barrier_goes (suc (length c)) i) (release_node i j c s)
unfolding barrier_steps
tells_steps size i j c s at =
    ap (barrier_steps size (barrier_goes (suc (length c)) i)) (tells_step size i j c s at)

-- The caller `i` has returned as the leader, and the nodes are released.
abbrev pub Finished : ℕ → List ℕ → BarrierSystem → Type 0
Finished i c s =
    ((s.caller i).place ≡ idle)
    × ((s.caller i).result ≡ leads)
    × (all_in (λ x. (s.caller x).released) c ≡ true)

module _ (n size i : ℕ) (lt : i < n) where
  released_stays :
      (c : List ℕ) (s : BarrierSystem) (x : ℕ)
      → Inv n size s
      → (s.caller i).place ≡ telling c
      → (s.caller x).released ≡ true
      → ((barrier_steps size (barrier_goes (suc (length c)) i) s).caller x).released ≡ true
  unfolding barrier_steps
  released_stays [] s x inv at e = rw (last_step size i s at) (ground (arith, e))
  released_stays (j ∷ c) s x inv at e =
      rw (barrier_steps, tells_step size i j c s at)
        (released_stays c (release_node i j c s) x (release_node-Inv inv i lt j c at)
          (tells_on i j c s) (released_lem i j x c s (apart inv i lt j c at) (inr e)))

  finishes :
      (c : List ℕ) (s : BarrierSystem)
      → Inv n size s
      → (s.caller i).place ≡ telling c
      → Finished i c (barrier_steps size (barrier_goes (suc (length c)) i) s)
  unfolding barrier_steps
  finishes [] s inv at = rw (last_step size i s at, ==_refl i) (refl, refl, refl)
  finishes (j ∷ c) s inv at =
      let next = release_node i j c s in
      let kept = release_node-Inv inv i lt j c at in
      let rest = finishes c next kept (tells_on i j c s) in
      let told =
        released_stays c next j kept (tells_on i j c s)
          (released_lem i j j c s (apart inv i lt j c at) (inl (==_refl j))) in
      subst (Finished i (j ∷ c)) (sym (tells_steps size i j c s at))
        (rest.0, rest.1, rw told rest.2)

-- For a barrier of at least one caller that no more callers than its size use, in every state that
-- they reach: a leader that has the nodes of its round in its chain, and runs alone for one step more
-- than there are nodes, has released them all, and returned as the leader.
pub barrier-finishes :
    (n size : ℕ) (es : List BarrierEvent) (i : ℕ) (c : List ℕ)
    → 0 < size
    → n ≤ size
    → BarrierActors n es
    → i < n
    → ((barrier_reach size es).caller i).place ≡ telling c
    → Finished i c (barrier_steps size (barrier_goes (suc (length c)) i) (barrier_reach size es))
barrier-finishes n size es i c some_caller enough a lt at =
    finishes n size i lt c (barrier_reach size es)
      (barrier_steps-Inv es new_barrier (new_barrier-Inv n size some_caller) enough a) at
