-- ===== src/Pool/Alone.antt =====
-- src/wait_queue.rs and xutex-pool/src/lib.rs: the steps of one caller, with no steps of others between.
use xutex.Prelude.{
  update, ℕ, ◌-◌, ◌≤◌, ◌<◌, ◌≡◌, refl, subst, sym, true, List, [], ◌∷◌, ==_refl, arith, length, map,
}
use xutex.WaitQueue.Lock.{held_count}
use xutex.Pool.Pointer.{pointer_tag}
use xutex.Pool.SegQueue.{SegQueue}
use xutex.Pool.State.{PoolPlace, loading, locked, PoolCaller, PoolEvent, run, Pools}
use xutex.Pool.Steps.{pool_advance, pool_step, pool_steps, view, new_pools, AllAllowed}
use xutex.Pool.Invariant.{Inv, lock_weight, locks_on}
use xutex.Pool.Moves.{pool_advance-Moved}
use xutex.Pool.Reach.{view-Before, pool_step-Inv, new_pools-Inv, pool_steps-Inv}
use xutex.Pool.Progress.{asks, steps_left, pool_advance-Closer}
use xutex.Pool.Safety.{pool_reach}

-- The steps of caller `i` alone; each is given the address for a queue that it may make.
abbrev pub runs : (i : ℕ) → List ℕ → List PoolEvent
runs i boxes = map (run i) boxes

module _ {Q : Type 0} (seg : SegQueue Q) where
  -- The caller is in `lock(true)`, of a queue that no other caller has locked, with at most `k` steps
  -- to go.
  abbrev Within : ℕ → PoolCaller Q → (word : ℕ) → Type 0
  Within k c word =
      (asks seg c.place ≡ true)
      × (held_count (pointer_tag word) ≤ lock_weight c.place)
      × (steps_left seg word c.place ≤ k)

  abbrev WithinAt : ℕ → ℕ → Pools Q → Type 0
  WithinAt k i s = Within k (s.caller i) (s.words (s.caller i).target)

  locked_of :
      (word : ℕ) (p : PoolPlace Q)
      → asks seg p ≡ true
      → steps_left seg word p ≡ 0
      → (a : ℕ) × (p ≡ locked a)
  locked_of word (locked a) h z = (a, refl)
  locked_of word _ h z = absurd (ground (arith, h, z))

module _ {Q : Type 0} (seg : SegQueue Q) (parallelism : ℕ) {m n : ℕ} (i : ℕ) where
  run-Within :
      (box k : ℕ) (s : Pools Q)
      → Inv seg m n s
      → AllAllowed seg parallelism m n (runs i (box ∷ [])) s
      → WithinAt seg k i s
      → WithinAt seg (k - 1) i (pool_step seg parallelism (run i box) s)
  unfolding pool_step
  run-Within box k s inv ((lt, address, fresh), over) (h, free, close) =
      let c = s.caller i in
      let w = c.target in
      let v = pool_advance seg parallelism box c.place (view w i s) in
      let at : lock_weight c.place ≡ locks_on w c = ground arith in
      let b = view-Before seg inv i lt w (inv.target i) at in
      let moved =
        pool_advance-Moved seg parallelism (view w i s) b box c.place refl address fresh
          (inv.ready i) in
      let (asked, closer) =
        pool_advance-Closer seg parallelism (view w i s) free box c.place refl h (inv.ready i) in
      let word : update s.words w v.word v.caller.target ≡ v.word =
        rw (moved.target, ==_refl w) refl in
      let within : Within seg (k - 1) v.caller v.word =
        (asked, ground (arith, moved.tag w, moved.target, free), omega (arith, closer, close)) in
      rw (==_refl i) (subst (λ p. Within seg (k - 1) v.caller p) (sym word) within)

  runs-Within :
      (boxes : List ℕ) (k : ℕ) (s : Pools Q)
      → Inv seg m n s
      → AllAllowed seg parallelism m n (runs i boxes) s
      → WithinAt seg k i s
      → WithinAt seg (k - length boxes) i (pool_steps seg parallelism (runs i boxes) s)
  unfolding pool_steps
  runs-Within [] k s inv a within = (within.0, within.1, omega (arith, within.2))
  runs-Within (box ∷ boxes) k s inv (a, rest) within =
      let after = pool_step seg parallelism (run i box) s in
      let done =
        runs-Within boxes (k - 1) after (pool_step-Inv seg parallelism (run i box) s inv a) rest
          (run-Within box k s inv (a, tt) within) in
      (done.0, done.1, omega (arith, done.2))

module _ {Q : Type 0} (seg : SegQueue Q) (parallelism m n : ℕ) (es : List PoolEvent)
    (some_queue : 0 < m) (allowed : AllAllowed seg parallelism m n es new_pools) where
  abbrev reached : Pools Q
  reached = pool_reach seg parallelism es

  -- In every state that `n` callers of `m` wait queues reach: if a caller has begun `lock(true)` of a
  -- wait queue whose lock is free, and runs alone for 263 steps, then it has the queue locked. The
  -- steps that build the pool count, and those that free a build that came too late.
  pub lock-finishes :
      (i : ℕ) (boxes : List ℕ)
      → AllAllowed seg parallelism m n (runs i boxes) reached
      → (reached.caller i).place ≡ loading true
      → held_count (pointer_tag (reached.words (reached.caller i).target)) ≡ 0
      → 263 ≤ length boxes
      → (a : ℕ) × (((pool_steps seg parallelism (runs i boxes) reached).caller i).place ≡ locked a)
  lock-finishes i boxes a begun free enough =
      let inv =
        pool_steps-Inv seg parallelism es new_pools (new_pools-Inv seg parallelism m n some_queue)
          allowed in
      let last = pool_steps seg parallelism (runs i boxes) reached in
      let done =
        runs-Within seg parallelism i boxes 263 reached inv a
          (ground (arith, begun), omega (arith, free), ground (arith, begun)) in
      locked_of seg (last.words (last.caller i).target) (last.caller i).place done.0
        (omega (arith, done.2, enough))
