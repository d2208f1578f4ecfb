-- ===== src/Pool/Progress.antt =====
-- src/wait_queue.rs and xutex-pool/src/lib.rs: a caller that locks a wait queue, and runs alone, gets it.
use xutex.Prelude.{
  ℕ, zero, suc, ◌+◌, ◌-◌, ◌≤◌, ◌≡◌, refl, ap, Bool, true, false, Option, none, some, inl, inr,
  Option-cases, [], ◌∷◌, ◌==◌, if◌then◌else◌, arith, length, length-append,
}
use xutex.WaitQueue.Lock.{held_count}
use xutex.Pool.Pointer.{pointer_tag}
use xutex.Pool.SegQueue.{SegQueue}
use xutex.Pool.State.{
  takes, PoolPlace, loading, seeing, pooling, filling, publishing, freeing, exchanging, locked,
  PoolView,
}
use xutex.Pool.Steps.{
  lock_round, find_pool, fill_pool, publish_pool, free_popped, take_popped, use_pool, pool_advance,
}
use xutex.Pool.Invariant.{lock_weight, needs_pool, is_some}

module _ {Q : Type 0} (seg : SegQueue Q) where
  -- Whether a caller there is in `lock(true)`, or past it.
  abbrev pub asks : PoolPlace Q → Bool
  asks (loading alloc) = alloc
  asks (seeing alloc ptr) = alloc
  asks (pooling takes) = true
  asks (filling takes left q) = true
  asks (publishing takes q) = true
  asks (freeing takes q) = true
  asks (exchanging takes) = true
  asks (locked p) = true
  asks _ = false

  -- How many steps are left at most, with the pointer's value.
  abbrev pub steps_left : ℕ → PoolPlace Q → ℕ
  steps_left word (loading alloc) = 263
  steps_left word (seeing alloc ptr) = if ptr == word then 262 else 263
  steps_left word (pooling u) = 261
  steps_left word (filling u left q) = 4 + left + left + length (seg.contents q)
  steps_left word (publishing u q) = 3 + length (seg.contents q)
  steps_left word (freeing u q) = 2 + length (seg.contents q)
  steps_left word (exchanging u) = 1
  steps_left word _ = 0

-- What a step of a caller that asks does, alone.
abbrev pub Closer : {Q : Type 0} → SegQueue Q → PoolView Q → PoolView Q → Type 0
Closer seg v v' =
    (asks seg v'.caller.place ≡ true)
    × (steps_left seg v'.word v'.caller.place ≤ steps_left seg v.word v.caller.place - 1)

module _ {Q : Type 0} (seg : SegQueue Q) (parallelism : ℕ) (v : PoolView Q)
    (free : held_count (pointer_tag v.word) ≤ lock_weight v.caller.place) where
  lock_round-Closer :
      (ptr : ℕ) → v.caller.place ≡ seeing true ptr → Closer seg v (lock_round true ptr v)
  unfolding lock_round
  lock_round-Closer ptr e = ground arith

  fill_pool-Closer :
      (box left : ℕ) (q : Q)
      → v.caller.place ≡ filling takes left q
      → Closer seg v (fill_pool seg parallelism box takes left q v)
  unfolding fill_pool
  fill_pool-Closer box zero q e = ground arith
  fill_pool-Closer box (suc left) q e =
      ground (arith, seg.contents-push box q, length-append (seg.contents q) (box ∷ []))

  find_pool-Closer :
      v.caller.place ≡ pooling takes → Closer seg v (find_pool seg parallelism takes v)
  unfolding find_pool
  find_pool-Closer e = ground (arith, seg.contents-new)

  publish_pool-Closer :
      (q : Q)
      → v.caller.place ≡ publishing takes q
      → Closer seg v (publish_pool seg parallelism takes q v)
  unfolding publish_pool
  publish_pool-Closer q e = ground arith

  free_popped-Closer :
      (q : Q)
      → v.caller.place ≡ freeing takes q
      → (r : Option (ℕ × Q)) → seg.pop q ≡ r
      → Closer seg v (free_popped seg parallelism takes r v)
  unfolding free_popped
  free_popped-Closer q e none popped = ground arith
  free_popped-Closer q e (some (a, r)) popped = ground (arith, seg.pop-some q r a popped)

  use_pool-Closer :
      (box : ℕ)
      → v.caller.place ≡ exchanging takes
      → (root : Option Q) → v.root ≡ root
      → is_some v.root ≡ true
      → Closer seg v (use_pool seg parallelism box takes root v)
  unfolding use_pool take_popped
  use_pool-Closer box e none r ready = absurd (ground (arith, r))
  use_pool-Closer box e (some q) r ready = elim (Option-cases (seg.pop q)) [
    | inl empty ↦ rw empty (ground arith)
    | inr ((a, rest), got) ↦ rw got (ground arith)
  ]

  pub pool_advance-Closer :
      (box : ℕ) (p : PoolPlace Q)
      → v.caller.place ≡ p
      → asks seg p ≡ true
      → (needs_pool v.caller.place ≡ true → is_some v.root ≡ true)
      → Closer seg v (pool_advance seg parallelism box p v)
  unfolding pool_advance
  pool_advance-Closer box (loading true) e h ready = ground arith
  pool_advance-Closer box (seeing true ptr) e h ready = lock_round-Closer ptr e
  pool_advance-Closer box (pooling takes) e h ready = find_pool-Closer e
  pool_advance-Closer box (filling takes left q) e h ready = fill_pool-Closer box left q e
  pool_advance-Closer box (publishing takes q) e h ready = publish_pool-Closer q e
  pool_advance-Closer box (freeing takes q) e h ready = free_popped-Closer q e (seg.pop q) refl
  pool_advance-Closer box (exchanging takes) e h ready =
      use_pool-Closer box e v.root refl (ready (ap needs_pool e))
  pool_advance-Closer box (locked p) e h ready = ground arith
  pool_advance-Closer box _ e h ready = absurd (ground (arith, h))
