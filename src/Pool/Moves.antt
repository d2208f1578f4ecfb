-- ===== src/Pool/Moves.antt =====
-- xutex-pool/src/lib.rs and src/wait_queue.rs: each step of one caller, and what it does to the owners
-- of the queues and of the locks.
use xutex.Prelude.{
  ℕ, zero, suc, ◌≡◌, refl, ap, inl, inr, Bool, true, false, Option, none, some, Option-cases, [],
  ◌∷◌, count-append, arith,
}
use xutex.Pool.Pointer.{IsAddress}
use xutex.Pool.SegQueue.{SegQueue}
use xutex.Pool.State.{
  Use, takes, gives, PoolPlace, idle, absent, loading, seeing, pooling, filling, publishing,
  freeing, exchanging, locked, clearing, PoolView, PoolCall, locks, edits, unlocks,
}
use xutex.Pool.Steps.{
  lock_round, unlock_queue, clear_pointer, find_pool, fill_pool, publish_pool, free_popped,
  take_popped, use_pool, pool_advance, pool_begin, call_target,
}
use xutex.Pool.Invariant.{Before, Moved, is_some, needs_pool}

module _ {Q : Type 0} (seg : SegQueue Q) (v : PoolView Q) (b : Before seg v) where
  lock_round-Moved :
      (alloc : Bool) (ptr : ℕ)
      → v.caller.place ≡ seeing alloc ptr
      → Moved seg v.caller.target v (lock_round alloc ptr v)
  unfolding lock_round
  lock_round-Moved alloc ptr e = ground arith

  unlock_queue-Moved :
      (p : ℕ) → v.caller.place ≡ locked p → Moved seg v.caller.target v (unlock_queue p v)
  unfolding unlock_queue
  unlock_queue-Moved p e = ground (arith, b.owned p, b.address p)

  clear_pointer-Moved :
      (p : ℕ) → v.caller.place ≡ clearing p → Moved seg v.caller.target v (clear_pointer p v)
  unfolding clear_pointer
  clear_pointer-Moved p e = ground arith

module _ {Q : Type 0} (seg : SegQueue Q) (parallelism : ℕ) (v : PoolView Q) (b : Before seg v) where
  -- Needed of a place that uses the pool.
  find_pool-Moved :
      (u : Use)
      → v.caller.place ≡ pooling u
      → Moved seg v.caller.target v (find_pool seg parallelism u v)
  unfolding find_pool
  find_pool-Moved u e = ground (arith, seg.contents-new)

  fill_pool-Moved :
      (box : ℕ) (u : Use) (left : ℕ) (q : Q)
      → IsAddress box
      → v.live box ≡ false
      → v.caller.place ≡ filling u left q
      → Moved seg v.caller.target v (fill_pool seg parallelism box u left q v)
  unfolding fill_pool
  fill_pool-Moved box u zero q h fresh e = ground arith
  fill_pool-Moved box u (suc left) q h fresh e =
      ground
        (arith, seg.contents-push box q, count-append _ (seg.contents q) (box ∷ []), b.owned box)

  publish_pool-Moved :
      (u : Use) (q : Q)
      → v.caller.place ≡ publishing u q
      → Moved seg v.caller.target v (publish_pool seg parallelism u q v)
  unfolding publish_pool
  publish_pool-Moved u q e = ground arith

  free_popped-Moved :
      (u : Use) (q : Q)
      → v.caller.place ≡ freeing u q
      → (r : Option (ℕ × Q)) → seg.pop q ≡ r
      → is_some v.root ≡ true
      → Moved seg v.caller.target v (free_popped seg parallelism u r v)
  unfolding free_popped
  free_popped-Moved u q e none popped ready = ground (arith, seg.pop-none q popped)
  free_popped-Moved u q e (some (a, r)) popped ready =
      ground (arith, seg.pop-some q r a popped, b.owned a)

  use_pool-Moved :
      (box : ℕ) (u : Use)
      → v.caller.place ≡ exchanging u
      → IsAddress box
      → v.live box ≡ false
      → (root : Option Q) → v.root ≡ root
      → is_some v.root ≡ true
      → Moved seg v.caller.target v (use_pool seg parallelism box u root v)
  unfolding use_pool take_popped
  use_pool-Moved box u e h fresh none r ready = absurd (ground (arith, r))
  use_pool-Moved box (gives p) e h fresh (some q) r ready =
      ground (arith, seg.contents-push p q, count-append _ (seg.contents q) (p ∷ []))
  use_pool-Moved box takes e h fresh (some q) r ready = elim (Option-cases (seg.pop q)) [
    | inl empty ↦ rw empty (ground (arith, seg.pop-none q empty, b.owned box))
    | inr ((a, rest), got) ↦ rw got (ground (arith, seg.pop-some q rest a got, b.owned a))
  ]

  pub pool_advance-Moved :
      (box : ℕ) (p : PoolPlace Q)
      → v.caller.place ≡ p
      → IsAddress box
      → v.live box ≡ false
      → (needs_pool v.caller.place ≡ true → is_some v.root ≡ true)
      → Moved seg v.caller.target v (pool_advance seg parallelism box p v)
  unfolding pool_advance
  pool_advance-Moved box (seeing alloc ptr) e h fresh ready = lock_round-Moved seg v b alloc ptr e
  pool_advance-Moved box (pooling u) e h fresh ready = find_pool-Moved u e
  pool_advance-Moved box (filling u left q) e h fresh ready = fill_pool-Moved box u left q h fresh e
  pool_advance-Moved box (publishing u q) e h fresh ready = publish_pool-Moved u q e
  pool_advance-Moved box (freeing u q) e h fresh ready =
      free_popped-Moved u q e (seg.pop q) refl (ready (ap needs_pool e))
  pool_advance-Moved box (exchanging u) e h fresh ready =
      use_pool-Moved box u e h fresh v.root refl (ready (ap needs_pool e))
  pool_advance-Moved box (clearing p) e h fresh ready = clear_pointer-Moved seg v b p e
  pool_advance-Moved box (loading alloc) e h fresh ready = ground arith
  pool_advance-Moved box idle e h fresh ready = ground arith
  pool_advance-Moved box absent e h fresh ready = ground arith
  pool_advance-Moved box (locked p) e h fresh ready = ground arith

module _ {Q : Type 0} (seg : SegQueue Q) (v : PoolView Q) (b : Before seg v) where
  pub pool_begin-Moved :
      (c : PoolCall) (p : PoolPlace Q)
      → v.caller.place ≡ p
      → (needs_pool v.caller.place ≡ true → is_some v.root ≡ true)
      → Moved seg (call_target c v.caller) v (pool_begin c p v)
  unfolding pool_begin
  pool_begin-Moved unlocks (locked p) e ready = unlock_queue-Moved seg v b p e
  pool_begin-Moved (edits f) (locked p) e ready = ground (arith, b.owned p)
  pool_begin-Moved (locks w alloc) idle e ready = ground arith
  pool_begin-Moved (locks w alloc) absent e ready = ground arith
  pool_begin-Moved _ _ e ready = ground arith
