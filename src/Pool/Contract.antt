-- ===== src/Pool/Contract.antt =====
-- src/wait_queue.rs: what a lock of a queue promises to its clients, and what each step of a caller does
-- to the lock and the nodes of its wait queue.
use xutex.Prelude.{
  ℕ, ◌≡◌, refl, inl, inr, Bool, false, Option, none, some, Option-cases, List, [], arith, zero, suc,
}
use xutex.WaitQueue.Lock.{LockMove, Tag, null, published, held}
use xutex.Pool.Pointer.{pointer_tag}
use xutex.Pool.SegQueue.{SegQueue}
use xutex.Pool.State.{
  Use, takes, gives, PoolPlace, idle, absent, loading, seeing, pooling, filling, publishing,
  freeing, exchanging, locked, clearing, PoolView, PoolCall, locks, edits, unlocks,
}
use xutex.Pool.Steps.{
  lock_round, unlock_queue, clear_pointer, find_pool, fill_pool, publish_pool, free_popped,
  take_popped, use_pool, pool_advance, pool_begin,
}
use xutex.Pool.Invariant.{Before}

-- What the closure of a call does to the nodes.
abbrev pub edit : PoolCall → List ℕ → List ℕ
edit (edits f) q = f q
edit _ q = q

module _ {Q : Type 0} where
  -- The nodes that the holder of a lock works on.
  abbrev pub own_nodes : PoolPlace Q → (ℕ → List ℕ) → List ℕ
  own_nodes (locked p) nodes = nodes p
  own_nodes _ nodes = []

  -- The nodes of a wait queue, as a caller sees them that has its lock if anyone has.
  abbrev pub view_nodes : Tag → PoolView Q → List ℕ
  view_nodes null v = []
  view_nodes published v = v.nodes v.word
  view_nodes held v = own_nodes v.caller.place v.nodes

  abbrev pub Turn : (List ℕ → List ℕ) → PoolView Q → PoolView Q → Type 0
  Turn f v v' =
      let t = pointer_tag v.word in
      let t' = pointer_tag v'.word in LockMove f t (view_nodes t v) t' (view_nodes t' v')

module _ {Q : Type 0} (seg : SegQueue Q) (v : PoolView Q) (b : Before seg v) where
  lock_round-Turn :
      (alloc : Bool) (ptr : ℕ)
      → v.caller.place ≡ seeing alloc ptr
      → Turn (λ q. q) v (lock_round alloc ptr v)
  unfolding lock_round
  lock_round-Turn alloc ptr e = ground arith

  unlock_queue-Turn : (p : ℕ) → v.caller.place ≡ locked p → Turn (λ q. q) v (unlock_queue p v)
  unfolding unlock_queue
  unlock_queue-Turn p e = ground (arith, b.owned p, b.address p)

  clear_pointer-Turn : (p : ℕ) → v.caller.place ≡ clearing p → Turn (λ q. q) v (clear_pointer p v)
  unfolding clear_pointer
  clear_pointer-Turn p e = ground (arith, b.spare_empty p)

  pub pool_begin-Turn :
      (c : PoolCall) (p : PoolPlace Q) → v.caller.place ≡ p → Turn (edit c) v (pool_begin c p v)
  unfolding pool_begin
  pool_begin-Turn unlocks (locked p) e = unlock_queue-Turn p e
  pool_begin-Turn (edits f) (locked p) e = ground (arith, b.owned p)
  pool_begin-Turn (locks w alloc) idle e = ground arith
  pool_begin-Turn (locks w alloc) absent e = ground arith
  pool_begin-Turn _ _ e = ground arith

module _ {Q : Type 0} (seg : SegQueue Q) (parallelism : ℕ) (v : PoolView Q) (b : Before seg v) where
  fill_pool-Turn :
      (box : ℕ) (u : Use) (left : ℕ) (q : Q)
      → v.live box ≡ false
      → v.caller.place ≡ filling u left q
      → Turn (λ q. q) v (fill_pool seg parallelism box u left q v)
  unfolding fill_pool
  fill_pool-Turn box u zero q fresh e = ground arith
  fill_pool-Turn box u (suc left) q fresh e = ground (arith, b.owned v.word, b.owned box)

  find_pool-Turn :
      (u : Use) → v.caller.place ≡ pooling u → Turn (λ q. q) v (find_pool seg parallelism u v)
  unfolding find_pool
  find_pool-Turn u e = ground arith

  publish_pool-Turn :
      (u : Use) (q : Q)
      → v.caller.place ≡ publishing u q
      → Turn (λ q. q) v (publish_pool seg parallelism u q v)
  unfolding publish_pool
  publish_pool-Turn u q e = ground arith

  free_popped-Turn :
      (u : Use) (q : Q)
      → v.caller.place ≡ freeing u q
      → (r : Option (ℕ × Q)) → Turn (λ q. q) v (free_popped seg parallelism u r v)
  unfolding free_popped
  free_popped-Turn u q e none = ground arith
  free_popped-Turn u q e (some (a, r)) = ground arith

  use_pool-Turn :
      (box : ℕ) (u : Use)
      → v.caller.place ≡ exchanging u
      → v.live box ≡ false
      → (root : Option Q) → v.root ≡ root
      → Turn (λ q. q) v (use_pool seg parallelism box u root v)
  unfolding use_pool take_popped
  use_pool-Turn box u e fresh none r = ground arith
  use_pool-Turn box (gives p) e fresh (some q) r = ground arith
  use_pool-Turn box takes e fresh (some q) r = elim (Option-cases (seg.pop q)) [
    | inl empty ↦ rw empty (ground (arith, b.owned box, b.owned v.word))
    | inr ((a, rest), got) ↦ rw got (ground (arith, seg.pop-some q rest a got, b.pool_empty a))
  ]

  pub pool_advance-Turn :
      (box : ℕ) (p : PoolPlace Q)
      → v.caller.place ≡ p
      → v.live box ≡ false
      → Turn (λ q. q) v (pool_advance seg parallelism box p v)
  unfolding pool_advance
  pool_advance-Turn box (seeing alloc ptr) e fresh = lock_round-Turn seg v b alloc ptr e
  pool_advance-Turn box (pooling u) e fresh = find_pool-Turn u e
  pool_advance-Turn box (filling u left q) e fresh = fill_pool-Turn box u left q fresh e
  pool_advance-Turn box (publishing u q) e fresh = publish_pool-Turn u q e
  pool_advance-Turn box (freeing u q) e fresh = free_popped-Turn u q e (seg.pop q)
  pool_advance-Turn box (exchanging u) e fresh = use_pool-Turn box u e fresh v.root refl
  pool_advance-Turn box (clearing p) e fresh = clear_pointer-Turn seg v b p e
  pool_advance-Turn box (loading alloc) e fresh = ground arith
  pool_advance-Turn box idle e fresh = ground arith
  pool_advance-Turn box absent e fresh = ground arith
  pool_advance-Turn box (locked p) e fresh = ground arith
