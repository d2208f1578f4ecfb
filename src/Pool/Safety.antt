-- ===== src/Pool/Safety.antt =====
-- src/wait_queue.rs and xutex-pool/src/lib.rs: what follows for the states that callers reach.
use xutex.Prelude.{
  ℕ, ◌<◌, ◌≡◌, ◌≢◌, refl, ap, true, false, List, ◌==◌, is_nil, arith, Bool, ==_refl, two-le-total,
  weight-le-total,
}
use xutex.WaitQueue.Lock.{published}
use xutex.Pool.Pointer.{pointer_tag}
use xutex.Pool.SegQueue.{SegQueue}
use xutex.Pool.State.{locked, seeing, absent, run, PoolEvent, Pools, new_pool_caller}
use xutex.Pool.Steps.{
  lock_round, pool_advance, pool_step, pool_steps, new_pools, AllAllowed, Allowed,
}
use xutex.Pool.Invariant.{Inv, hand, locks_on, owners, alive, points}
use xutex.Pool.Reach.{new_pools-Inv, pool_steps-Inv}
use xutex.Pool.Refinement.{Shows, Continues, pool_step-onward, event_edit}

-- The state after the events, with all pointers null and no pool at first.
abbrev pub pool_reach : {Q : Type 0} → SegQueue Q → ℕ → List PoolEvent → Pools Q
pool_reach seg parallelism es = pool_steps seg parallelism es new_pools

module _ {Q : Type 0} (seg : SegQueue Q) (parallelism m n : ℕ) (es : List PoolEvent)
    (some_queue : 0 < m) (allowed : AllAllowed seg parallelism m n es new_pools) where
  abbrev reached : Pools Q
  reached = pool_reach seg parallelism es

  reached-Inv : Inv seg m n reached
  reached-Inv =
      pool_steps-Inv seg parallelism es new_pools (new_pools-Inv seg parallelism m n some_queue)
        allowed

  -- In every state that `n` callers of `m` wait queues reach: a queue that has been allocated has
  -- exactly one owner, the pool, one pointer, or one caller; one that has not been has none.
  pub pool-owns : (a : ℕ) → owners seg m n a reached ≡ alive seg (reached.live a)
  pool-owns a = reached-Inv.owned a

  unpublished :
      (i p w : ℕ)
      → i < n
      → (reached.caller i).place ≡ locked p
      → w < m
      → points p (reached.words w) ≡ 0
  unpublished i p w lt here small = ground (
    arith,
    weight-le-total (hand seg p) n reached.caller i lt,
    weight-le-total (points p) m reached.words w small,
    reached-Inv.owned p,
  )

  -- In every state that `n` callers of `m` wait queues reach: of two callers that own a locked queue,
  -- the wait queues differ, the queues differ, and no pointer shows the queue of either as published.
  pub pool-excludes :
      (i j p p' w : ℕ)
      → i < n
      → j < n
      → (j == i) ≡ false
      → (reached.caller i).place ≡ locked p
      → (reached.caller j).place ≡ locked p'
      → w < m
      → ((reached.caller i).target ≢ (reached.caller j).target)
        × (p ≢ p')
        × (points p (reached.words w) ≡ 0)
        × (points p' (reached.words w) ≡ 0)
  pool-excludes i j p p' w lt lj apart here there small = (
    λ same. ground (
      arith,
      same,
      two-le-total (locks_on (reached.caller i).target) n reached.caller i j new_pool_caller
          (ground arith) lt lj apart,
      reached-Inv.tag (reached.caller i).target (reached-Inv.target i),
    ),
    λ same. ground (
      arith,
      same,
      two-le-total (hand seg p) n reached.caller i j new_pool_caller refl lt lj apart,
      reached-Inv.owned p,
    ),
    unpublished i p w lt here small,
    unpublished j p' w lj there small,
  )

  -- In every state that `n` callers of `m` wait queues reach: a published pointer is the address of an
  -- allocated queue that is not empty, and the pointer of another wait queue is not that address.
  pub pool-publishes :
      (w x : ℕ)
      → w < m
      → x < m
      → (x == w) ≡ false
      → pointer_tag (reached.words w) ≡ published
      → (reached.live (reached.words w) ≡ true)
        × (is_nil (reached.nodes (reached.words w)) ≡ false)
        × (reached.words x ≢ reached.words w)
  pool-publishes w x small le apart shown =
      let a = reached.words w in
      let one : points a a ≡ 1 = ground (arith, shown) in
      let sum = reached-Inv.owned a in
      (
        ground (arith, one, sum, weight-le-total (points a) m reached.words w small),
        reached-Inv.nonempty w small shown,
        λ same. ground (
          arith,
          one,
          sum,
          ap (points a) same,
          two-le-total (points a) m reached.words w x 0 (ground arith) small le apart,
        ),
      )

  -- In every state that `n` callers of `m` wait queues reach, and for every event that may come next:
  -- if `q` is the list of nodes of a wait queue, then the event takes its lock and its list to others
  -- as the contract of the lock allows. A lock is taken with the nodes that were published, or with
  -- none if there was no queue; nodes change only under the lock, by the closure that its holder runs;
  -- it is given up with the nodes that there are, as a published queue if there are any, else as none.
  pub pool-refines :
      (e : PoolEvent)
      → Allowed seg parallelism m n e reached
      → (w : ℕ) → w < m
      → (q : List ℕ) → Shows n w reached (pointer_tag (reached.words w)) q
      → Continues n w (event_edit e) reached (pool_step seg parallelism e reached) q
  pool-refines e a w small q shows =
      pool_step-onward seg parallelism reached e reached-Inv a w small q shows

  -- In every state that `n` callers of `m` wait queues reach: if a round of `lock` returns `None`, then
  -- it was not asked to make a queue, the wait queue has none when the round is taken, whatever pointer
  -- was read before, and no caller has its lock.
  pub lock-misses :
      (i box ptr : ℕ) (alloc : Bool) (j : ℕ)
      → i < n
      → j < n
      → (reached.caller i).place ≡ seeing alloc ptr
      → ((pool_step seg parallelism (run i box) reached).caller i).place ≡ absent
      → (alloc ≡ false)
        × (reached.words (reached.caller i).target ≡ 0)
        × (locks_on (reached.caller i).target (reached.caller j) ≡ 0)
  unfolding pool_step pool_advance lock_round
  lock-misses i box ptr alloc j lt lj here missed =
      let w = (reached.caller i).target in
      let free = reached-Inv.tag w (reached-Inv.target i) in
      let miss : (alloc ≡ false) × (reached.words w ≡ 0) =
        ground (arith, here, rw (==_refl i, here) at missed) in
      (
        miss.0,
        miss.1,
        ground (arith, free, miss.1, weight-le-total (locks_on w) n reached.caller j lj),
      )
