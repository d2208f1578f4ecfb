-- ===== src/Pool/Invariant.antt =====
-- xutex-pool/src/lib.rs and src/wait_queue.rs: who owns each queue, and who holds each lock.
use xutex.Prelude.{
  ℕ, ◌+◌, ◌≤◌, ◌<◌, ◌≡◌, Bool, true, false, Option, none, some, [], ◌==◌, if◌then◌else◌, is_nil,
  count, total,
}
use xutex.WaitQueue.Lock.{Tag, published, held_count}
use xutex.Pool.Pointer.{pointer_tag, IsAddress}
use xutex.Pool.SegQueue.{SegQueue}
use xutex.Pool.State.{
  Use, takes, gives, PoolPlace, pooling, filling, publishing, freeing, exchanging, locked, clearing,
  PoolCaller, PoolView, Pools,
}

abbrev pub published_count : Tag → ℕ
published_count published = 1
published_count _ = 0

-- Whether a pointer is the plain address `a`.
abbrev pub points : ℕ → ℕ → ℕ
points a p = if p == a then published_count (pointer_tag p) else 0

abbrev pub used : ℕ → Use → ℕ
used a takes = 0
used a (gives p) = if p == a then 1 else 0

abbrev pub use_locks : Use → ℕ
use_locks takes = 1
use_locks (gives p) = 0

module _ {Q : Type 0} where
  abbrev pub locked_queue : ℕ → PoolPlace Q → ℕ
  locked_queue a (locked p) = if p == a then 1 else 0
  locked_queue a _ = 0

  -- Whether a caller there has the lock of its wait queue.
  abbrev pub lock_weight : PoolPlace Q → ℕ
  lock_weight (pooling u) = use_locks u
  lock_weight (filling u left q) = use_locks u
  lock_weight (publishing u q) = use_locks u
  lock_weight (freeing u q) = use_locks u
  lock_weight (exchanging u) = use_locks u
  lock_weight (locked p) = 1
  lock_weight (clearing p) = 1
  lock_weight _ = 0

  abbrev pub locks_on : ℕ → PoolCaller Q → ℕ
  locks_on w c = if c.target == w then lock_weight c.place else 0

  abbrev pub needs_pool : PoolPlace Q → Bool
  needs_pool (freeing u q) = true
  needs_pool (exchanging u) = true
  needs_pool _ = false

  abbrev pub is_some : Option Q → Bool
  is_some none = false
  is_some (some q) = true

module _ {Q : Type 0} (seg : SegQueue Q) where
  -- Whether a caller there owns the queue at `a`, which must be empty.
  abbrev pub spare : ℕ → PoolPlace Q → ℕ
  spare a (pooling u) = used a u
  spare a (filling u left q) = used a u + count a (seg.contents q)
  spare a (publishing u q) = used a u + count a (seg.contents q)
  spare a (freeing u q) = used a u + count a (seg.contents q)
  spare a (exchanging u) = used a u
  spare a (clearing p) = if p == a then 1 else 0
  spare a _ = 0

  abbrev pub hand : ℕ → PoolCaller Q → ℕ
  hand a c = spare a c.place + locked_queue a c.place

  abbrev pub pooled : ℕ → Option Q → ℕ
  pooled a none = 0
  pooled a (some q) = count a (seg.contents q)

  abbrev pub alive : Bool → ℕ
  alive b = if b then 1 else 0

  -- How many owners the queue at `a` has: the pool, a pointer, or a caller.
  abbrev pub owners : (m n a : ℕ) → Pools Q → ℕ
  owners m n a s = pooled a s.root + total (points a) m s.words + total (hand a) n s.caller

  pub record Inv (m n : ℕ) (s : Pools Q) : Type 0 where
    pub owned : (a : ℕ) → owners m n a s ≡ alive (s.live a)
    pub tag : (w : ℕ) → w < m → total (locks_on w) n s.caller ≡ held_count (pointer_tag (s.words w))
    pub address : (a : ℕ) → s.live a ≡ true → IsAddress a
    pub pool_empty : (a : ℕ) → 0 < pooled a s.root → s.nodes a ≡ []
    pub spare_empty : (i a : ℕ) → i < n → 0 < spare a (s.caller i).place → s.nodes a ≡ []
    pub nonempty :
        (w : ℕ) → w < m → pointer_tag (s.words w) ≡ published → is_nil (s.nodes (s.words w)) ≡ false
    pub target : (i : ℕ) → (s.caller i).target < m
    pub ready : (i : ℕ) → needs_pool (s.caller i).place ≡ true → is_some s.root ≡ true

  -- What a step of a caller may rely on.
  pub record Before (v : PoolView Q) : Type 0 where
    pub owned : (a : ℕ) → pooled a v.root + points a v.word + hand a v.caller ≤ alive (v.live a)
    pub tag : lock_weight v.caller.place ≤ held_count (pointer_tag v.word)
    pub address : (a : ℕ) → v.live a ≡ true → IsAddress a
    pub pool_empty : (a : ℕ) → 0 < pooled a v.root → v.nodes a ≡ []
    pub spare_empty : (a : ℕ) → 0 < spare a v.caller.place → v.nodes a ≡ []
    pub nonempty : pointer_tag v.word ≡ published → is_nil (v.nodes v.word) ≡ false

  -- What it does.
  pub record Moved (w : ℕ) (v v' : PoolView Q) : Type 0 where
    pub owned :
        (a : ℕ)
        → pooled a v'.root + points a v'.word + hand a v'.caller + alive (v.live a)
          ≡ pooled a v.root + points a v.word + hand a v.caller + alive (v'.live a)
    pub tag :
        (x : ℕ)
        → locks_on x v'.caller + (if x == w then held_count (pointer_tag v.word) else 0)
          ≡ locks_on x v.caller + (if x == w then held_count (pointer_tag v'.word) else 0)
    pub address : (a : ℕ) → v'.live a ≡ true → IsAddress a
    pub pool_empty : (a : ℕ) → 0 < pooled a v'.root → v'.nodes a ≡ []
    pub spare_empty : (a : ℕ) → 0 < spare a v'.caller.place → v'.nodes a ≡ []
    pub nonempty : pointer_tag v'.word ≡ published → is_nil (v'.nodes v'.word) ≡ false
    -- Queues that others own keep their nodes.
    pub frame : (a : ℕ) → hand a v.caller ≡ 0 → v.live a ≡ true → v'.nodes a ≡ v.nodes a
    pub kept : is_some v.root ≡ true → is_some v'.root ≡ true
    pub ready : needs_pool v'.caller.place ≡ true → is_some v'.root ≡ true
    pub target : v'.caller.target ≡ w
