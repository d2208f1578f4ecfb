-- ===== src/Pool/Steps.antt =====
-- xutex-pool/src/lib.rs and src/wait_queue.rs: callers that lock and unlock wait queues, which share
-- one pool, a step at a time in any order; a step goes up to and with the next access to memory that
-- others share. Memory accesses are sequentially consistent. The address that `Box::new` returns, if
-- a step makes a queue, is an argument of the step.
use xutex.Prelude.{
  ℕ, zero, suc, ◌*◌, ◌<◌, ◌≡◌, min, Bool, true, false, Option, none, some, List, [], ◌∷◌, ◌==◌,
  ◌||◌, if◌then◌else◌, is_nil, update,
}
use xutex.Pool.Pointer.{updating_ptr, tag_pointer, untag_pointer, IsAddress}
use xutex.Pool.SegQueue.{SegQueue}
use xutex.Pool.State.{
  Use, takes, gives, PoolPlace, idle, absent, loading, seeing, pooling, filling, publishing,
  freeing, exchanging, locked, clearing, PoolCaller, new_pool_caller, PoolView, PoolCall, locks,
  edits, unlocks, PoolEvent, call, run, Pools,
}

module _ {Q : Type 0} where
  abbrev goto : PoolPlace Q → PoolView Q → PoolView Q
  goto p v = record v { caller = record v.caller { place = p } }

  abbrev set_word : ℕ → PoolView Q → PoolView Q
  set_word p v = record v { word = p }

  -- `Box::leak(Box::new(QueueStructure::new()))`
  abbrev allocate : (box : ℕ) → PoolView Q → PoolView Q
  allocate box v = record v { nodes = update v.nodes box []; live = update v.live box true }

  -- A compare-exchange of the pointer.
  abbrev exchange :
      (expected new : ℕ) → (alloc : Bool) → (won : PoolPlace Q) → PoolView Q → PoolView Q
  exchange expected new alloc won v =
      if v.word == expected then goto won (set_word new v) else goto (seeing alloc v.word) v

  -- One round of the loop of `lock`.
  unfoldable pub lock_round : (alloc : Bool) (ptr : ℕ) → PoolView Q → PoolView Q
  lock_round alloc ptr v =
      if ptr == 0
      then if alloc
        then exchange 0 updating_ptr alloc (pooling takes) v
        else exchange 0 0 alloc absent v
      else if ptr == updating_ptr || (untag_pointer ptr).1
      then goto (seeing alloc v.word) v
      else exchange (untag_pointer ptr).0 (tag_pointer (untag_pointer ptr).0) alloc
          (locked (untag_pointer ptr).0) v

  -- `unlock`: with nodes, the queue is published; without, `on_empty` runs.
  unfoldable pub unlock_queue : ℕ → PoolView Q → PoolView Q
  unlock_queue p v = if is_nil (v.nodes p) then goto (clearing p) v else goto idle (set_word p v)

  -- Its store of null.
  unfoldable pub clear_pointer : ℕ → PoolView Q → PoolView Q
  clear_pointer p v = goto (pooling (gives p)) (set_word 0 v)

  -- A call begins; one that does not fit the caller's place changes nothing.
  unfoldable pub pool_begin : PoolCall → PoolPlace Q → PoolView Q → PoolView Q
  unfolding unlock_queue
  pool_begin (locks w alloc) idle v = record v {
    caller = record { target = w; place = loading alloc };
  }
  pool_begin (locks w alloc) absent v = record v {
    caller = record { target = w; place = loading alloc };
  }
  pool_begin (edits f) (locked p) v = record v { nodes = update v.nodes p (f (v.nodes p)) }
  pool_begin unlocks (locked p) v = unlock_queue p v
  pool_begin _ _ v = v

module _ {Q : Type 0} (seg : SegQueue Q) (parallelism : ℕ) where
  -- `pool`: the published pool, or `init_pool`.
  unfoldable pub find_pool : Use → PoolView Q → PoolView Q
  find_pool u v = elim v.root [
    | none ↦ goto (filling u (min (parallelism * 16) 128) seg.new) v
    | some q ↦ goto (exchanging u) v
  ]

  -- A round of the loop that fills the pool, or its end.
  unfoldable pub fill_pool : (box : ℕ) → Use → ℕ → Q → PoolView Q → PoolView Q
  fill_pool box u zero q v = goto (publishing u q) v
  fill_pool box u (suc left) q v = goto (filling u left (seg.push box q)) (allocate box v)

  -- The compare-exchange of `POOL`.
  unfoldable pub publish_pool : Use → Q → PoolView Q → PoolView Q
  publish_pool u q v = elim v.root [
    | none ↦ goto (exchanging u) (record v { root = some q })
    | some other ↦ goto (freeing u q) v
  ]

  -- A round of the loop that frees a build that lost, by what `pop` returned.
  unfoldable pub free_popped : Use → Option (ℕ × Q) → PoolView Q → PoolView Q
  free_popped u none v = goto (exchanging u) v
  free_popped u (some (a, q)) v = record (goto (freeing u q) v) { live = update v.live a false }

  -- `allocate_queue`, by what `pop` returned, and the end of `lock`.
  unfoldable pub take_popped : (box : ℕ) → Option (ℕ × Q) → PoolView Q → PoolView Q
  take_popped box none v = goto (locked box) (allocate box v)
  take_popped box (some (a, q)) v = goto (locked a) (record v { root = some q })

  -- `allocate_queue` and `deallocate_queue`, after `pool`.
  unfoldable pub use_pool : (box : ℕ) → Use → Option Q → PoolView Q → PoolView Q
  unfolding take_popped
  use_pool box u none v = v
  use_pool box takes (some q) v = take_popped box (seg.pop q) v
  use_pool box (gives p) (some q) v = goto idle (record v { root = some (seg.push p q) })

  -- One step of a caller.
  unfoldable pub pool_advance : (box : ℕ) → PoolPlace Q → PoolView Q → PoolView Q
  unfolding free_popped
  pool_advance box (loading alloc) v = goto (seeing alloc v.word) v
  pool_advance box (seeing alloc ptr) v = lock_round alloc ptr v
  pool_advance box (pooling u) v = find_pool u v
  pool_advance box (filling u left q) v = fill_pool box u left q v
  pool_advance box (publishing u q) v = publish_pool u q v
  pool_advance box (freeing u q) v = free_popped u (seg.pop q) v
  pool_advance box (exchanging u) v = use_pool box u v.root v
  pool_advance box (clearing p) v = clear_pointer p v
  pool_advance box _ v = v

module _ {Q : Type 0} where
  -- What caller `i` sees, if it deals with the wait queue `w`.
  abbrev pub view : (w i : ℕ) → Pools Q → PoolView Q
  view w i s = record {
    word = s.words w;
    root = s.root;
    nodes = s.nodes;
    live = s.live;
    caller = s.caller i;
  }

  abbrev pub put : (w i : ℕ) → Pools Q → PoolView Q → Pools Q
  put w i s v = record {
    words = update s.words w v.word;
    root = v.root;
    nodes = v.nodes;
    live = v.live;
    caller = update s.caller i v.caller;
  }

  -- The wait queue that a call is about.
  abbrev pub call_target : PoolCall → PoolCaller Q → ℕ
  call_target (locks w alloc) c = elim c.place [ idle ↦ w | absent ↦ w | _ ↦ c.target ]
  call_target _ c = c.target

  -- `WaitQueue::new` for each wait queue, and `POOL`.
  abbrev pub new_pools : Pools Q
  new_pools = record {
    words = λ w. 0;
    root = none;
    nodes = λ a. [];
    live = λ a. false;
    caller = λ i. new_pool_caller;
  }

module _ {Q : Type 0} (seg : SegQueue Q) (parallelism : ℕ) where
  unfoldable pub pool_step : PoolEvent → Pools Q → Pools Q
  pool_step (call i c) s =
      let w = call_target c (s.caller i) in put w i s (pool_begin c (s.caller i).place (view w i s))
  pool_step (run i box) s =
      let w = (s.caller i).target in
      put w i s (pool_advance seg parallelism box (s.caller i).place (view w i s))

  unfoldable pub pool_steps : List PoolEvent → Pools Q → Pools Q
  pool_steps [] s = s
  pool_steps (e ∷ es) s = pool_steps es (pool_step e s)

  -- The events are those of the first `n` callers, on the first `m` wait queues, and the allocator
  -- returns an address that is not in use.
  abbrev pub Allowed : (m n : ℕ) → PoolEvent → Pools Q → Type 0
  Allowed m n (call i c) s = (i < n) × (call_target c (s.caller i) < m)
  Allowed m n (run i box) s = (i < n) × IsAddress box × (s.live box ≡ false)

  abbrev pub AllAllowed : (m n : ℕ) → List PoolEvent → Pools Q → Type 0
  AllAllowed m n [] s = Unit {0}
  AllAllowed m n (e ∷ es) s = Allowed m n e s × AllAllowed m n es (pool_step e s)
