-- ===== src/Pool/Tests.antt =====
-- Runs of two callers on two wait queues with one pool, which stands on a list.
use xutex.Prelude.{
  ℕ, zero, suc, ◌+◌, ◌%◌, ◌≤◌, ◌≡◌, ◌≢◌, refl, Bool, true, false, ◌&&◌, not, Option, none, some,
  List, [], ◌∷◌, ◌++◌, ◌==◌, ltb, arith, length,
}
use xutex.WaitQueue.Lock.{held_count}
use xutex.Pool.Pointer.{updating_ptr, pointer_tag}
use xutex.Pool.SegQueue.{SegQueue}
use xutex.Pool.State.{
  locks, edits, unlocks, PoolEvent, call, run, Pools, absent, seeing, locked, loading,
}
use xutex.Pool.Steps.{
  pool_step, pool_steps, pool_advance, pool_begin, lock_round, unlock_queue, find_pool, fill_pool,
  publish_pool, use_pool, take_popped, clear_pointer, free_popped, new_pools, call_target, Allowed,
  AllAllowed,
}
use xutex.Pool.Invariant.{owners, alive, points, locks_on}
use xutex.Pool.Refinement.{Continues, Shows, event_edit}
use xutex.Pool.Safety.{pool_reach, pool-owns, pool-excludes, pool-refines, lock-misses}
use xutex.Pool.Alone.{runs, lock-finishes}

pop_list : List ℕ → Option (ℕ × List ℕ)
pop_list [] = none
pop_list (a ∷ q) = some (a, q)

pop_list-none : (q : List ℕ) → pop_list q ≡ none → q ≡ []
unfolding pop_list
pop_list-none [] e = refl
pop_list-none (a ∷ q) e = ground arith

pop_list-some : (q r : List ℕ) (a : ℕ) → pop_list q ≡ some (a, r) → q ≡ a ∷ r
unfolding pop_list
pop_list-some [] r a e = ground arith
pop_list-some (x ∷ q) r a e = ground arith

abbrev list_queue : SegQueue (List ℕ)
list_queue = record {
  new = [];
  push = λ a q. q ++ a ∷ [];
  pop = pop_list;
  contents = λ q. q;
  contents-new = refl;
  contents-push = λ a q. refl;
  pop-none = pop_list-none;
  pop-some = pop_list-some;
}

-- Whether the next events are allowed, as a test.
allows : (m n : ℕ) → PoolEvent → Pools (List ℕ) → Bool
allows m n (call i c) s = ltb i n && ltb (call_target c (s.caller i)) m
allows m n (run i box) s =
    ltb i n && (box % 2 == 0 && (ltb 0 box && (ltb box updating_ptr && not (s.live box))))

allows_all : (m n : ℕ) → List PoolEvent → Pools (List ℕ) → Bool
allows_all m n [] s = true
allows_all m n (e ∷ es) s = allows m n e s && allows_all m n es (pool_step list_queue 1 e s)

AllAllowed-of :
    (m n : ℕ) (es : List PoolEvent) (s : Pools (List ℕ))
    → allows_all m n es s ≡ true
    → AllAllowed list_queue 1 m n es s
unfolding allows_all allows
AllAllowed-of m n [] s h = tt
AllAllowed-of m n (call i c ∷ es) s h =
    (ground (arith, h), AllAllowed-of m n es _ (ground (arith, h)))
AllAllowed-of m n (run i box ∷ es) s h =
    (ground (arith, h), AllAllowed-of m n es _ (ground (arith, h)))

-- The addresses after `a`.
addresses : ℕ → ℕ → List ℕ
addresses a zero = []
addresses a (suc k) = (a + 16) ∷ addresses (a + 16) k

-- Caller 0 locks the wait queue 0, which makes the pool, and caller 1 the other.
abbrev two_locks : List PoolEvent
two_locks =
    call 0 (locks 0 true) ∷ runs 0 (addresses 0 22)
    ++ call 1 (locks 1 true) ∷ runs 1 (addresses 1024 4)

abbrev start : Pools (List ℕ)
start = new_pools

two_locks_allowed : AllAllowed list_queue 1 2 2 two_locks start
unfolding allows_all allows addresses pop_list pool_step pool_steps pool_begin pool_advance
    lock_round unlock_queue find_pool fill_pool publish_pool use_pool take_popped clear_pointer
    free_popped
two_locks_allowed = AllAllowed-of 2 2 two_locks start refl

first_locked : ((pool_reach list_queue 1 two_locks).caller 0).place ≡ locked 64
unfolding allows_all allows addresses pop_list pool_step pool_steps pool_begin pool_advance
    lock_round unlock_queue find_pool fill_pool publish_pool use_pool take_popped clear_pointer
    free_popped
first_locked = refl

second_locked : ((pool_reach list_queue 1 two_locks).caller 1).place ≡ locked 80
unfolding allows_all allows addresses pop_list pool_step pool_steps pool_begin pool_advance
    lock_round unlock_queue find_pool fill_pool publish_pool use_pool take_popped clear_pointer
    free_popped
second_locked = refl

pool-owns_example :
    owners list_queue 2 2 64 (pool_reach list_queue 1 two_locks)
    ≡ alive list_queue ((pool_reach list_queue 1 two_locks).live 64)
pool-owns_example = pool-owns list_queue 1 2 2 two_locks (omega arith) two_locks_allowed 64

pool-excludes_example :
    (((pool_reach list_queue 1 two_locks).caller 0).target
      ≢ ((pool_reach list_queue 1 two_locks).caller 1).target)
    × (◌≢◌ {A = ℕ} 64 80)
    × (points 64 ((pool_reach list_queue 1 two_locks).words 0) ≡ 0)
    × (points 80 ((pool_reach list_queue 1 two_locks).words 0) ≡ 0)
pool-excludes_example =
    pool-excludes list_queue 1 2 2 two_locks (omega arith) two_locks_allowed 0 1 64 80 0
      (omega arith) (omega arith) refl first_locked second_locked (omega arith)

-- The two callers add a node each, and unlock.
abbrev two_queues : List PoolEvent
two_queues =
    two_locks
    ++ call 0 (edits (λ q. q ++ 5 ∷ []))
      ∷ call 1 (edits (λ q. q ++ 6 ∷ []))
      ∷ call 0 unlocks
      ∷ call 1 unlocks
      ∷ []

two_queues_allowed : AllAllowed list_queue 1 2 2 two_queues start
unfolding allows_all allows addresses pop_list pool_step pool_steps pool_begin pool_advance
    lock_round unlock_queue find_pool fill_pool publish_pool use_pool take_popped clear_pointer
    free_popped
two_queues_allowed = AllAllowed-of 2 2 two_queues start refl

-- Caller 0 adds a second node.
abbrev second_edit : PoolEvent
second_edit = call 0 (edits (λ q. q ++ 7 ∷ []))

second_edit-Allowed : Allowed list_queue 1 2 2 second_edit (pool_reach list_queue 1 two_locks)
unfolding allows_all allows addresses pop_list pool_step pool_steps pool_begin pool_advance
    lock_round unlock_queue find_pool fill_pool publish_pool use_pool take_popped clear_pointer
    free_popped
second_edit-Allowed = (omega arith, omega arith)

first-Shows :
    Shows 2 0
      (pool_reach list_queue 1 two_locks)
      (pointer_tag ((pool_reach list_queue 1 two_locks).words 0))
      []
unfolding allows_all allows addresses pop_list pool_step pool_steps pool_begin pool_advance
    lock_round unlock_queue find_pool fill_pool publish_pool use_pool take_popped clear_pointer
    free_popped
first-Shows = (0, omega arith, refl, refl)

pool-refines_example :
    Continues 2 0
      (event_edit second_edit)
      (pool_reach list_queue 1 two_locks)
      (pool_step list_queue 1 second_edit (pool_reach list_queue 1 two_locks))
      []
pool-refines_example =
    pool-refines list_queue 1 2 2 two_locks (omega arith) two_locks_allowed second_edit
      second_edit-Allowed 0 (omega arith) [] first-Shows

-- Caller 0 begins to lock the wait queue of caller 1.
abbrev relocking : List PoolEvent
relocking = two_queues ++ call 0 (locks 1 true) ∷ []

relocking_allowed : AllAllowed list_queue 1 2 2 relocking start
unfolding allows_all allows addresses pop_list pool_step pool_steps pool_begin pool_advance
    lock_round unlock_queue find_pool fill_pool publish_pool use_pool take_popped clear_pointer
    free_popped
relocking_allowed = AllAllowed-of 2 2 relocking start refl

relocking_begun : ((pool_reach list_queue 1 relocking).caller 0).place ≡ loading true
unfolding allows_all allows addresses pop_list pool_step pool_steps pool_begin pool_advance
    lock_round unlock_queue find_pool fill_pool publish_pool use_pool take_popped clear_pointer
    free_popped
relocking_begun = refl

relocking_free :
    held_count (
      pointer_tag (
        (pool_reach list_queue 1 relocking).words
          ((pool_reach list_queue 1 relocking).caller 0).target))
    ≡ 0
unfolding allows_all allows addresses pop_list pool_step pool_steps pool_begin pool_advance
    lock_round unlock_queue find_pool fill_pool publish_pool use_pool take_popped clear_pointer
    free_popped
relocking_free = refl

relocking-runs :
    AllAllowed list_queue 1 2 2 (runs 0 (addresses 2048 263)) (pool_reach list_queue 1 relocking)
unfolding allows_all allows addresses pop_list pool_step pool_steps pool_begin pool_advance
    lock_round unlock_queue find_pool fill_pool publish_pool use_pool take_popped clear_pointer
    free_popped
relocking-runs =
    AllAllowed-of 2 2 (runs 0 (addresses 2048 263)) (pool_reach list_queue 1 relocking) refl

length-addresses : 263 ≤ length (addresses 2048 263)
unfolding addresses
length-addresses = omega arith

lock-finishes_example :
    (a : ℕ) × (((pool_steps list_queue 1
          (runs 0 (addresses 2048 263))
          (pool_reach list_queue 1 relocking)).caller
        0).place
      ≡ locked a)
lock-finishes_example =
    lock-finishes list_queue 1 2 2 relocking (omega arith) relocking_allowed 0 (addresses 2048 263)
      relocking-runs relocking_begun relocking_free length-addresses

-- Caller 0 asks for the queue of a wait queue that has none.
abbrev missing : List PoolEvent
missing = call 0 (locks 0 false) ∷ run 0 16 ∷ []

missing_allowed : AllAllowed list_queue 1 1 1 missing start
unfolding allows_all allows pool_step pool_begin pool_advance
missing_allowed = AllAllowed-of 1 1 missing start refl

missing_sees : ((pool_reach list_queue 1 missing).caller 0).place ≡ seeing false 0
unfolding pool_step pool_steps pool_begin pool_advance
missing_sees = refl

missing_ends :
    ((pool_step list_queue 1 (run 0 16) (pool_reach list_queue 1 missing)).caller 0).place ≡ absent
unfolding pool_step pool_steps pool_begin pool_advance lock_round
missing_ends = refl

lock-misses_example :
    (false ≡ false)
    × ((pool_reach list_queue 1 missing).words ((pool_reach list_queue 1 missing).caller 0).target
        ≡ 0)
    × (locks_on
          ((pool_reach list_queue 1 missing).caller 0).target
          ((pool_reach list_queue 1 missing).caller 0)
        ≡ 0)
lock-misses_example =
    lock-misses list_queue 1 1 1 missing (omega arith) missing_allowed 0 16 0 false 0 (omega arith)
      (omega arith) missing_sees missing_ends
