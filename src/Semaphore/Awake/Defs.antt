-- ===== src/Semaphore/Awake/Defs.antt =====
-- src/semaphore.rs: why no waiter is left asleep. Whatever a queued waiter could take is either short
-- of its need, or somebody is on the way to hand it over.
use xutex.Prelude.{
  ℕ, ◌+◌, ◌≤◌, ◌<◌, ◌≡◌, ◌⊎◌, true, false, List, [], ◌∷◌, ◌++◌, is_nil, erase, ltb, if◌then◌else◌,
  total,
}
use xutex.Semaphore.State.{
  SemCore, Then, gives, drains, Pc, deciding, unlocking, unpublishing, releasing, drain_locking,
  drain_loading, draining, assigning, returning, close_locking, close_popping, Task, Local,
}
use xutex.Semaphore.Steps.{is_head}
use xutex.Semaphore.System.{System}

abbrev pub then_drains : Then → ℕ
then_drains (gives g) = if ltb 0 g then 1 else 0
then_drains drains = 1
then_drains _ = 0

-- Whether a caller is on the way to a drain that will read the pool.
abbrev pub drain_count : Pc → ℕ
drain_count (unlocking k) = then_drains k
drain_count (unpublishing k) = then_drains k
drain_count (releasing n) = if ltb 0 n then 1 else 0
drain_count drain_locking = 1
drain_count drain_loading = 1
drain_count _ = 0

-- Whether it has read the pool and has yet to serve the queue.
abbrev pub serve_count : Pc → ℕ
serve_count (draining c) = 1
serve_count (assigning a) = 1
serve_count _ = 0

-- Whether it is on the way to fail all waiters.
abbrev pub close_count : Pc → ℕ
close_count close_locking = 1
close_count close_popping = 1
close_count _ = 0

-- The callers of each kind.
pub record Busy : Type 0 where
  pub drain : ℕ
  pub serve : ℕ
  pub close : ℕ

abbrev pub busy : ℕ → (ℕ → Task) → Busy
busy n f = record {
  drain = total (λ t. drain_count t.pc) n f;
  serve = total (λ t. serve_count t.pc) n f;
  close = total (λ t. close_count t.pc) n f;
}

-- One caller leaves a place for another.
abbrev pub Moves : Busy → Busy → Pc → Pc → Type 0
Moves d d' p p' =
    (drain_count p' + d.drain ≡ drain_count p + d'.drain)
    × (serve_count p' + d.serve ≡ serve_count p + d'.serve)
    × (close_count p' + d.close ≡ close_count p + d'.close)

-- What the head of the queue lacks.
abbrev pub need : List ℕ → (ℕ → Task) → ℕ
need [] f = 0
need (j ∷ js) f = (f j).aux

-- What a caller that holds the lock has learnt of the pool is still true, or a caller is on the way
-- to make up for it.
abbrev pub Watch : Busy → SemCore → Pc → Type 0
Watch d m (deciding n cur) =
    (m.pool.has_queue ≡ true)
    × ((m.pool.permits ≤ cur.permits) ⊎ (0 < d.drain))
    × ((m.pool.closed ≡ cur.closed) ⊎ (0 < d.close))
Watch d m (draining cur) = (m.pool.permits ≤ cur.permits) ⊎ ((0 < d.drain) ⊎ (m.queue ≡ []))
Watch d m (assigning a) = (m.pool.permits ≡ 0) ⊎ ((0 < d.drain) ⊎ (m.queue ≡ []))
Watch d m (returning a c) = m.queue ≡ []
Watch d m _ = Unit {0}

-- The core, when the head of its queue lacks `h` permits.
pub record Calm (d : Busy) (m : SemCore) (h : ℕ) : Type 0 where
  pub flagged : (m.queue ≡ []) ⊎ (m.pool.has_queue ≡ true)
  pub short : (m.queue ≡ []) ⊎ ((m.pool.permits < h) ⊎ (0 < d.drain + d.serve))
  pub open_queue : (m.queue ≡ []) ⊎ ((m.pool.closed ≡ false) ⊎ (0 < d.close))

pub record Awake (n : ℕ) (s : System) : Type 0 where
  pub calm : Calm (busy n s.task) s.core (need s.core.queue s.task)
  pub watch : (i : ℕ) → i < n → Watch (busy n s.task) s.core (s.task i).pc

-- What a caller without the lock leaves to the one with it.
pub record Kept (d : Busy) (m m' : SemCore) (d' : Busy) : Type 0 where
  pub queue : (m'.queue ≡ m.queue) ⊎ (m'.queue ≡ [])
  pub flag : m'.pool.has_queue ≡ m.pool.has_queue
  pub permits : (m'.pool.permits ≤ m.pool.permits) ⊎ ((0 < d'.drain) ⊎ (m.pool.has_queue ≡ false))
  pub drain : (d.drain ≤ d'.drain) ⊎ (m.pool.has_queue ≡ false)
  pub closed : (m'.pool.closed ≡ m.pool.closed) ⊎ ((0 < d'.close) ⊎ (m.pool.has_queue ≡ false))
  pub close : d.close ≤ d'.close

-- How the need of the queue's head changes in a step of caller `i` from `l` to `l'`.
pub record Heads (i : ℕ) (l l' : Local) (h h' : ℕ) : Type 0 where
  pub same : l'.core.queue ≡ l.core.queue → (l.core.queue ≡ []) ⊎ (h' ≡ h)
  pub pushed : is_nil l.core.queue ≡ false → l'.core.queue ≡ l.core.queue ++ i ∷ [] → h' ≡ h
  pub first : l'.core.queue ≡ i ∷ [] → h' ≡ l'.task.aux
  pub removed :
      l'.core.queue ≡ erase i l.core.queue
      → is_head i l.core.queue ≡ false
      → (l'.core.queue ≡ []) ⊎ (h' ≡ h)
