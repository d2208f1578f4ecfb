-- ===== src/OnceCell/Invariant.antt =====
-- src/once_cell.rs: who is the initializer, who holds the queue, where each node is linked, and who is
-- on the way to wake a waiter.
use xutex.Prelude.{
  ℕ, ◌+◌, ◌≤◌, ◌<◌, ◌≡◌, ◌⊎◌, Bool, true, false, Option, none, some, List, [], ◌==◌, if◌then◌else◌,
  is_nil, count, total,
}
use xutex.WaitQueue.Lock.{null, held_count}
use xutex.OnceCell.State.{
  Stage, empty, running, ready, Wake, asleep, published_value, retry, Cell, Next, redo, parks,
  waits_on, tells, OncePlace, deciding, beginning, initializing, writing, publishing,
  complete_locking, complete_popping, reverting, retry_locking, retry_popping, park_locking,
  park_checking, unlocking, telling, parked, reading, leave_locking, leave_removing, leave_waiting,
  OnceCaller, OnceView,
}
use xutex.OnceCell.Steps.{OnceSystem}

-- Whether the node of a caller there has been queued, and its wait has not ended.
abbrev pub waits : OncePlace → Bool
waits (unlocking parks) = true
waits (unlocking waits_on) = true
waits parked = true
waits leave_locking = true
waits leave_removing = true
waits leave_waiting = true
waits _ = false

abbrev pub sleeps : Wake → ℕ
sleeps asleep = 1
sleeps _ = 0

abbrev pub linked : OnceCaller → ℕ
linked c = if waits c.place then sleeps c.wake else 0

-- Whether a caller there has the initializer's role.
abbrev pub role_count : OncePlace → ℕ
role_count initializing = 1
role_count (writing v) = 1
role_count publishing = 1
role_count reverting = 1
role_count _ = 0

abbrev pub roles : OnceCaller → ℕ
roles c = role_count c.place

abbrev pub is_running : Stage → ℕ
is_running running = 1
is_running _ = 0

-- Whether it is between the lock and the unlock of the queue.
abbrev pub lock_count : OncePlace → ℕ
lock_count complete_popping = 1
lock_count retry_popping = 1
lock_count park_checking = 1
lock_count (unlocking k) = 1
lock_count leave_removing = 1
lock_count _ = 0

abbrev pub locks : OnceCaller → ℕ
locks c = lock_count c.place

-- The nodes that it has popped and not yet signaled, and the value that they will get.
abbrev pub chain : OncePlace → List ℕ
chain (unlocking (tells c k)) = c
chain (telling c k) = c
chain _ = []

abbrev pub chain_wake : OncePlace → Wake
chain_wake (unlocking (tells c k)) = k
chain_wake (telling c k) = k
chain_wake _ = retry

abbrev pub in_chain : ℕ → OnceCaller → ℕ
in_chain j c = count j (chain c.place)

-- Whether it will wake every waiter.
abbrev pub completes : OnceCaller → ℕ
completes c = elim c.place [ complete_locking ↦ 1 | complete_popping ↦ 1 | _ ↦ 0 ]

abbrev pub is_retry : Wake → ℕ
is_retry retry = 1
is_retry _ = 0

abbrev pub next_contends : Next → ℕ
next_contends redo = 1
next_contends (tells c k) = if is_nil c then 0 else is_retry k
next_contends _ = 0

abbrev pub place_contends : OncePlace → ℕ
place_contends deciding = 1
place_contends beginning = 1
place_contends park_locking = 1
place_contends park_checking = 1
place_contends retry_locking = 1
place_contends retry_popping = 1
place_contends (unlocking k) = next_contends k
place_contends (telling c k) = if is_nil c then 0 else is_retry k
place_contends _ = 0

-- Whether it will try to become the initializer, or has another waiter try.
abbrev pub contends : OnceCaller → ℕ
contends c = place_contends c.place + (if waits c.place then is_retry c.wake else 0)

abbrev pub full : Option ℕ → Bool
full none = false
full (some v) = true

abbrev pub is_published : Wake → Bool
is_published published_value = true
is_published _ = false

-- Whether it relies on the value.
abbrev pub needs_ready : OnceCaller → Bool
needs_ready c = elim c.place [
  | reading ↦ true
  | complete_locking ↦ true
  | complete_popping ↦ true
  | unlocking k ↦ if waits c.place then is_published c.wake else is_published (chain_wake c.place)
  | telling d k ↦ is_published k
  | p ↦ if waits p then is_published c.wake else false
]

-- What a caller knows.
pub record Sound (cell : Cell) (c : OnceCaller) : Type 0 where
  pub sees_ready : needs_ready c ≡ true → cell.stage ≡ ready
  pub wrote : c.place ≡ publishing → full cell.slot ≡ true
  pub fresh : c.place ≡ park_checking → c.wake ≡ asleep
  pub fresh_lock : c.place ≡ park_locking → c.wake ≡ asleep
  pub tells_awake : sleeps (chain_wake c.place) ≡ 0

-- No waiter is left asleep, when `k` callers contend and `c` complete.
abbrev pub Attended : ℕ → ℕ → Cell → Type 0
Attended k c cell =
    (cell.queue ≡ [])
    ⊎ ((cell.stage ≡ running)
        ⊎ (((cell.stage ≡ ready) × (0 < c)) ⊎ ((cell.stage ≡ empty) × (0 < k))))

pub record Inv (n : ℕ) (s : OnceSystem) : Type 0 where
  -- Exactly one caller initializes the cell while its state is RUNNING, and none at other times.
  pub role : total roles n s.caller ≡ is_running s.cell.stage
  pub lock : total locks n s.caller ≡ held_count s.cell.tag
  -- A caller that has yet to be signaled is linked once, anyone else is not.
  pub places : (j : ℕ) → count j s.cell.queue + total (in_chain j) n s.caller ≡ linked (s.caller j)
  pub sound : (j : ℕ) → Sound s.cell (s.caller j)
  pub filled : s.cell.stage ≡ ready → full s.cell.slot ≡ true
  pub unpublished : s.cell.tag ≡ null → s.cell.queue ≡ []
  pub attended : Attended (total contends n s.caller) (total completes n s.caller) s.cell
  pub among : (j : ℕ) → 0 < linked (s.caller j) → j < n

-- What a step of caller `i` may rely on.
pub record Before (i : ℕ) (v : OnceView) : Type 0 where
  pub role : roles v.caller ≤ is_running v.cell.stage
  pub lock : locks v.caller ≤ held_count v.cell.tag
  pub places : count i v.cell.queue + in_chain i v.caller ≤ linked v.caller
  pub sound : Sound v.cell v.caller
  pub filled : v.cell.stage ≡ ready → full v.cell.slot ≡ true
  pub unpublished : v.cell.tag ≡ null → v.cell.queue ≡ []

-- What it does, if it touches no node but its own.
pub record Moved (i : ℕ) (v u : OnceView) : Type 0 where
  pub role : roles u.caller + is_running v.cell.stage ≡ roles v.caller + is_running u.cell.stage
  pub lock : locks u.caller + held_count v.cell.tag ≡ locks v.caller + held_count u.cell.tag
  pub places :
      (j : ℕ)
      → count j u.cell.queue + in_chain j u.caller + (if j == i then linked v.caller else 0)
        ≡ count j v.cell.queue + in_chain j v.caller + (if j == i then linked u.caller else 0)
  pub sound : Sound u.cell u.caller
  pub filled : u.cell.stage ≡ ready → full u.cell.slot ≡ true
  pub unpublished : u.cell.tag ≡ null → u.cell.queue ≡ []
  pub stays_ready : v.cell.stage ≡ ready → (u.cell.stage ≡ ready) × (u.cell.slot ≡ v.cell.slot)
  pub stays_full : full v.cell.slot ≡ true → full u.cell.slot ≡ true
  pub attended :
      (k k' c c' : ℕ)
      → contends u.caller + k ≡ contends v.caller + k'
      → completes u.caller + c ≡ completes v.caller + c'
      → contends v.caller ≤ k
      → Attended k c v.cell
      → Attended k' c' u.cell
