-- ===== src/Barrier/Invariant.antt =====
-- src/barrier.rs: which callers count in the round, who leads, where each node is linked, and what
-- each caller knows of the round.
use xutex.Prelude.{
  ℕ, ◌+◌, ◌-◌, ◌%◌, ◌^◌, ◌≤◌, ◌<◌, ◌≡◌, ◌⊎◌, Bool, true, false, List, [], ◌∷◌, ◌++◌, ◌==◌,
  if◌then◌else◌, count, total, erase,
}
use xutex.WaitQueue.Lock.{null, held_count}
use xutex.WaitQueue.Order.{ordered}
use xutex.Barrier.Steps.{
  rests, waits_on, tells, BarrierPlace, loading, arriving, releasing, release_popping, park_locking,
  park_checking, unlocking, telling, parked, withdrawing, leave_locking, leave_removing,
  leave_waiting, BarrierCaller, BarrierView, BarrierSystem,
}

-- The round before.
abbrev pub round_before : ℕ → ℕ
round_before r = (r + 2 ^ 32 - 1) % 2 ^ 32

-- Whether the node of a caller there has been queued, and its wait has not ended.
abbrev pub waits : BarrierPlace → Bool
waits (unlocking (rests g)) = true
waits (unlocking waits_on) = true
waits (parked g) = true
waits (withdrawing g cur) = true
waits leave_locking = true
waits leave_removing = true
waits leave_waiting = true
waits _ = false

abbrev pub linked : BarrierCaller → ℕ
linked c = if waits c.place then (if c.released then 0 else 1) else 0

-- Whether its arrival counts in the round `r`.
abbrev pub place_counts : ℕ → BarrierPlace → ℕ
place_counts r (park_locking g) = if g == r then 1 else 0
place_counts r (park_checking g) = if g == r then 1 else 0
place_counts r (unlocking (rests g)) = if g == r then 1 else 0
place_counts r (parked g) = if g == r then 1 else 0
place_counts r (withdrawing g cur) = if g == r then 1 else 0
place_counts r _ = 0

abbrev pub counts : ℕ → BarrierCaller → ℕ
counts r c = place_counts r c.place

-- Whether it has yet to pop the waiters of the round that it completed.
abbrev pub leads_count : BarrierPlace → ℕ
leads_count (releasing g) = 1
leads_count (release_popping g) = 1
leads_count _ = 0

abbrev pub leaders : BarrierCaller → ℕ
leaders c = leads_count c.place

-- Whether it is between the lock and the unlock of the queue.
abbrev pub lock_count : BarrierPlace → ℕ
lock_count (release_popping g) = 1
lock_count (park_checking g) = 1
lock_count (unlocking k) = 1
lock_count leave_removing = 1
lock_count _ = 0

abbrev pub locks : BarrierCaller → ℕ
locks c = lock_count c.place

-- The nodes that it has popped and not yet signaled.
abbrev pub chain : BarrierPlace → List ℕ
chain (unlocking (tells c)) = c
chain (telling c) = c
chain _ = []

abbrev pub in_chain : ℕ → BarrierCaller → ℕ
in_chain j c = count j (chain c.place)

abbrev pub Either : ℕ → ℕ → ℕ → Type 0
Either g a b = (g ≡ a) ⊎ (g ≡ b)

-- What a caller at a place knows of the round `r`, with the round that its node stores.
abbrev pub KnownAt : (r aux : ℕ) → BarrierPlace → Type 0
KnownAt r aux (releasing g) = g ≡ round_before r
KnownAt r aux (release_popping g) = g ≡ round_before r
KnownAt r aux (park_locking g) = Either g r (round_before r)
KnownAt r aux (park_checking g) = Either g r (round_before r)
KnownAt r aux (unlocking (rests g)) = (aux ≡ g) × Either g r (round_before r)
KnownAt r aux (unlocking waits_on) = aux ≡ round_before r
KnownAt r aux (parked g) = (aux ≡ g) × Either g r (round_before r)
KnownAt r aux (withdrawing g cur) =
    (aux ≡ g) × Either g r (round_before r) × ((cur.round ≡ g) ⊎ (g ≡ round_before r))
KnownAt r aux leave_locking = aux ≡ r
KnownAt r aux leave_removing = aux ≡ r
KnownAt r aux leave_waiting = aux ≡ round_before r
KnownAt r aux _ = Unit {0}

-- Whether it is on the way to the queue.
abbrev pub enters : BarrierPlace → Bool
enters loading = true
enters (arriving cur) = true
enters (park_locking g) = true
enters (park_checking g) = true
enters _ = false

pub record Known (r : ℕ) (c : BarrierCaller) : Type 0 where
  pub at : KnownAt r c.aux c.place
  pub over : waits c.place ≡ true → c.released ≡ true → c.aux ≡ round_before r
  pub unreleased : enters c.place ≡ true → c.released ≡ false

-- Whether a node is of the round. The queue has waiters of earlier rounds, then those of the round.
abbrev pub fresh_in : ℕ → (ℕ → BarrierCaller) → ℕ → Bool
fresh_in r f j = (f j).aux == r

pub record Inv (n size : ℕ) (s : BarrierSystem) : Type 0 where
  pub bound : s.core.state.round < 2 ^ 32
  pub few : s.core.state.arrivals < size
  -- The arrivals are the callers that count in the round.
  pub arrived : total (counts s.core.state.round) n s.caller ≡ s.core.state.arrivals
  pub one_leader : total leaders n s.caller ≤ 1
  pub lock : total locks n s.caller ≡ held_count s.core.tag
  -- A caller that has yet to be released is linked once, anyone else is not.
  pub places : (j : ℕ) → count j s.core.queue + total (in_chain j) n s.caller ≡ linked (s.caller j)
  pub known : (j : ℕ) → j < n → Known s.core.state.round (s.caller j)
  pub among : (j : ℕ) → 0 < linked (s.caller j) → j < n
  pub unpublished : s.core.tag ≡ null → s.core.queue ≡ []
  -- The nodes about to be released are of the last round.
  pub released_past :
      (j : ℕ)
      → 0 < total (in_chain j) n s.caller
      → (s.caller j).aux ≡ round_before s.core.state.round
  -- A node of the last round is queued only while its leader has yet to pop it.
  pub attended :
      (j : ℕ)
      → 0 < count j s.core.queue
      → ((s.caller j).aux ≡ s.core.state.round)
        ⊎ (((s.caller j).aux ≡ round_before s.core.state.round) × (0 < total leaders n s.caller))
  pub in_order : ordered (fresh_in s.core.state.round s.caller) s.core.queue ≡ true

-- What a step of caller `i` may rely on.
pub record Before (i size : ℕ) (v : BarrierView) : Type 0 where
  pub bound : v.core.state.round < 2 ^ 32
  pub few : v.core.state.arrivals < size
  pub arrived : counts v.core.state.round v.caller ≤ v.core.state.arrivals
  pub lock : locks v.caller ≤ held_count v.core.tag
  pub places : count i v.core.queue + in_chain i v.caller ≤ linked v.caller
  pub unchained : v.caller.aux ≡ v.core.state.round → linked v.caller ≤ count i v.core.queue
  pub known : Known v.core.state.round v.caller
  pub unpublished : v.core.tag ≡ null → v.core.queue ≡ []

-- What it does, if it touches no node but its own, pops no chain and completes no round.
pub record Moved (i size : ℕ) (v u : BarrierView) : Type 0 where
  pub round : u.core.state.round ≡ v.core.state.round
  pub few : u.core.state.arrivals < size
  pub arrived :
      counts v.core.state.round u.caller + v.core.state.arrivals
      ≡ counts v.core.state.round v.caller + u.core.state.arrivals
  pub lock : locks u.caller + held_count v.core.tag ≡ locks v.caller + held_count u.core.tag
  pub places :
      (j : ℕ)
      → count j u.core.queue + (if j == i then linked v.caller else 0)
        ≡ count j v.core.queue + (if j == i then linked u.caller else 0)
  pub chains : (j : ℕ) → in_chain j u.caller ≡ in_chain j v.caller
  pub leaders_le : leaders u.caller ≤ leaders v.caller
  pub attended : (u.core.queue ≡ []) ⊎ (leaders v.caller ≤ leaders u.caller)
  pub known : Known v.core.state.round u.caller
  pub unpublished : u.core.tag ≡ null → u.core.queue ≡ []
  pub stores :
      (u.caller.aux ≡ v.caller.aux) ⊎ ((linked v.caller ≡ 0) × (u.caller.aux ≡ v.core.state.round))
  pub queue :
      (u.core.queue ≡ v.core.queue)
      ⊎ (((u.core.queue ≡ v.core.queue ++ i ∷ []) × (u.caller.aux ≡ v.core.state.round))
          ⊎ (u.core.queue ≡ erase i v.core.queue))
