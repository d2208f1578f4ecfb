-- ===== src/Notify/Invariant.antt =====
-- src/notify.rs: who holds the queue, where each node is linked, and what each caller knows.
use xutex.Prelude.{
  ℕ, ◌+◌, ◌≤◌, ◌<◌, ◌≡◌, ◌⊎◌, Bool, true, false, List, [], ◌∷◌, ◌++◌, ◌==◌, if◌then◌else◌, count,
  total, erase,
}
use xutex.WaitQueue.Lock.{null, held_count}
use xutex.WaitQueue.Order.{ordered}
use xutex.Notify.Steps.{
  NotifyCore, Told, asleep, by_all, Onward, rests, waits_on, tells, NotifyPlace, capturing, created,
  trying, taking, park_locking, flagging, claiming, unlocking, unpublishing, telling, parked,
  storing, restoring, one_popping, all_locking, all_popping, leave_locking, leave_removing,
  leave_waiting, NotifyCaller, NotifyView, NotifySystem,
}

-- Whether the node of a caller there has been queued, and its wait has not ended.
abbrev pub onward_waits : Onward → Bool
onward_waits (rests g) = true
onward_waits waits_on = true
onward_waits _ = false

abbrev pub waits : NotifyPlace → Bool
waits (unlocking k) = onward_waits k
waits (unpublishing k) = onward_waits k
waits (parked g) = true
waits leave_locking = true
waits leave_removing = true
waits leave_waiting = true
waits _ = false

abbrev pub sleeps : Told → ℕ
sleeps asleep = 1
sleeps _ = 0

abbrev pub linked : NotifyCaller → ℕ
linked c = if waits c.place then sleeps c.told else 0

-- Whether it is between the lock and the unlock of the queue.
abbrev pub lock_count : NotifyPlace → ℕ
lock_count (flagging g) = 1
lock_count (claiming g cur) = 1
lock_count (unlocking k) = 1
lock_count (unpublishing k) = 1
lock_count one_popping = 1
lock_count all_popping = 1
lock_count leave_removing = 1
lock_count _ = 0

abbrev pub locks : NotifyCaller → ℕ
locks c = lock_count c.place

-- Whether it changed the generation, and has yet to pop the nodes of earlier ones.
abbrev pub bumps_count : NotifyPlace → ℕ
bumps_count all_locking = 1
bumps_count all_popping = 1
bumps_count _ = 0

abbrev pub bumpers : NotifyCaller → ℕ
bumpers c = bumps_count c.place

-- Whether it is about to unpublish the queue, or to claim the permit, both under the lock.
abbrev pub unpublishes_count : NotifyPlace → ℕ
unpublishes_count (unpublishing k) = 1
unpublishes_count _ = 0

abbrev pub unpublishers : NotifyCaller → ℕ
unpublishers c = unpublishes_count c.place

abbrev pub claims_count : NotifyPlace → ℕ
claims_count (claiming g cur) = 1
claims_count _ = 0

abbrev pub claimers : NotifyCaller → ℕ
claimers c = claims_count c.place

-- The nodes that it has popped and not yet signaled, and the value that they will get.
abbrev pub onward_chain : Onward → List ℕ
onward_chain (tells c t) = c
onward_chain _ = []

abbrev pub chain : NotifyPlace → List ℕ
chain (unlocking k) = onward_chain k
chain (unpublishing k) = onward_chain k
chain (telling c t) = c
chain _ = []

abbrev pub onward_told : Onward → Told
onward_told (tells c t) = t
onward_told _ = by_all

abbrev pub chain_told : NotifyPlace → Told
chain_told (unlocking k) = onward_told k
chain_told (unpublishing k) = onward_told k
chain_told (telling c t) = t
chain_told _ = by_all

abbrev pub in_chain : ℕ → NotifyCaller → ℕ
in_chain j c = count j (chain c.place)

-- Whether it is on the way to the queue.
abbrev pub enters : NotifyPlace → Bool
enters (capturing future) = true
enters (created g) = true
enters (trying again g) = true
enters (taking again g cur) = true
enters (park_locking g) = true
enters (flagging g) = true
enters (claiming g cur) = true
enters _ = false

abbrev pub OnwardKnown : (aux : ℕ) → Onward → Type 0
OnwardKnown aux (rests g) = aux ≡ g
OnwardKnown aux _ = Unit {0}

-- What a caller at a place knows, with the generation that its node stores.
abbrev pub KnownAt : (aux : ℕ) → NotifyPlace → Type 0
KnownAt aux (unlocking k) = OnwardKnown aux k
KnownAt aux (unpublishing k) = OnwardKnown aux k
KnownAt aux (parked g) = aux ≡ g
KnownAt aux (storing cur) = cur.has_queue ≡ false
KnownAt aux (restoring cur) = cur.has_queue ≡ false
KnownAt aux _ = Unit {0}

pub record Known (c : NotifyCaller) : Type 0 where
  pub at : KnownAt c.aux c.place
  pub fresh : enters c.place ≡ true → c.told ≡ asleep
  pub tells_awake : sleeps (chain_told c.place) ≡ 0

-- Whether a node is of the generation. The queue has nodes of earlier ones, then those of it.
abbrev pub fresh_in : ℕ → (ℕ → NotifyCaller) → ℕ → Bool
fresh_in g f j = (f j).aux == g

-- A queue with nodes is announced by HAS_QUEUE, and no permit is stored meanwhile.
pub record Announced (c : NotifyCore) : Type 0 where
  pub flagged : (c.queue ≡ []) ⊎ ((c.word.has_queue ≡ true) × (c.word.permit ≡ false))
  pub unpublished : c.tag ≡ null → c.queue ≡ []

-- What `P` says of the core holds while a caller is at a place that `w` counts.
abbrev pub Guards : (w : NotifyCaller → ℕ) (P P' : Type 0) → NotifyView → NotifyView → Type 0
Guards w P P' v u =
    P' ⊎ (((P → P') × (w u.caller ≤ w v.caller)) ⊎ ((locks v.caller ≡ 1) × (w u.caller ≡ 0)))

pub record Inv (n : ℕ) (s : NotifySystem) : Type 0 where
  pub lock : total locks n s.caller ≡ held_count s.core.tag
  -- A caller that has yet to be signaled is linked once, anyone else is not.
  pub places : (j : ℕ) → count j s.core.queue + total (in_chain j) n s.caller ≡ linked (s.caller j)
  pub known : (j : ℕ) → Known (s.caller j)
  pub among : (j : ℕ) → 0 < linked (s.caller j) → j < n
  pub announced : Announced s.core
  pub emptied : (s.core.queue ≡ []) ⊎ (total unpublishers n s.caller ≡ 0)
  pub raised : (s.core.word.has_queue ≡ true) ⊎ (total claimers n s.caller ≡ 0)
  pub past : (j : ℕ) → 0 < count j s.core.queue → (s.caller j).aux ≤ s.core.word.gen
  -- A node of an earlier generation is queued only while someone is on the way to pop it.
  pub attended :
      (j : ℕ)
      → 0 < count j s.core.queue
      → ((s.caller j).aux ≡ s.core.word.gen) ⊎ (0 < total bumpers n s.caller)
  pub in_order : ordered (fresh_in s.core.word.gen s.caller) s.core.queue ≡ true

-- What a step of caller `i` may rely on.
pub record Before (i : ℕ) (v : NotifyView) : Type 0 where
  pub lock : locks v.caller ≤ held_count v.core.tag
  pub places : count i v.core.queue + in_chain i v.caller ≤ linked v.caller
  pub known : Known v.caller
  pub announced : Announced v.core
  pub emptied : (v.core.queue ≡ []) ⊎ (unpublishers v.caller ≡ 0)
  pub raised : (v.core.word.has_queue ≡ true) ⊎ (claimers v.caller ≡ 0)

-- What it does, if it touches no node but its own and leaves the generation.
pub record Moved (i : ℕ) (v u : NotifyView) : Type 0 where
  pub gen : u.core.word.gen ≡ v.core.word.gen
  pub lock : locks u.caller + held_count v.core.tag ≡ locks v.caller + held_count u.core.tag
  pub places :
      (j : ℕ)
      → count j u.core.queue + in_chain j u.caller + (if j == i then linked v.caller else 0)
        ≡ count j v.core.queue + in_chain j v.caller + (if j == i then linked u.caller else 0)
  pub known : Known u.caller
  pub announced : Announced u.core
  pub emptied : Guards unpublishers (v.core.queue ≡ []) (u.core.queue ≡ []) v u
  pub raised : Guards claimers (v.core.word.has_queue ≡ true) (u.core.word.has_queue ≡ true) v u
  pub attended : (u.core.queue ≡ []) ⊎ (bumpers v.caller ≤ bumpers u.caller)
  pub stores :
      (u.caller.aux ≡ v.caller.aux) ⊎ ((linked v.caller ≡ 0) × (u.caller.aux ≡ v.core.word.gen))
  pub queue :
      (u.core.queue ≡ v.core.queue)
      ⊎ (((u.core.queue ≡ v.core.queue ++ i ∷ []) × (u.caller.aux ≡ v.core.word.gen))
          ⊎ ((u.core.queue ≡ erase i v.core.queue) ⊎ ((j : ℕ) × (v.core.queue ≡ j ∷ u.core.queue))))
