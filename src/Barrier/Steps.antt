-- ===== src/Barrier/Steps.antt =====
-- src/barrier.rs: callers that share one barrier, a step at a time in any order; a step goes up to
-- and with the next access to memory that others share. The word is read apart into its two halves.
use xutex.Prelude.{
  ℕ, ◌+◌, ◌-◌, ◌%◌, ◌^◌, ◌<◌, Bool, true, false, List, [], ◌∷◌, ◌++◌, ◌==◌, ◌&&◌, not, leb,
  if◌then◌else◌, is_nil, has, erase, update,
}
use xutex.WaitQueue.Lock.{Tag, null, published, held}
use xutex.WaitQueue.Popped.{take_while, drop_while}

-- The word: the number of the round, and the arrivals in it.
pub record Rounds : Type 0 where
  pub round : ℕ
  pub arrivals : ℕ

pub record BarrierCore : Type 0 where
  pub state : Rounds
  pub tag : Tag
  pub queue : List ℕ  -- the callers whose nodes are queued, oldest first

-- What a caller does once it has released the queue.
pub data After : Type 0 where
  rests : (g : ℕ) → After
  passes withdraws waits_on : After
  tells : (chain : List ℕ) → After

-- Where a caller stands; `g` is the round of its arrival.
pub data BarrierPlace : Type 0 where
  idle : BarrierPlace
  loading : BarrierPlace  -- `arrive`, before its load
  arriving : (cur : Rounds) → BarrierPlace  -- its loop
  releasing : (g : ℕ) → BarrierPlace  -- `release_waiters`, before the lock
  release_popping : (g : ℕ) → BarrierPlace
  park_locking : (g : ℕ) → BarrierPlace  -- `enqueue_or_complete`
  park_checking : (g : ℕ) → BarrierPlace
  unlocking : After → BarrierPlace
  telling : (chain : List ℕ) → BarrierPlace  -- before the next node is signaled
  parked : (g : ℕ) → BarrierPlace
  withdrawing : (g : ℕ) (cur : Rounds) → BarrierPlace  -- the loop of `drop_slow`
  leave_locking : BarrierPlace
  leave_removing : BarrierPlace
  leave_waiting : BarrierPlace

-- What the last wait returned: `is_leader`.
pub data WaitResult : Type 0 where
  unfinished leads follows : WaitResult

-- A caller with its node: `released` says that its value is SIGNAL_ALL, `aux` is the round stored.
pub record BarrierCaller : Type 0 where
  pub place : BarrierPlace
  pub released : Bool
  pub aux : ℕ
  pub result : WaitResult

-- The part of the state that one caller's step reads and writes, but for others' nodes.
pub record BarrierView : Type 0 where
  pub core : BarrierCore
  pub caller : BarrierCaller

abbrev go : BarrierPlace → BarrierView → BarrierView
go p v = record v { caller = record v.caller { place = p } }

abbrev done : WaitResult → BarrierView → BarrierView
done r v = record v { caller = record v.caller { place = idle; result = r } }

abbrev set_state : Rounds → BarrierView → BarrierView
set_state r v = record v { core = record v.core { state = r } }

abbrev set_waiters : List ℕ → BarrierView → BarrierView
set_waiters q v = record v { core = record v.core { queue = q } }

abbrev pub round_after : ℕ → ℕ
round_after g = (g + 1) % 2 ^ 32

-- The state after an arrival.
abbrev pub next_state : (size : ℕ) → Rounds → Rounds
next_state size cur =
    if leb size (cur.arrivals + 1)
    then record { round = round_after cur.round; arrivals = 0 }
    else record { round = cur.round; arrivals = cur.arrivals + 1 }

abbrev pub same_rounds : Rounds → Rounds → Bool
same_rounds a b = a.round == b.round && a.arrivals == b.arrivals

-- A round of the loop of `arrive`: the exchange, and what follows by the outcome.
unfoldable pub arrive_step : (spurious : Bool) → (size : ℕ) → Rounds → BarrierView → BarrierView
arrive_step spurious size cur v =
    if not spurious && same_rounds v.core.state cur
    then if leb size (cur.arrivals + 1)
      then go (releasing cur.round) (set_state (next_state size cur) v)
      else go (park_locking cur.round) (set_state (next_state size cur) v)
    else go (arriving v.core.state) v

-- `WaitQueue::lock`: `alloc` says what to do when there is no queue; the spin is a step that stays.
unfoldable pub lock_barrier :
    (alloc : Bool) → (entered missing : BarrierView → BarrierView) → BarrierView → BarrierView
lock_barrier alloc entered missing v = elim v.core.tag [
  | null ↦
      if alloc
      then entered (record v { core = record v.core { tag = held; queue = [] } })
      else missing v
  | published ↦ entered (record v { core = record v.core { tag = held } })
  | held ↦ v
]

-- `release_waiters` under the lock: the nodes of the round are popped from the front.
unfoldable pub pop_round : (aux : ℕ → ℕ) → ℕ → BarrierView → BarrierView
pop_round aux g v =
    go (unlocking (tells (take_while (λ j. aux j == g) v.core.queue)))
      (set_waiters (drop_while (λ j. aux j == g) v.core.queue) v)

-- `enqueue_or_complete` under the lock. The queue cannot change while its lock is held.
unfoldable pub park_or_pass : ℕ → ℕ → BarrierView → BarrierView
park_or_pass self g v =
    if v.core.state.round == g
    then record v {
      core = record v.core { queue = v.core.queue ++ self ∷ [] };
      caller = record v.caller { place = unlocking (rests g); aux = g };
    }
    else go (unlocking passes) v

-- `LockedQueue::unlock`, and what follows it.
unfoldable pub unlock_barrier : After → BarrierView → BarrierView
unlock_barrier k v =
    let free = record v {
      core = record v.core { tag = if is_nil v.core.queue then null else published };
    } in
    elim k [
      | rests g ↦ go (parked g) free
      | passes ↦ done follows free
      | withdraws ↦ go idle free
      | waits_on ↦ go leave_waiting free
      | tells c ↦ go (telling c) free
    ]

-- A waiter looks at its node.
unfoldable pub await_release : WaitResult → BarrierView → BarrierView
await_release r v = if v.caller.released then done r v else v

-- A round of the loop of `drop_slow`.
unfoldable pub withdraw : (spurious : Bool) → ℕ → Rounds → BarrierView → BarrierView
withdraw spurious g cur v =
    if cur.round == g
    then if not spurious && same_rounds v.core.state cur
      then go leave_locking (set_state (record cur { arrivals = cur.arrivals - 1 }) v)
      else go (withdrawing g v.core.state) v
    else go leave_waiting v

-- The node leaves the queue, if it is there.
unfoldable pub leave_barrier : ℕ → BarrierView → BarrierView
leave_barrier self v =
    if has self v.core.queue
    then go (unlocking withdraws) (set_waiters (erase self v.core.queue) v)
    else go (unlocking waits_on) v

-- One step of the caller `self` that writes no node but its own; `aux` is what all nodes store.
unfoldable pub barrier_alone :
    (spurious : Bool) → (size : ℕ) → (aux : ℕ → ℕ) → ℕ → BarrierPlace → BarrierView → BarrierView
barrier_alone w size aux self loading v = go (arriving v.core.state) v
barrier_alone w size aux self (arriving cur) v = arrive_step w size cur v
barrier_alone w size aux self (releasing g) v =
    lock_barrier false (go (release_popping g)) (done leads) v
barrier_alone w size aux self (release_popping g) v = pop_round aux g v
barrier_alone w size aux self (park_locking g) v =
    lock_barrier true (go (park_checking g)) (λ u. u) v
barrier_alone w size aux self (park_checking g) v = park_or_pass self g v
barrier_alone w size aux self (unlocking k) v = unlock_barrier k v
barrier_alone w size aux self (telling []) v = done leads v
barrier_alone w size aux self (parked g) v = await_release follows v
barrier_alone w size aux self (withdrawing g cur) v = withdraw w g cur v
barrier_alone w size aux self leave_locking v =
    lock_barrier false (go leave_removing) (go leave_waiting) v
barrier_alone w size aux self leave_removing v = leave_barrier self v
barrier_alone w size aux self leave_waiting v = await_release unfinished v
barrier_alone w size aux self _ v = v

-- The public call, and the drop of a future that waits.
pub data BarrierCall : Type 0 where
  arrives drops_wait : BarrierCall

-- One that does not fit the caller's place changes nothing.
unfoldable pub begin_barrier : BarrierCall → BarrierPlace → BarrierView → BarrierView
begin_barrier arrives idle v = record v {
  caller = record { place = loading; released = false; aux = v.caller.aux; result = unfinished };
}
begin_barrier drops_wait (parked g) v =
    if v.caller.released then go idle v else go (withdrawing g v.core.state) v
begin_barrier _ _ v = v

-- The barrier with all callers.
pub record BarrierSystem : Type 0 where
  pub core : BarrierCore
  pub caller : ℕ → BarrierCaller

abbrev pub barrier_view : ℕ → BarrierSystem → BarrierView
barrier_view i s = record { core = s.core; caller = s.caller i }

abbrev pub barrier_put : ℕ → BarrierSystem → BarrierView → BarrierSystem
barrier_put i s v = record { core = v.core; caller = update s.caller i v.caller }

-- `signal_node`: the next node of a chain is released, after its link is read.
unfoldable pub release_node : ℕ → ℕ → List ℕ → BarrierSystem → BarrierSystem
release_node i j c s =
    let f = update s.caller j (record (s.caller j) { released = true }) in
    record s { caller = update f i (record (f i) { place = telling c }) }

unfoldable pub barrier_from : Bool → (size : ℕ) → ℕ → BarrierPlace → BarrierSystem → BarrierSystem
barrier_from w size i (telling (j ∷ c)) s = release_node i j c s
barrier_from w size i p s =
    barrier_put i s (barrier_alone w size (λ j. (s.caller j).aux) i p (barrier_view i s))

-- What happens next: caller `i` begins a call, or takes a step.
pub data BarrierEvent : Type 0 where
  barrier_calls : (i : ℕ) → BarrierCall → BarrierEvent
  barrier_runs : (spurious : Bool) (i : ℕ) → BarrierEvent

unfoldable pub barrier_step : (size : ℕ) → BarrierEvent → BarrierSystem → BarrierSystem
barrier_step size (barrier_calls i c) s =
    barrier_put i s (begin_barrier c (s.caller i).place (barrier_view i s))
barrier_step size (barrier_runs w i) s = barrier_from w size i (s.caller i).place s

unfoldable pub barrier_steps : (size : ℕ) → List BarrierEvent → BarrierSystem → BarrierSystem
barrier_steps size [] s = s
barrier_steps size (e ∷ es) s = barrier_steps size es (barrier_step size e s)

-- `BarrierCore::new`.
abbrev pub new_barrier : BarrierSystem
new_barrier = record {
  core = record { state = record { round = 0; arrivals = 0 }; tag = null; queue = [] };
  caller = λ _. record { place = idle; released = false; aux = 0; result = unfinished };
}

-- The events are those of the first `n` callers.
abbrev pub BarrierActors : ℕ → List BarrierEvent → Type 0
BarrierActors n [] = Unit {0}
BarrierActors n (barrier_calls i c ∷ es) = (i < n) × BarrierActors n es
BarrierActors n (barrier_runs w i ∷ es) = (i < n) × BarrierActors n es
