-- ===== src/OnceCell/Steps.antt =====
-- src/once_cell.rs: callers that share one cell, a step at a time in any order; a step goes up to
-- and with the next access to memory that others share. `future` says that the caller is a future,
-- where that makes a difference.
use xutex.Prelude.{
  ℕ, ◌<◌, Bool, true, false, Option, none, some, List, [], ◌∷◌, ◌++◌, if◌then◌else◌, is_nil, has,
  erase, update,
}
use xutex.WaitQueue.Lock.{null, published, held}
use xutex.OnceCell.State.{
  Stage, empty, running, ready, Wake, asleep, published_value, retry, Cell, Next, redo, parks,
  quits, waits_on, tells, OncePlace, idle, getting, setting, deciding, beginning, initializing,
  writing, publishing, complete_locking, complete_popping, reverting, retry_locking, retry_popping,
  park_locking, park_checking, unlocking, telling, parked, reading, leave_locking, leave_removing,
  leave_waiting, nothing, got, init_failed, stored, already_initialized, already_running, Answer,
  OnceCaller, OnceView,
}

abbrev to : OncePlace → OnceView → OnceView
to p v = record v { caller = record v.caller { place = p } }

abbrev answers : Answer → OncePlace → OnceView → OnceView
answers a p v = record v { caller = record v.caller { place = p; answer = a } }

abbrev set_stage : Stage → OnceView → OnceView
set_stage s v = record v { cell = record v.cell { stage = s } }

-- `get`: the load.
unfoldable pub check_ready : OnceView → OnceView
check_ready v = elim v.cell.stage [ ready ↦ to reading v | _ ↦ answers (got none) idle v ]

-- `set`: `try_begin_init` and its errors.
unfoldable pub begin_set : ℕ → OnceView → OnceView
begin_set x v = elim v.cell.stage [
  | empty ↦ to (writing x) (set_stage running v)
  | running ↦ answers already_running idle v
  | ready ↦ answers already_initialized idle v
]

-- The load of a round of `get_or_try_init`.
unfoldable pub decide : OnceView → OnceView
decide v = elim v.cell.stage [
  | ready ↦ to reading v
  | empty ↦ to beginning v
  | running ↦ record v { caller = record v.caller { place = park_locking; wake = asleep } }
]

-- Its `try_begin_init`.
unfoldable pub begin_init : OnceView → OnceView
begin_init v = elim v.cell.stage [
  | empty ↦ to initializing (set_stage running v)
  | _ ↦ to deciding v
]

-- `write_and_complete`: the write.
unfoldable pub write_value : ℕ → OnceView → OnceView
write_value x v = to publishing (record v { cell = record v.cell { slot = some x } })

-- `complete`: the swap.
unfoldable pub publish : OnceView → OnceView
publish v = to complete_locking (set_stage ready v)

-- What the initializer does after `complete`.
unfoldable pub after_complete : OnceView → OnceView
after_complete v = if v.caller.returns then to reading v else answers stored idle v

-- `WaitQueue::lock`: `alloc` says what to do when there is no queue; the spin is a step that stays.
unfoldable pub lock_waiters :
    (alloc : Bool) → (entered missing : OnceView → OnceView) → OnceView → OnceView
lock_waiters alloc entered missing v = elim v.cell.tag [
  | null ↦
      if alloc
      then entered (record v { cell = record v.cell { tag = held; queue = [] } })
      else missing v
  | published ↦ entered (record v { cell = record v.cell { tag = held } })
  | held ↦ v
]

-- The rest of `complete` under the lock: every waiter is popped.
unfoldable pub pop_all : OnceView → OnceView
pop_all v =
    to (unlocking (tells v.cell.queue published_value))
      (record v { cell = record v.cell { queue = [] } })

-- `abort`: the swap.
unfoldable pub revert : OnceView → OnceView
revert v = to retry_locking (set_stage empty v)

-- `wake_one_retry` under the lock.
unfoldable pub pop_one : OnceView → OnceView
pop_one v = elim v.cell.queue [
  | [] ↦ to (unlocking quits) v
  | j ∷ js ↦
      to (unlocking (tells (j ∷ []) retry)) (record v { cell = record v.cell { queue = js } })
]

-- `enqueue_or_state` under the lock. The queue cannot change while its lock is held.
unfoldable pub park : ℕ → OnceView → OnceView
park self v = elim v.cell.stage [
  | running ↦
      to (unlocking parks) (record v { cell = record v.cell { queue = v.cell.queue ++ self ∷ [] } })
  | _ ↦ to (unlocking redo) v
]

unfoldable pub continue_at : Next → OncePlace
continue_at redo = deciding
continue_at parks = parked
continue_at quits = idle
continue_at waits_on = leave_waiting
continue_at (tells c w) = telling c w

-- `LockedQueue::unlock`.
unfoldable pub unlock_waiters : Next → OnceView → OnceView
unlock_waiters k v =
    to (continue_at k)
      (record v { cell = record v.cell { tag = if is_nil v.cell.queue then null else published } })

-- All nodes are signaled.
unfoldable pub finish_telling : Wake → OnceView → OnceView
unfolding after_complete
finish_telling published_value v = after_complete v
finish_telling _ v = to idle v

-- A waiter looks at its node: a thread starts a new round, a future returns the value when told that
-- it is published.
unfoldable pub look : (future : Bool) → OnceView → OnceView
look future v = elim v.caller.wake [
  | asleep ↦ v
  | published_value ↦ if future then to reading v else to deciding v
  | retry ↦ to deciding v
]

-- `value_ref`
unfoldable pub read_value : OnceView → OnceView
read_value v = answers (got v.cell.slot) idle v

-- `cancel_wait` under the lock.
unfoldable pub leave : ℕ → OnceView → OnceView
leave self v =
    let left = record v { cell = record v.cell { queue = erase self v.cell.queue } } in
    if has self v.cell.queue then to (unlocking quits) left else to (unlocking waits_on) left

-- Its wait for the signal in flight, and the drop of a future that was signaled.
unfoldable pub leave_signaled : OnceView → OnceView
leave_signaled v = elim v.caller.wake [
  | asleep ↦ v
  | published_value ↦ to idle v
  | retry ↦ to retry_locking v
]

-- One step of the caller `self` that touches no node but its own.
unfoldable pub once_alone : (future : Bool) → ℕ → OncePlace → OnceView → OnceView
unfolding after_complete
once_alone w self getting v = check_ready v
once_alone w self (setting x) v = begin_set x v
once_alone w self deciding v = decide v
once_alone w self beginning v = begin_init v
once_alone w self (writing x) v = write_value x v
once_alone w self publishing v = publish v
once_alone w self complete_locking v = lock_waiters false (to complete_popping) after_complete v
once_alone w self complete_popping v = pop_all v
once_alone w self reverting v = revert v
once_alone w self retry_locking v = lock_waiters false (to retry_popping) (to idle) v
once_alone w self retry_popping v = pop_one v
once_alone w self park_locking v = lock_waiters true (to park_checking) (λ u. u) v
once_alone w self park_checking v = park self v
once_alone w self (unlocking k) v = unlock_waiters k v
once_alone w self (telling [] k) v = finish_telling k v
once_alone w self parked v = look w v
once_alone w self reading v = read_value v
once_alone w self leave_locking v = lock_waiters false (to leave_removing) (to leave_waiting) v
once_alone w self leave_removing v = leave self v
once_alone w self leave_waiting v = leave_signaled v
once_alone w self _ v = v

-- What a caller may begin: the public calls, the end of its initializer with a value, with an error
-- or with a panic (or the drop of its future), and the drop of a future that waits.
pub data OnceCall : Type 0 where
  gets gets_or_inits : OnceCall
  sets : ℕ → OnceCall
  init_returns : ℕ → OnceCall
  init_fails init_panics drops_future : OnceCall

-- One that does not fit the caller's place changes nothing.
unfoldable pub begin_once : OnceCall → OncePlace → OnceView → OnceView
begin_once gets idle v = record v {
  caller = record { place = getting; wake = asleep; returns = true; answer = nothing };
}
begin_once gets_or_inits idle v = record v {
  caller = record { place = deciding; wake = asleep; returns = true; answer = nothing };
}
begin_once (sets x) idle v = record v {
  caller = record { place = setting x; wake = asleep; returns = false; answer = nothing };
}
begin_once (init_returns x) initializing v = to (writing x) v
begin_once init_fails initializing v = answers init_failed reverting v
begin_once init_panics initializing v = to reverting v
begin_once drops_future parked v = elim v.caller.wake [
  | asleep ↦ to leave_locking v
  | published_value ↦ to idle v
  | retry ↦ to retry_locking v
]
begin_once _ _ v = v

-- The cell with all callers.
pub record OnceSystem : Type 0 where
  pub cell : Cell
  pub caller : ℕ → OnceCaller

abbrev pub once_view : ℕ → OnceSystem → OnceView
once_view i s = record { cell = s.cell; caller = s.caller i }

abbrev pub once_put : ℕ → OnceSystem → OnceView → OnceSystem
once_put i s v = record { cell = v.cell; caller = update s.caller i v.caller }

-- `signal_node`: the next node of a chain is signaled, after its link is read.
unfoldable pub tell : ℕ → ℕ → List ℕ → Wake → OnceSystem → OnceSystem
tell i j c k s =
    let f = update s.caller j (record (s.caller j) { wake = k }) in
    record s { caller = update f i (record (f i) { place = telling c k }) }

unfoldable pub once_from : Bool → ℕ → OncePlace → OnceSystem → OnceSystem
once_from w i (telling (j ∷ c) k) s = tell i j c k s
once_from w i p s = once_put i s (once_alone w i p (once_view i s))

-- What happens next: caller `i` begins a call, or takes a step.
pub data OnceEvent : Type 0 where
  once_calls : (i : ℕ) → OnceCall → OnceEvent
  once_runs : (future : Bool) (i : ℕ) → OnceEvent

unfoldable pub once_step : OnceEvent → OnceSystem → OnceSystem
once_step (once_calls i c) s = once_put i s (begin_once c (s.caller i).place (once_view i s))
once_step (once_runs w i) s = once_from w i (s.caller i).place s

unfoldable pub once_steps : List OnceEvent → OnceSystem → OnceSystem
once_steps [] s = s
once_steps (e ∷ es) s = once_steps es (once_step e s)

-- `OnceCellInternal::new_with`.
abbrev pub new_cell : Option ℕ → Cell
new_cell value = record {
  stage = elim value [ none ↦ empty | some v ↦ ready ];
  slot = value;
  tag = null;
  queue = [];
}

abbrev pub new_once : Option ℕ → OnceSystem
new_once value = record {
  cell = new_cell value;
  caller = λ _. record { place = idle; wake = asleep; returns = false; answer = nothing };
}

-- `take`, which needs the cell to itself.
unfoldable pub take_value : Cell → Option ℕ × Cell
take_value c = elim c.stage [
  | ready ↦ (c.slot, record c { stage = empty; slot = none })
  | _ ↦ (none, c)
]

-- The events are those of the first `n` callers.
abbrev pub OnceActors : ℕ → List OnceEvent → Type 0
OnceActors n [] = Unit {0}
OnceActors n (once_calls i c ∷ es) = (i < n) × OnceActors n es
OnceActors n (once_runs w i ∷ es) = (i < n) × OnceActors n es
