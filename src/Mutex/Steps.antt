-- ===== src/Mutex/Steps.antt =====
-- src/lib.rs: callers that share one mutex, a step at a time in any order; a step goes up to and
-- with the next access to memory that others share. Each caller has one node, and is one thread or
-- one future. `spurious` lets a compare-exchange of the queue's address fail: another queue may
-- have been published since.
use xutex.Prelude.{
  ℕ, ◌<◌, Bool, true, false, List, [], ◌∷◌, ◌++◌, if◌then◌else◌, has, erase, update,
}

-- The word: two sentinels, the sentinel of a queue that is being made, and the queue's address,
-- plain or tagged.
pub data Word : Type 0 where
  unlocked locked updating published tagged : Word

-- Where a caller stands.
pub data Place : Type 0 where
  idle : Place
  trying : Place  -- before the exchange of UNLOCKED for LOCKED, in a wait
  starting : Place  -- before the exchange of LOCKED for UPDATING
  tagging : Place  -- before the exchange of the address for the tagged one
  pushing : Place  -- has the queue to itself, is about to push its node and publish
  parked : Place
  holding : Place  -- owns a guard
  dropping : Place  -- drops it: before the exchange of LOCKED for UNLOCKED
  retagging : (seen : Word) → Place  -- the loop of `MutexGuard::drop_slow`
  popping : Place
  handing : (j : ℕ) → Place  -- before it signals the node popped
  leaving : Place  -- the loop of `remove_from_queue`, before its load
  leave_tagging : Place
  removing : Place
  awaiting : Place  -- the wait for the handoff in flight, in `drop_slow` of a request

-- A caller with its node; `handed` says that the node's value is SIGNALED.
pub record Caller : Type 0 where
  pub place : Place
  pub handed : Bool

abbrev pub new_caller : Caller
new_caller = record { place = idle; handed = false }

-- The mutex, and the part of the state that one caller's step reads and writes.
pub record View : Type 0 where
  pub word : Word
  pub queue : List ℕ
  pub caller : Caller

abbrev move : Place → View → View
move p v = record v { caller = record v.caller { place = p } }

abbrev set_word : Word → View → View
set_word w v = record v { word = w }

-- The exchange of UNLOCKED for LOCKED, in `try_lock` and in each round of a wait.
unfoldable pub try_lock : (failed : Word → Place) → View → View
try_lock failed v = elim v.word [
  | unlocked ↦ move holding (set_word locked v)
  | other ↦ move (failed other) v
]

-- What a round of a wait does next, from the word that the exchange saw.
unfoldable pub next_round : Word → Place
next_round locked = starting
next_round published = tagging
next_round _ = trying

-- The queue is made, or the round is lost.
unfoldable pub start_queue : View → View
start_queue v = elim v.word [
  | locked ↦ move pushing (record v { word = updating; queue = [] })
  | _ ↦ move trying v
]

-- An exchange of the queue's address for the tagged one.
unfoldable pub tag_queue : (spurious : Bool) → (won : Place) (lost : Word → Place) → View → View
tag_queue spurious won lost v = elim v.word [
  | published ↦ if spurious then move (lost published) v else move won (set_word tagged v)
  | other ↦ move (lost other) v
]

-- `push_and_publish`, and the same in `lock_slow`.
unfoldable pub push_and_publish : ℕ → View → View
push_and_publish self v = move parked (record v { word = published; queue = v.queue ++ self ∷ [] })

-- A waiting caller looks at its node.
unfoldable pub await_handoff : Place → View → View
await_handoff owner v = if v.caller.handed then move owner v else v

-- `Drop` of the guard: the fast path.
unfoldable pub drop_guard : View → View
drop_guard v = elim v.word [
  | locked ↦ move idle (set_word unlocked v)
  | other ↦ move (retagging other) v
]

-- The loop of its `drop_slow`: `seen` is the word read last. The source would try to tag a null
-- word, which the owner of a guard does not read.
unfoldable pub retag : Bool → Word → View → View
unfolding tag_queue
retag spurious published v = tag_queue spurious popping retagging v
retag spurious _ v = move (retagging v.word) v

-- The rest of `drop_slow`, but for the signal.
unfoldable pub pop_waiter : View → View
pop_waiter v = elim v.queue [
  | [] ↦ move idle (set_word unlocked v)
  | j ∷ js ↦ move (handing j) (record v { word = published; queue = js })
]

-- `remove_from_queue`: a round of its loop up to the load.
unfoldable pub seek_queue : View → View
seek_queue v = elim v.word [
  | unlocked ↦ move awaiting v
  | locked ↦ move awaiting v
  | published ↦ move leave_tagging v
  | _ ↦ v
]

-- Its end, with the queue tagged.
unfoldable pub leave_queue : ℕ → View → View
leave_queue self v =
    let published_view = record v { word = published; queue = erase self v.queue } in
    if has self v.queue then move idle published_view else move awaiting published_view

-- One step of the caller `self` that touches no node but its own.
unfoldable pub act_alone : Bool → ℕ → Place → View → View
act_alone w self trying v = try_lock next_round v
act_alone w self starting v = start_queue v
act_alone w self tagging v = tag_queue w pushing (λ _. trying) v
act_alone w self pushing v = push_and_publish self v
act_alone w self parked v = await_handoff holding v
act_alone w self dropping v = drop_guard v
act_alone w self (retagging seen) v = retag w seen v
act_alone w self popping v = pop_waiter v
act_alone w self leaving v = seek_queue v
act_alone w self leave_tagging v = tag_queue w removing (λ _. leaving) v
act_alone w self removing v = leave_queue self v
act_alone w self awaiting v = await_handoff dropping v
act_alone w self _ v = v

-- The public calls: `try_lock`, `lock` with its future, and the drops of a guard and a future.
pub data Request : Type 0 where
  tries locks drops_guard drops_future : Request

-- A call begins; one that does not fit the caller's place changes nothing.
unfoldable pub begin_call : Request → Place → View → View
unfolding try_lock
begin_call tries idle v = try_lock (λ _. idle) v
begin_call locks idle v = record v { caller = record { place = trying; handed = false } }
begin_call drops_guard holding v = move dropping v
begin_call drops_future parked v = if v.caller.handed then move dropping v else move leaving v
begin_call _ _ v = v

-- The mutex with all callers.
pub record Mutex : Type 0 where
  pub word : Word
  pub queue : List ℕ
  pub caller : ℕ → Caller

abbrev pub view : ℕ → Mutex → View
view i s = record { word = s.word; queue = s.queue; caller = s.caller i }

abbrev pub put : ℕ → Mutex → View → Mutex
put i s v = record { word = v.word; queue = v.queue; caller = update s.caller i v.caller }

-- `signal_node`: the node popped gets its value, and the lock with it.
unfoldable pub hand_over : ℕ → ℕ → Mutex → Mutex
hand_over i j s =
    let f = update s.caller j (record (s.caller j) { handed = true }) in
    record s { caller = update f i (record (f i) { place = idle }) }

unfoldable pub act_from : Bool → ℕ → Place → Mutex → Mutex
act_from w i (handing j) s = hand_over i j s
act_from w i p s = put i s (act_alone w i p (view i s))

-- What happens next: caller `i` begins a call, or takes a step.
pub data Action : Type 0 where
  calls : (i : ℕ) → Request → Action
  takes_step : (spurious : Bool) (i : ℕ) → Action

unfoldable pub act : Action → Mutex → Mutex
act (calls i r) s = put i s (begin_call r (s.caller i).place (view i s))
act (takes_step w i) s = act_from w i (s.caller i).place s

unfoldable pub acts : List Action → Mutex → Mutex
acts [] s = s
acts (e ∷ es) s = acts es (act e s)

-- `MutexInternal::new`
abbrev pub new_mutex : Mutex
new_mutex = record { word = unlocked; queue = []; caller = λ _. new_caller }

-- The actions are those of the first `n` callers.
abbrev pub Actors : ℕ → List Action → Type 0
Actors n [] = Unit {0}
Actors n (calls i r ∷ es) = (i < n) × Actors n es
Actors n (takes_step w i ∷ es) = (i < n) × Actors n es
