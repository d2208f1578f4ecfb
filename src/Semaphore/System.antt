-- ===== src/Semaphore/System.antt =====
-- src/semaphore.rs: callers that share one core, a step at a time in any order. Memory accesses are
-- sequentially consistent. Each caller has one node, and is one thread or one future.
use xutex.Prelude.{
  ℕ, ◌+◌, ◌-◌, ◌<◌, ◌≤◌, Bool, false, List, [], ◌∷◌, ltb, if◌then◌else◌, update, update_two, ◌==◌,
}
use xutex.Semaphore.State.{
  max_permits, null, SemCore, Signal, signaled, only, first, wakes, Pc, idle, trying, locking,
  flagging, deciding, unlocking, unpublishing, parked, holding, releasing, drain_locking,
  drain_loading, draining, assigning, returning, waking, closing, close_locking, close_popping,
  forgetting, cancel_locking, cancel_removing, cancel_waiting, Task, new_task, Local,
}
use xutex.Semaphore.Steps.{
  goto, try_acquire, enqueue_lock, enqueue_flag, enqueue_decide, unlock, unpublish, release,
  drain_lock, drain_take, drain_return, close, close_lock, close_pop, forget_permits, await_signal,
  drop_acquire, cancel_lock, cancel_remove, cancel_wait,
}

-- One step of the caller `self` that touches no node but its own.
unfoldable pub advance : Bool → ℕ → Pc → Local → Local
advance w self (trying a n cur) l = try_acquire w a n cur l
advance w self (locking n) l = enqueue_lock n l
advance w self (flagging n) l = enqueue_flag n l
advance w self (deciding n cur) l = enqueue_decide w self n cur l
advance w self (unlocking k) l = unlock k l
advance w self (unpublishing k) l = unpublish k l
advance w self (parked n) l = await_signal n l
advance w self (releasing n) l = release n l
advance w self drain_locking l = drain_lock l
advance w self drain_loading l = goto (draining l.core.pool) l
advance w self (draining cur) l = drain_take w cur l
advance w self (returning a c) l = drain_return a c l
advance w self (waking [] v) l = goto idle l
advance w self closing l = close l
advance w self close_locking l = close_lock l
advance w self close_popping l = close_pop l
advance w self (forgetting n cur) l = forget_permits w n cur l
advance w self (cancel_locking n) l = cancel_lock n l
advance w self (cancel_removing n) l = cancel_remove self n l
advance w self (cancel_waiting n) l = cancel_wait n l
advance w self _ l = l

-- The public calls that a caller may make.
pub data Call : Type 0 where
  try_acquires acquires adds forgets : ℕ → Call
  closes drops_permit forgets_permit drops_future : Call

-- A call begins; one that does not fit the caller's place changes nothing.
unfoldable pub begin : Call → Pc → Local → Local
begin (try_acquires n) idle l = record l {
  task = record new_task { pc = trying only n l.core.pool };
}
begin (acquires n) idle l = record l { task = record new_task { pc = trying first n l.core.pool } }
begin (adds n) idle l = record (goto (releasing n) l) { supply = l.supply + n }
begin (forgets n) idle l = goto (forgetting n l.core.pool) l
begin closes idle l = goto closing l
begin drops_permit (holding n) l = goto (releasing n) l
begin forgets_permit (holding n) l = record (goto idle l) { supply = l.supply - n }
begin drops_future (parked n) l = drop_acquire n l
begin _ _ l = l

pub record System : Type 0 where
  pub core : SemCore
  pub task : ℕ → Task
  pub supply : ℕ

-- The loop of `drain` over the queue: what is left of `available`, the queue, the nodes popped and
-- the nodes' new contents.
pub record Served : Type 0 where
  pub left : ℕ
  pub queue : List ℕ
  pub chain : List ℕ
  pub task : ℕ → Task

abbrev pub set_aux : (ℕ → Task) → ℕ → ℕ → ℕ → Task
set_aux f j x = update f j (record (f j) { aux = x })

unfoldable pub serve : ℕ → List ℕ → (ℕ → Task) → Served
serve a [] f = record { left = a; queue = []; chain = []; task = f }
serve a (j ∷ js) f =
    let remaining = (f j).aux in
    let rest = serve (a - remaining) js (set_aux f j 0) in
    if ltb a remaining
    then record {
      left = 0;
      queue = j ∷ js;
      chain = [];
      task = if ltb 0 a then set_aux f j (remaining - a) else f;
    }
    else record rest { chain = j ∷ rest.chain }

-- The step that runs it.
unfoldable pub assign : ℕ → ℕ → System → System
assign i a s =
    let r = serve a s.core.queue s.task in
    record s {
      core = record s.core { queue = r.queue };
      task = update r.task i (record (r.task i) {
        pc = if ltb 0 r.left then returning r.left r.chain else unlocking (wakes r.chain signaled);
      });
    }

-- `signal_node`: the next node of the chain gets its value, after its link is read.
unfoldable pub signal : ℕ → ℕ → List ℕ → Signal → System → System
signal i j c v s =
    let f = update s.task j (record (s.task j) { value = v }) in
    record s { task = update f i (record (f i) { pc = waking c v }) }

abbrev pub local : ℕ → System → Local
local i s = record { core = s.core; task = s.task i; supply = s.supply }

abbrev pub restore : ℕ → System → Local → System
restore i s l = record { core = l.core; task = update s.task i l.task; supply = l.supply }

unfoldable pub run_caller : Bool → ℕ → Pc → System → System
run_caller w i (assigning a) s = assign i a s
run_caller w i (waking (j ∷ c) v) s = signal i j c v s
run_caller w i p s = restore i s (advance w i p (local i s))

-- The callers `i` and `j` come to stand elsewhere.
abbrev pub place_two : (i j : ℕ) → Pc → Pc → System → System
place_two i j p q s = record s {
  task = update_two s.task i (record (s.task i) { pc = p }) j (record (s.task j) { pc = q });
}

-- `SemaphorePermit::split`, if fewer are asked for than the object has: the new one is for `j`.
unfoldable pub split_permit : (i k j : ℕ) → Pc → Pc → System → System
split_permit i k j (holding n) idle s =
    if ltb n k then s else place_two i j (holding (n - k)) (holding k) s
split_permit i k j _ _ s = s

-- `SemaphorePermit::merge`: the object of `j` is left with no permits, and dropped.
unfoldable pub merge_permit : (i j : ℕ) → Pc → Pc → System → System
merge_permit i j (holding n) (holding k) s =
    if i == j then s else place_two i j (holding (n + k)) idle s
merge_permit i j _ _ s = s

-- A public call of a caller.
abbrev pub start_call : (i : ℕ) → Call → System → System
start_call i c s = restore i s (begin c (s.task i).pc (local i s))

-- The owner of exactly `n` permits gives `k` of them back, and keeps the others: a split with a drop of
-- the new object, for which `j` stands in.
unfoldable pub hand_back : (i n k j : ℕ) → Pc → Pc → System → System
hand_back i n k j (holding m) idle s =
    if m == n then start_call j drops_permit (split_permit i k j (holding m) idle s) else s
hand_back i n k j _ _ s = s

-- What happens next: caller `i` begins a call, or takes a step; or its permit object is split, merged
-- with that of `j`, or given back in part.
pub data Event : Type 0 where
  call : (i : ℕ) → Call → Event
  run : (spurious : Bool) (i : ℕ) → Event
  splits : (i k j : ℕ) → Event
  merges : (i j : ℕ) → Event
  hands_back : (i n k j : ℕ) → Event

unfoldable pub step : Event → System → System
step (call i c) s = start_call i c s
step (run w i) s = run_caller w i (s.task i).pc s
step (splits i k j) s = split_permit i k j (s.task i).pc (s.task j).pc s
step (merges i j) s = merge_permit i j (s.task i).pc (s.task j).pc s
step (hands_back i n k j) s = hand_back i n k j (s.task i).pc (s.task j).pc s

unfoldable pub steps : List Event → System → System
steps [] s = s
steps (e ∷ es) s = steps es (step e s)

-- `SemCore::new`
abbrev pub new_core : ℕ → SemCore
new_core permits = record {
  pool = record { permits = permits; has_queue = false; closed = false };
  tag = null;
  queue = [];
}

abbrev pub init : ℕ → System
init permits = record { core = new_core permits; task = λ _. new_task; supply = permits }

-- The state after the events, from a new semaphore.
abbrev pub reach : ℕ → List Event → System
reach permits es = steps es (init permits)

-- No call makes more permits than `max_permits`.
abbrev pub Room : Call → ℕ → Type 0
Room (adds n) supply = supply + n ≤ max_permits
Room _ supply = Unit {0}

-- The event is one of the first `n` callers.
abbrev pub Allowed : ℕ → Event → System → Type 0
Allowed n (call i c) s = (i < n) × Room c s.supply
Allowed n (run w i) s = i < n
Allowed n (splits i k j) s = (i < n) × (j < n)
Allowed n (merges i j) s = (i < n) × (j < n)
Allowed n (hands_back i m k j) s = (i < n) × (j < n)

abbrev pub AllAllowed : ℕ → List Event → System → Type 0
AllAllowed n [] s = Unit {0}
AllAllowed n (e ∷ es) s = Allowed n e s × AllAllowed n es (step e s)
