-- ===== src/Notify/Steps.antt =====
-- src/notify.rs: callers that share one core, a step at a time in any order; a step goes up to and
-- with the next access to memory that others share. The word is read apart into its parts.
use xutex.Prelude.{
  ℕ, ◌+◌, ◌%◌, ◌^◌, ◌<◌, Bool, true, false, List, [], ◌∷◌, ◌++◌, ◌==◌, ◌&&◌, not, if◌then◌else◌,
  is_nil, has, erase, update,
}
use xutex.WaitQueue.Lock.{null, published, held}
use xutex.WaitQueue.Popped.{take_while, drop_while}
pub use xutex.Notify.State.{
  NotifyWord, NotifyCore, Told, asleep, by_one, by_all, Onward, rests, passes, withdraws, waits_on,
  retries, tells, NotifyPlace, idle, capturing, created, trying, taking, park_locking, flagging,
  claiming, unlocking, unpublishing, telling, parked, notifying, storing, renotifying, restoring,
  one_locking, one_popping, bumping, all_locking, all_popping, leave_locking, leave_removing,
  leave_waiting, NotifyCaller, NotifyView,
}

abbrev go : NotifyPlace → NotifyView → NotifyView
go p v = record v { caller = record v.caller { place = p } }

abbrev set_word : NotifyWord → NotifyView → NotifyView
set_word w v = record v { core = record v.core { word = w } }

abbrev set_nodes : List ℕ → NotifyView → NotifyView
set_nodes q v = record v { core = record v.core { queue = q } }

abbrev same_flags : Bool → Bool → Bool
same_flags a b = if a then b else not b

abbrev pub same_words : NotifyWord → NotifyWord → Bool
same_words a b =
    a.gen == b.gen && (same_flags a.has_queue b.has_queue && same_flags a.permit b.permit)

-- A round of `try_complete` with the word that it has. A future tries twice when it is polled.
unfoldable pub consider : (again : Bool) → ℕ → NotifyWord → NotifyView → NotifyView
consider again g cur v =
    if cur.gen == g
    then if cur.permit
      then go (taking again g cur) v
      else if again
      then go (trying false g) v
      else go (park_locking g) v
    else go idle v

-- Its exchange.
unfoldable pub take_permit : (spurious again : Bool) → ℕ → NotifyWord → NotifyView → NotifyView
unfolding consider
take_permit spurious again g cur v =
    if not spurious && same_words v.core.word cur
    then go idle (set_word (record cur { permit = false }) v)
    else consider again g v.core.word v

-- A round of `enqueue_or_complete` with the word that it has, under the lock.
unfoldable pub admit : ℕ → ℕ → NotifyWord → NotifyView → NotifyView
admit self g cur v =
    if cur.gen == g
    then if cur.permit then go (claiming g cur) v else record v {
      core = record v.core { queue = v.core.queue ++ self ∷ [] };
      caller = record v.caller { place = unlocking (rests g); aux = g };
    }
    else go (unlocking passes) v

-- `fetch_or`
unfoldable pub raise_flag : ℕ → ℕ → NotifyView → NotifyView
unfolding admit
raise_flag self g v =
    let raised = set_word (record v.core.word { has_queue = true }) v in
    admit self g raised.core.word raised

-- The exchange for the permit.
unfoldable pub claim_permit : (spurious : Bool) → ℕ → ℕ → NotifyWord → NotifyView → NotifyView
unfolding admit
claim_permit spurious self g cur v =
    if not spurious && same_words v.core.word cur
    then go (unlocking passes) (set_word (record cur { permit = false }) v)
    else admit self g v.core.word v

-- `WaitQueue::lock`: `alloc` says what to do when there is no queue; the spin is a step that stays.
unfoldable pub lock_nodes :
    (alloc : Bool) → (entered missing : NotifyView → NotifyView) → NotifyView → NotifyView
lock_nodes alloc entered missing v = elim v.core.tag [
  | null ↦
      if alloc
      then entered (record v { core = record v.core { tag = held; queue = [] } })
      else missing v
  | published ↦ entered (record v { core = record v.core { tag = held } })
  | held ↦ v
]

unfoldable pub onward_place : Onward → NotifyPlace
onward_place (rests g) = parked g
onward_place passes = idle
onward_place withdraws = idle
onward_place waits_on = leave_waiting
onward_place retries = renotifying
onward_place (tells c t) = telling c t

-- `LockedQueue::unlock`: a queue that is empty is not published, and HAS_QUEUE is cleared first.
unfoldable pub unlock_nodes : Onward → NotifyView → NotifyView
unlock_nodes k v =
    if is_nil v.core.queue
    then go (unpublishing k) (set_word (record v.core.word { has_queue = false }) v)
    else go (onward_place k) (record v { core = record v.core { tag = published } })

unfoldable pub drop_nodes : Onward → NotifyView → NotifyView
drop_nodes k v = go (onward_place k) (record v { core = record v.core { tag = null } })

-- `notify_one`: the load.
unfoldable pub notify_first : NotifyView → NotifyView
notify_first v =
    if v.core.word.has_queue
    then go renotifying v
    else if v.core.word.permit
    then go idle v
    else go (storing v.core.word) v

-- Its exchange.
unfoldable pub store_permit : NotifyWord → NotifyView → NotifyView
store_permit cur v =
    if same_words v.core.word cur
    then go idle (set_word (record cur { permit = true }) v)
    else go renotifying v

-- A round of `notify_one_slow` with the word that it has.
unfoldable pub renotify : NotifyWord → NotifyView → NotifyView
renotify cur v =
    if cur.has_queue
    then go one_locking v
    else if cur.permit
    then go idle v
    else go (restoring cur) v

-- Its exchange.
unfoldable pub restore_permit : (spurious : Bool) → NotifyWord → NotifyView → NotifyView
unfolding renotify
restore_permit spurious cur v =
    if not spurious && same_words v.core.word cur
    then go idle (set_word (record cur { permit = true }) v)
    else renotify v.core.word v

-- Under its lock: the oldest waiter is popped.
unfoldable pub pop_oldest : NotifyView → NotifyView
pop_oldest v = elim v.core.queue [
  | [] ↦ go (unlocking retries) v
  | j ∷ js ↦ go (unlocking (tells (j ∷ []) by_one)) (set_nodes js v)
]

-- `notify_waiters`: the generation changes.
unfoldable pub bump : NotifyView → NotifyView
bump v =
    let bumped = set_word (record v.core.word { gen = (v.core.word.gen + 1) % 2 ^ 61 }) v in
    if v.core.word.has_queue then go all_locking bumped else go idle bumped

-- Under its lock: the nodes of earlier generations are popped from the front.
unfoldable pub pop_stale : (aux : ℕ → ℕ) → NotifyView → NotifyView
pop_stale aux v =
    let live_gen = v.core.word.gen in
    go (unlocking (tells (take_while (λ j. not (aux j == live_gen)) v.core.queue) by_all))
      (set_nodes (drop_while (λ j. not (aux j == live_gen)) v.core.queue) v)

-- A waiter looks at its node.
unfoldable pub await_told : NotifyView → NotifyView
await_told v = elim v.caller.told [ asleep ↦ v | _ ↦ go idle v ]

-- `drop_slow` under the lock.
unfoldable pub leave_nodes : ℕ → NotifyView → NotifyView
leave_nodes self v =
    if has self v.core.queue
    then go (unlocking withdraws) (set_nodes (erase self v.core.queue) v)
    else go (unlocking waits_on) v

-- Its end: a waiter that was woken alone and is dropped passes that on.
unfoldable pub pass_on : (asleep_place : NotifyPlace) → NotifyView → NotifyView
pass_on p v = elim v.caller.told [ asleep ↦ go p v | by_one ↦ go notifying v | by_all ↦ go idle v ]

-- One step of the caller `self` that writes no node but its own; `aux` is what all nodes store.
unfoldable pub notify_alone :
    (spurious : Bool) → (aux : ℕ → ℕ) → ℕ → NotifyPlace → NotifyView → NotifyView
unfolding consider renotify
notify_alone w aux self (capturing future) v =
    if future then go (created v.core.word.gen) v else go (trying false v.core.word.gen) v
notify_alone w aux self (trying again g) v = consider again g v.core.word v
notify_alone w aux self (taking again g cur) v = take_permit w again g cur v
notify_alone w aux self (park_locking g) v = lock_nodes true (go (flagging g)) (λ u. u) v
notify_alone w aux self (flagging g) v = raise_flag self g v
notify_alone w aux self (claiming g cur) v = claim_permit w self g cur v
notify_alone w aux self (unlocking k) v = unlock_nodes k v
notify_alone w aux self (unpublishing k) v = drop_nodes k v
notify_alone w aux self (telling [] t) v = go idle v
notify_alone w aux self (parked g) v = await_told v
notify_alone w aux self notifying v = notify_first v
notify_alone w aux self (storing cur) v = store_permit cur v
notify_alone w aux self renotifying v = renotify v.core.word v
notify_alone w aux self (restoring cur) v = restore_permit w cur v
notify_alone w aux self one_locking v = lock_nodes false (go one_popping) (go renotifying) v
notify_alone w aux self one_popping v = pop_oldest v
notify_alone w aux self bumping v = bump v
notify_alone w aux self all_locking v = lock_nodes false (go all_popping) (go idle) v
notify_alone w aux self all_popping v = pop_stale aux v
notify_alone w aux self leave_locking v = lock_nodes false (go leave_removing) (go leave_waiting) v
notify_alone w aux self leave_removing v = leave_nodes self v
notify_alone w aux self leave_waiting v = pass_on leave_waiting v
notify_alone w aux self _ v = v

-- The public calls: `wait`, `notified` with its first poll, both notifications, and the drop of a
-- future.
pub data NotifyCall : Type 0 where
  waits_sync notified polls notifies_one notifies_waiters drops_notified : NotifyCall

-- One that does not fit the caller's place changes nothing.
unfoldable pub begin_notify : NotifyCall → NotifyPlace → NotifyView → NotifyView
unfolding pass_on
begin_notify waits_sync idle v = record v {
  caller = record { place = capturing false; told = asleep; aux = v.caller.aux };
}
begin_notify notified idle v = record v {
  caller = record { place = capturing true; told = asleep; aux = v.caller.aux };
}
begin_notify polls (created g) v = go (trying true g) v
begin_notify notifies_one idle v = go notifying v
begin_notify notifies_waiters idle v = go bumping v
begin_notify drops_notified (created g) v = go idle v
begin_notify drops_notified (parked g) v = pass_on leave_locking v
begin_notify _ _ v = v

-- The core with all callers.
pub record NotifySystem : Type 0 where
  pub core : NotifyCore
  pub caller : ℕ → NotifyCaller

abbrev pub notify_view : ℕ → NotifySystem → NotifyView
notify_view i s = record { core = s.core; caller = s.caller i }

abbrev pub notify_put : ℕ → NotifySystem → NotifyView → NotifySystem
notify_put i s v = record { core = v.core; caller = update s.caller i v.caller }

-- `signal_node`: the next node of a chain is signaled, after its link is read.
unfoldable pub notify_node : ℕ → ℕ → List ℕ → Told → NotifySystem → NotifySystem
notify_node i j c t s =
    let f = update s.caller j (record (s.caller j) { told = t }) in
    record s { caller = update f i (record (f i) { place = telling c t }) }

unfoldable pub notify_from : Bool → ℕ → NotifyPlace → NotifySystem → NotifySystem
notify_from w i (telling (j ∷ c) t) s = notify_node i j c t s
notify_from w i p s = notify_put i s (notify_alone w (λ j. (s.caller j).aux) i p (notify_view i s))

-- What happens next: caller `i` begins a call, or takes a step.
pub data NotifyEvent : Type 0 where
  notify_calls : (i : ℕ) → NotifyCall → NotifyEvent
  notify_runs : (spurious : Bool) (i : ℕ) → NotifyEvent

unfoldable pub notify_step : NotifyEvent → NotifySystem → NotifySystem
notify_step (notify_calls i c) s =
    notify_put i s (begin_notify c (s.caller i).place (notify_view i s))
notify_step (notify_runs w i) s = notify_from w i (s.caller i).place s

unfoldable pub notify_steps : List NotifyEvent → NotifySystem → NotifySystem
notify_steps [] s = s
notify_steps (e ∷ es) s = notify_steps es (notify_step e s)

-- `NotifyCore::new`.
abbrev pub new_notify : NotifySystem
new_notify = record {
  core = record {
    word = record { gen = 0; has_queue = false; permit = false };
    tag = null;
    queue = [];
  };
  caller = λ _. record { place = idle; told = asleep; aux = 0 };
}

-- The events are those of the first `n` callers.
abbrev pub NotifyActors : ℕ → List NotifyEvent → Type 0
NotifyActors n [] = Unit {0}
NotifyActors n (notify_calls i c ∷ es) = (i < n) × NotifyActors n es
NotifyActors n (notify_runs w i ∷ es) = (i < n) × NotifyActors n es
