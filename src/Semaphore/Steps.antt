-- ===== src/Semaphore/Steps.antt =====
-- src/semaphore.rs: one step of one caller, up to and with its next access to shared memory.
-- `spurious` is the failure without cause that `compare_exchange_weak` is allowed.
use xutex.Prelude.{
  ℕ, ◌+◌, ◌-◌, ◌%◌, ◌^◌, min, Bool, true, false, List, [], ◌∷◌, ◌++◌, ◌==◌, ◌&&◌, ◌||◌, not, ltb,
  leb, if◌then◌else◌, is_nil, has, erase,
}
use xutex.Semaphore.State.{
  max_permits, Pool, same_pool, Tag, null, published, held, waiting, signaled, closed, returned,
  Attempt, only, first, second, Then, acquired, refused, queued, wakes, gives, drains, quits,
  awaits, Pc, idle, trying, locking, flagging, deciding, unlocking, unpublishing, parked, holding,
  releasing, drain_locking, drain_loading, draining, assigning, waking, close_locking,
  close_popping, forgetting, cancel_locking, cancel_removing, cancel_waiting, panicked, granted,
  failed, Local,
}

abbrev pub goto : Pc → Local → Local
goto p l = record l { task = record l.task { pc = p } }

abbrev set_pool : Pool → Local → Local
set_pool p l = record l { core = record l.core { pool = p } }

abbrev set_tag : Tag → Local → Local
set_tag t l = record l { core = record l.core { tag = t } }

abbrev set_queue : List ℕ → Local → Local
set_queue q l = record l { core = record l.core { queue = q } }

-- The acquisition of `n` permits has returned `Ok`, and the node is done with.
abbrev succeed : ℕ → Local → Local
succeed n l = record l {
  task = record l.task { pc = holding n; value = returned; outcome = granted };
}

-- It has returned an error.
abbrev fail : Pc → Local → Local
fail p l = record l { task = record l.task { pc = p; value = returned; outcome = failed } }

-- The compare-exchange of the pool word from `cur` to `new`.
abbrev exchange : Bool → Pool → Pool → (won lost : Local → Local) → Local → Local
exchange spurious cur new won lost l =
    if not spurious && same_pool l.core.pool cur then won (set_pool new l) else lost l

abbrev without : Pool → ℕ → Pool
without p n = record p { permits = p.permits - n }

-- `try_acquire` has returned an error. `prepare` is the node of a wait before it is queued.
abbrev prepare : ℕ → Local → Local
prepare n l = record l { task = record l.task { pc = locking n; value = waiting; aux = n } }

unfoldable pub refuse : Attempt → ℕ → (is_closed : Bool) → Local → Local
refuse only n c l = fail idle l
refuse first n c l = goto (trying second n l.core.pool) l
refuse second n true l = fail idle l
refuse second n false l = prepare n l

-- `try_acquire`
unfoldable pub try_acquire : Bool → Attempt → ℕ → Pool → Local → Local
unfolding refuse
try_acquire spurious a n cur l =
    if cur.closed
    then refuse a n true l
    else if cur.has_queue || ltb cur.permits n
    then refuse a n false l
    else exchange spurious cur (without cur n) (succeed n) (λ k. goto (trying a n k.core.pool) k) l

-- `WaitQueue::lock`: `alloc` says what to do when there is no queue; the spin is a step that stays.
unfoldable pub lock_queue : (alloc : Bool) → (entered missing : Local → Local) → Local → Local
lock_queue alloc entered missing l = elim l.core.tag [
  | null ↦ if alloc then entered (set_queue [] (set_tag held l)) else missing l
  | published ↦ entered (set_tag held l)
  | held ↦ l
]

-- What follows the unlock.
unfoldable pub resume : Then → Local → Local
resume (acquired n) l = succeed n l
resume refused l = fail idle l
resume (queued n) l = goto (parked n) l
resume (wakes c v) l = goto (waking c v) l
resume (gives g) l = goto (releasing g) l
resume drains l = goto drain_locking l
resume quits l = goto idle l
resume (awaits n) l = goto (cancel_waiting n) l

-- `LockedQueue::unlock` with the `on_empty` of every caller: `fetch_and(!HAS_QUEUE)`.
unfoldable pub unlock : Then → Local → Local
unfolding resume
unlock k l =
    if is_nil l.core.queue
    then goto (unpublishing k) (set_pool (record l.core.pool { has_queue = false }) l)
    else resume k (set_tag published l)

-- Its last store, when the queue is empty.
unfoldable pub unpublish : Then → Local → Local
unfolding resume
unpublish k l = resume k (set_tag null l)

-- `enqueue_or_acquire`, up to the lock. What follows its panic is left out.
unfoldable pub enqueue_lock : ℕ → Local → Local
unfolding lock_queue
enqueue_lock n l =
    if ltb max_permits n then goto panicked l else lock_queue true (goto (flagging n)) (λ k. k) l

-- `fetch_or(HAS_QUEUE)`
unfoldable pub enqueue_flag : ℕ → Local → Local
enqueue_flag n l =
    let cur : Pool = record l.core.pool { has_queue = true } in
    goto (deciding n cur) (set_pool cur l)

-- Its loop: closed, acquired, or queued. The queue cannot change while its lock is held.
unfoldable pub enqueue_decide : Bool → (self n : ℕ) → Pool → Local → Local
enqueue_decide spurious self n cur l =
    if cur.closed
    then goto (unlocking refused) l
    else if is_nil l.core.queue && leb n cur.permits
    then exchange spurious cur (without cur n) (goto (unlocking (acquired n)))
        (λ k. goto (deciding n k.core.pool) k) l
    else goto (unlocking (queued n)) (set_queue (l.core.queue ++ self ∷ []) l)

-- `fetch_add(n << PERMIT_SHIFT)`
abbrev pub fetch_add : Pool → ℕ → Pool
fetch_add p n = record p { permits = (p.permits + n) % 2 ^ 62 }

-- `release`
unfoldable pub release : ℕ → Local → Local
release n l =
    let prev = l.core.pool in
    let added = set_pool (fetch_add prev n) l in
    if n == 0
    then goto idle l
    else if ltb max_permits ((prev.permits + n) % 2 ^ 64)
    then goto panicked added
    else if prev.has_queue
    then goto drain_locking added
    else goto idle added

-- `drain`, up to the lock.
unfoldable pub drain_lock : Local → Local
unfolding lock_queue
drain_lock l = lock_queue false (goto drain_loading) (goto idle) l

-- Its first loop: every permit of the pool is taken.
unfoldable pub drain_take : Bool → Pool → Local → Local
drain_take spurious cur l =
    if cur.permits == 0
    then goto (assigning 0) l
    else exchange spurious cur (record cur { permits = 0 }) (goto (assigning cur.permits))
        (λ k. goto (draining k.core.pool) k) l

-- The leftovers go back.
unfoldable pub drain_return : ℕ → List ℕ → Local → Local
drain_return available chain l =
    goto (unlocking (wakes chain signaled))
      (set_pool (if ltb 0 available then fetch_add l.core.pool available else l.core.pool) l)

-- `close`
unfoldable pub close : Local → Local
close l =
    let prev = l.core.pool in
    goto (if prev.closed then idle else if prev.has_queue then close_locking else idle)
      (set_pool (record prev { closed = true }) l)

unfoldable pub close_lock : Local → Local
unfolding lock_queue
close_lock l = lock_queue false (goto close_popping) (goto idle) l

unfoldable pub close_pop : Local → Local
close_pop l = goto (unlocking (wakes l.core.queue closed)) (set_queue [] l)

-- `forget_permits`
unfoldable pub forget_permits : Bool → ℕ → Pool → Local → Local
forget_permits spurious n cur l =
    let forget = min cur.permits n in
    if forget == 0
    then goto idle l
    else exchange spurious cur (without cur forget)
        (λ k. record (goto idle k) { supply = k.supply - forget })
        (λ k. goto (forgetting n k.core.pool) k) l

-- A queued caller looks at its node: `finish_sync`, and the tail of `poll_acquire_slow`.
unfoldable pub await_signal : ℕ → Local → Local
await_signal n l = elim l.task.value [
  | signaled ↦ succeed n l
  | closed ↦ fail (releasing (n - l.task.aux)) l
  | _ ↦ l
]

-- `drop_acquire` of a future that is queued
unfoldable pub drop_acquire : ℕ → Local → Local
drop_acquire n l = elim l.task.value [
  | waiting ↦ goto (cancel_locking n) l
  | signaled ↦ fail (releasing n) l
  | closed ↦ fail (releasing (n - l.task.aux)) l
  | _ ↦ l
]

-- `cancel_acquire`, up to the lock.
unfoldable pub cancel_lock : ℕ → Local → Local
unfolding lock_queue
cancel_lock n l = lock_queue false (goto (cancel_removing n)) (goto (cancel_waiting n)) l

abbrev pub is_head : ℕ → List ℕ → Bool
is_head a [] = false
is_head a (x ∷ xs) = x == a

-- The node leaves the queue if it is there; what its owner owes then.
unfoldable pub cancel_remove : (self n : ℕ) → Local → Local
cancel_remove self n l =
    let queue = l.core.queue in
    let rest = erase self queue in
    let granted_now = n - l.task.aux in
    if has self queue
    then fail
        (unlocking (
          if ltb 0 granted_now
          then gives granted_now
          else if is_head self queue && not (is_nil rest)
          then drains
          else quits))
        (set_queue rest l)
    else goto (unlocking (awaits n)) l

-- Its last loop: the signal in flight.
unfoldable pub cancel_wait : ℕ → Local → Local
cancel_wait n l = elim l.task.value [
  | signaled ↦ fail (releasing n) l
  | closed ↦ fail (releasing (n - l.task.aux)) l
  | _ ↦ l
]
