-- ===== src/Notify/Tests.antt =====
-- src/notify.rs: a caller waits and is woken alone; and a caller that waits after `notify_waiters` and
-- before `notify_one` sleeps on.
use xutex.Prelude.{
  ℕ, zero, suc, ◌<◌, ◌≡◌, true, false, refl, inr, List, [], ◌∷◌, ◌++◌, arith, has, count,
}
use xutex.Notify.Steps.{
  idle, parked, asleep, consider, admit, raise_flag, lock_nodes, onward_place, unlock_nodes,
  drop_nodes, notify_first, renotify, pop_oldest, bump, pop_stale, await_told, notify_alone,
  waits_sync, notifies_one, notifies_waiters, begin_notify, notify_node, notify_from, NotifyEvent,
  notify_calls, notify_runs, notify_step, notify_steps, NotifyActors,
}
use xutex.Notify.Invariant.{waits, in_chain}
use xutex.Notify.Safety.{notify_reach, Settled, notify-wakes, notify-unlinks}

-- `n` steps of the caller `i`.
abbrev notify_goes : ℕ → ℕ → List NotifyEvent
notify_goes zero i = []
notify_goes (suc n) i = notify_runs false i ∷ notify_goes n i

-- Caller 0 waits.
abbrev waiting : List NotifyEvent
waiting = notify_calls 0 waits_sync ∷ notify_goes 5 0

-- Caller 1 has woken it.
abbrev woken : List NotifyEvent
woken = waiting ++ notify_calls 1 notifies_one ∷ notify_goes 8 1 ++ notify_goes 1 0

waiting-NotifyActors : NotifyActors 1 waiting
waiting-NotifyActors = ground arith

woken-NotifyActors : NotifyActors 2 woken
woken-NotifyActors = ground arith

waiting_parks : ((notify_reach waiting).caller 0).place ≡ parked 0
unfolding notify_steps notify_step notify_from notify_alone begin_notify consider admit raise_flag
    lock_nodes onward_place unlock_nodes drop_nodes notify_first renotify pop_oldest bump pop_stale
    await_told notify_node
waiting_parks = refl

waiting_sleeps : ((notify_reach waiting).caller 0).told ≡ asleep
unfolding notify_steps notify_step notify_from notify_alone begin_notify consider admit raise_flag
    lock_nodes onward_place unlock_nodes drop_nodes notify_first renotify pop_oldest bump pop_stale
    await_told notify_node
waiting_sleeps = refl

waiting-Settled : (i : ℕ) → i < 1 → Settled ((notify_reach waiting).caller i)
waiting-Settled zero lt = inr (inr (0, waiting_parks, waiting_sleeps))
waiting-Settled (suc i) lt = absurd (omega arith)

woken_done : waits ((notify_reach woken).caller 0).place ≡ false
unfolding notify_steps notify_step notify_from notify_alone begin_notify consider admit raise_flag
    lock_nodes onward_place unlock_nodes drop_nodes notify_first renotify pop_oldest bump pop_stale
    await_told notify_node
woken_done = refl

notify-wakes_example :
    (◌≡◌ {A = ℕ} 0 (notify_reach waiting).core.word.gen)
    × ((notify_reach waiting).core.word.permit ≡ false)
    × ((notify_reach waiting).core.word.has_queue ≡ true)
    × (count 0 (notify_reach waiting).core.queue ≡ 1)
notify-wakes_example =
    notify-wakes 1 waiting (omega arith) waiting-NotifyActors waiting-Settled 0 0 waiting_parks
      waiting_sleeps

notify-unlinks_example :
    (has 0 (notify_reach woken).core.queue ≡ false)
    × (in_chain 0 ((notify_reach woken).caller 1) ≡ 0)
notify-unlinks_example =
    notify-unlinks 2 woken (omega arith) woken-NotifyActors 0 1 (omega arith) woken_done

-- Caller 0 waits; caller 1 changes the generation, and before it pops caller 0, caller 2 waits and
-- caller 3 notifies one; all have run as far as they can.
abbrev overlapping : List NotifyEvent
overlapping =
    waiting
    ++ notify_calls 1 notifies_waiters ∷ notify_goes 1 1
    ++ notify_calls 2 waits_sync ∷ notify_goes 5 2
    ++ notify_calls 3 notifies_one ∷ notify_goes 7 3
    ++ notify_goes 4 1
    ++ notify_goes 1 0

-- Caller 3 woke caller 0, which the new generation released too; caller 2 sleeps, without a permit.
overlapping_sleeps :
    (((notify_reach overlapping).caller 2).place ≡ parked 1)
    × (((notify_reach overlapping).caller 2).told ≡ asleep)
    × ((notify_reach overlapping).core.word.permit ≡ false)
    × (((notify_reach overlapping).caller 0).place ≡ idle)
    × (((notify_reach overlapping).caller 1).place ≡ idle)
    × (((notify_reach overlapping).caller 3).place ≡ idle)
unfolding notify_steps notify_step notify_from notify_alone begin_notify consider admit raise_flag
    lock_nodes onward_place unlock_nodes drop_nodes notify_first renotify pop_oldest bump pop_stale
    await_told notify_node
overlapping_sleeps = (refl, refl, refl, refl, refl, refl)
