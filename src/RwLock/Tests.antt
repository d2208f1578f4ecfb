-- ===== src/RwLock/Tests.antt =====
-- src/rwlock.rs: a writer of a lock for three readers, and a reader that waits for it.
use xutex.Prelude.{◌≡◌, false, refl, List, [], ◌∷◌, arith}
use xutex.Semaphore.State.{idle, holding}
use xutex.Semaphore.Steps.{refuse, try_acquire, lock_queue, enqueue_lock}
use xutex.Semaphore.System.{steps, step, advance, begin, run_caller}
use xutex.RwLock.{
  RwEvent, rw_call, rw_run, rw_downgrades, write, read, permit_call, permit_event, permit_events,
  rw_reach, RwActors,
}
use xutex.RwLock.Downgrade.{Downgraded, rwlock-downgrades}

abbrev written : List RwEvent
written =
    rw_call 0 write
    ∷ rw_run false 0
    ∷ rw_call 1 read
    ∷ rw_run false 1
    ∷ rw_run false 1
    ∷ rw_run false 1
    ∷ []

written_holds : ((rw_reach 3 written).task 0).pc ≡ holding 3
unfolding steps step begin run_caller advance try_acquire refuse enqueue_lock lock_queue
    permit_events permit_event permit_call
written_holds = refl

written-RwActors_three : RwActors 3 written
written-RwActors_three = ground arith

written_idles : ((rw_reach 3 written).task 2).pc ≡ idle
unfolding steps step begin run_caller advance try_acquire refuse enqueue_lock lock_queue
    permit_events permit_event permit_call
written_idles = refl

rwlock-downgrades_example :
    Downgraded 3 0 2 false
      (rw_reach 3 written)
      (step (permit_event 3 (rw_downgrades 0 2)) (rw_reach 3 written))
rwlock-downgrades_example =
    rwlock-downgrades 3 3 written (omega arith) (omega arith) written-RwActors_three 0 2 false
      (omega arith) (omega arith) written_holds written_idles
