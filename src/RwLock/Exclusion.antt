-- ===== src/RwLock/Exclusion.antt =====
-- src/rwlock.rs: writers exclude everyone, readers exclude writers.
use xutex.Prelude.{ℕ, List, [], ◌∷◌, ◌==◌, if◌then◌else◌}
use xutex.Semaphore.State.{holding, Task}
use xutex.Semaphore.System.{System, AllAllowed}
use xutex.RwLock.{
  try_read, try_write, read, write, drops_guard, drops_request, permit_call, RwEvent, rw_call,
  rw_run, rw_downgrades, permit_event, permit_events, RwActors,
}

pub events-allowed :
    (n r : ℕ) (es : List RwEvent) (s : System) → RwActors n es → AllAllowed n (permit_events r es) s
unfolding permit_events permit_event permit_call
events-allowed n r [] s a = tt
events-allowed n r (rw_call i try_read ∷ es) s (lt, a) = ((lt, tt), events-allowed n r es _ a)
events-allowed n r (rw_call i try_write ∷ es) s (lt, a) = ((lt, tt), events-allowed n r es _ a)
events-allowed n r (rw_call i read ∷ es) s (lt, a) = ((lt, tt), events-allowed n r es _ a)
events-allowed n r (rw_call i write ∷ es) s (lt, a) = ((lt, tt), events-allowed n r es _ a)
events-allowed n r (rw_call i drops_guard ∷ es) s (lt, a) = ((lt, tt), events-allowed n r es _ a)
events-allowed n r (rw_call i drops_request ∷ es) s (lt, a) = ((lt, tt), events-allowed n r es _ a)
events-allowed n r (rw_run w i ∷ es) s (lt, a) = (lt, events-allowed n r es _ a)
events-allowed n r (rw_downgrades i j ∷ es) s (lt, lj, a) = ((lt, lj), events-allowed n r es _ a)

-- A caller with a read guard.
abbrev pub reading : Task → ℕ
reading t = elim t.pc [ holding n ↦ if n == 1 then 1 else 0 | _ ↦ 0 ]
