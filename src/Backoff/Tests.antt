-- ===== src/Backoff/Tests.antt =====
-- A wait whose fifth load sees the signal, and the cache of the parallelism.
use xutex.Prelude.{◌≡◌, ◌==◌, refl, none, some, arith}
use xutex.Backoff.{new_backoff, snooze, is_completed, get_parallelism, spin_phase}
use xutex.Backoff.Bounds.{first_signal, spin_phase-ends}

spins_once : spin_phase 40 8 (λ k. k == 4) 0 new_backoff ≡ some (some 4)
unfolding spin_phase snooze is_completed
spins_once = refl

spins_out : spin_phase 34 8 (λ k. k == 34) 0 new_backoff ≡ some none
unfolding spin_phase snooze is_completed
spins_out = refl

asks_once : get_parallelism none (get_parallelism (some 8) 0).1 ≡ (8, 8)
unfolding get_parallelism
asks_once = refl

spin_phase-ends_example :
    spin_phase 40 8 (λ k. k == 4) 0 new_backoff ≡ some (first_signal 34 (λ k. k == 4) 0)
spin_phase-ends_example = spin_phase-ends 40 8 (λ k. k == 4) (omega arith)
