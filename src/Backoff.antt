-- ===== src/Backoff.antt =====
-- src/backoff.rs, `Backoff` of the builds with a standard library, and the spin phase of a wait that
-- uses it, in src/semaphore.rs and src/lib.rs.
pub mod Bounds
mod Tests
use xutex.Prelude.{
  ℕ, zero, suc, ◌+◌, ◌-◌, ◌^◌, min, Bool, Option, none, some, ◌==◌, ◌&&◌, ltb, leb, if◌then◌else◌,
}

pub record Backoff : Type 0 where
  pub spin : ℕ

abbrev pub new_backoff : Backoff
new_backoff = record { spin = 0 }

-- What one `snooze` does to the machine: spin-loop hints, or a yield of the thread.
pub data Delay : Type 0 where
  hints : (n : ℕ) → Delay
  yields : Delay

-- `u32::saturating_add(1)`
abbrev pub saturating_suc : ℕ → ℕ
saturating_suc spin = min (spin + 1) (2 ^ 32 - 1)

unfoldable pub snooze : (parallelism : ℕ) → Backoff → Delay × Backoff
snooze parallelism b = (
  if leb b.spin 6 && ltb 1 parallelism then hints (2 ^ min b.spin 5) else yields,
  record { spin = saturating_suc b.spin },
)

unfoldable pub is_completed : Backoff → Bool
is_completed b = ltb 32 b.spin

-- `get_parallelism` with `init_parallelism`, on the static: `available` is what the system answers, if
-- it does. The static is 0 until then.
unfoldable pub get_parallelism : (available : Option ℕ) → (cached : ℕ) → ℕ × ℕ
get_parallelism available cached =
    let parallelism : ℕ = elim available [ none ↦ 1 | some n ↦ n ] in
    if cached == 0 then (parallelism, parallelism) else (cached, cached)

-- The loop of `acquire_sync_slow` before it parks, on fuel: `signaled k` says what its load number `k`
-- sees. It returns the number of the load that saw the signal, or none to park.
unfoldable pub spin_phase :
    ℕ → (parallelism : ℕ) → (signaled : ℕ → Bool) → (k : ℕ) → Backoff → Option (Option ℕ)
spin_phase zero parallelism signaled k b = none
spin_phase (suc fuel) parallelism signaled k b =
    let rest = spin_phase fuel parallelism signaled (k + 1) (snooze parallelism b).1 in
    if signaled k then some (some k) else if is_completed b then some none else rest

-- The hints that a delay consists of, and those of `n` snoozes in a row.
abbrev pub burst : Delay → ℕ
burst (hints h) = h
burst yields = 0

unfoldable pub spun : ℕ → (parallelism : ℕ) → Backoff → ℕ
spun zero parallelism b = 0
spun (suc n) parallelism b =
    let (delay, after) = snooze parallelism b in burst delay + spun n parallelism after
