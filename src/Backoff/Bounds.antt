-- ===== src/Backoff/Bounds.antt =====
-- src/backoff.rs: how long a wait spins.
use xutex.Prelude.{
  ℕ, zero, suc, ◌+◌, ◌≤◌, ◌<◌, ◌≡◌, refl, Bool, false, Option, none, some, ltb, inl, inr,
  if◌then◌else◌, Bool-cases, arith,
}
use xutex.Backoff.{
  Backoff, new_backoff, burst, saturating_suc, snooze, is_completed, spin_phase, spun,
}

-- The first of `n` loads from number `k` on that sees the signal.
abbrev pub first_signal : ℕ → (ℕ → Bool) → ℕ → Option ℕ
first_signal zero signaled k = none
first_signal (suc n) signaled k = if signaled k then some k else first_signal n signaled (k + 1)

spin_phase-first_signal :
    (left fuel parallelism : ℕ) (signaled : ℕ → Bool) (k : ℕ) (b : Backoff)
    → b.spin + left ≡ 33
    → left < fuel
    → spin_phase fuel parallelism signaled k b ≡ some (first_signal (suc left) signaled k)
unfolding spin_phase snooze is_completed
spin_phase-first_signal left zero p signaled k b e lt = absurd (omega (arith, lt))
spin_phase-first_signal zero (suc fuel) p signaled k b e lt = ground (arith, e)
spin_phase-first_signal (suc left) (suc fuel) p signaled k b e lt = elim (Bool-cases (signaled k)) [
  | inl seen ↦ rw seen refl
  | inr unseen ↦
      let more : ltb 32 b.spin ≡ false = ground (arith, e) in
      rw (unseen, more)
        (spin_phase-first_signal left fuel p signaled (k + 1) (snooze p b).1 (ground (arith, e))
          (omega (arith, lt)))
]

-- Fuel for 34 rounds is enough for the spin phase, whatever the loads see: it ends at the first of its
-- 34 loads that sees the signal, and if none does, after them.
pub spin_phase-ends :
    (fuel parallelism : ℕ) (signaled : ℕ → Bool)
    → 34 ≤ fuel
    → spin_phase fuel parallelism signaled 0 new_backoff ≡ some (first_signal 34 signaled 0)
spin_phase-ends fuel parallelism signaled enough =
    spin_phase-first_signal 33 fuel parallelism signaled 0 new_backoff refl (omega (arith, enough))

-- What a backoff may still spin.
hints_left : ℕ → ℕ
hints_left zero = 95
hints_left (suc zero) = 94
hints_left (suc (suc zero)) = 92
hints_left (suc (suc (suc zero))) = 88
hints_left (suc (suc (suc (suc zero)))) = 80
hints_left (suc (suc (suc (suc (suc zero))))) = 64
hints_left (suc (suc (suc (suc (suc (suc zero)))))) = 32
hints_left _ = 0

hints_left-large : (spin : ℕ) → 7 ≤ spin → hints_left spin ≡ 0
unfolding hints_left
hints_left-large (suc (suc (suc (suc (suc (suc (suc m))))))) h = refl
hints_left-large zero h = absurd (omega (arith, h))
hints_left-large (suc zero) h = absurd (omega (arith, h))
hints_left-large (suc (suc zero)) h = absurd (omega (arith, h))
hints_left-large (suc (suc (suc zero))) h = absurd (omega (arith, h))
hints_left-large (suc (suc (suc (suc zero)))) h = absurd (omega (arith, h))
hints_left-large (suc (suc (suc (suc (suc zero))))) h = absurd (omega (arith, h))
hints_left-large (suc (suc (suc (suc (suc (suc zero)))))) h = absurd (omega (arith, h))

-- One snooze takes from that what it spins.
snooze-hints_left :
    (p spin : ℕ)
    → burst (snooze p (record { spin = spin })).0
        + hints_left (snooze p (record { spin = spin })).1.spin
      ≤ hints_left spin
unfolding snooze hints_left
snooze-hints_left p zero = ground arith
snooze-hints_left p (suc zero) = ground arith
snooze-hints_left p (suc (suc zero)) = ground arith
snooze-hints_left p (suc (suc (suc zero))) = ground arith
snooze-hints_left p (suc (suc (suc (suc zero)))) = ground arith
snooze-hints_left p (suc (suc (suc (suc (suc zero))))) = ground arith
snooze-hints_left p (suc (suc (suc (suc (suc (suc zero)))))) = ground arith
snooze-hints_left p (suc (suc (suc (suc (suc (suc (suc m))))))) =
    let spin = 7 + m in ground (arith, hints_left-large (saturating_suc spin) (omega arith))

spun-le : (n p : ℕ) (b : Backoff) → spun n p b ≤ hints_left b.spin
unfolding spun
spun-le zero p b = omega arith
spun-le (suc n) p b = omega (arith, snooze-hints_left p b.spin, spun-le n p (snooze p b).1)

-- However often a wait snoozes, it gives the processor at most 95 spin-loop hints in all; the other
-- snoozes yield the thread.
pub spun-bounded : (n parallelism : ℕ) → spun n parallelism new_backoff ≤ 95
unfolding hints_left
spun-bounded n parallelism = spun-le n parallelism new_backoff
