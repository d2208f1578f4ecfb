-- ===== src/Semaphore/Permits.antt =====
-- src/semaphore.rs, `SemaphorePermit::split` and `merge`: a split undone.
use xutex.Prelude.{
  ℕ, ◌-◌, ◌+◌, ◌≤◌, ◌≡◌, false, refl, ap, sym, ◌∙◌, inl, inr, ◌==◌, ==_refl, if◌then◌else◌, ltb,
  Bool-cases, arith, update_two, update_two-cases,
}
use xutex.Semaphore.State.{Pc, idle, holding, Task}
use xutex.Semaphore.System.{System, step, splits, merges, split_permit, merge_permit}
use xutex.Semaphore.Invariant.Trade.{places_apart}

-- What a split answers, and that a merge undoes it.
abbrev pub Undone : (i j m k : ℕ) → System → System → System → ℕ → Type 0
Undone i j m k s split merged x =
    ((split.task i).pc ≡ (if ltb m k then holding m else holding (m - k)))
    × ((split.task j).pc ≡ (if ltb m k then idle else holding k))
    × (merged.task x ≡ s.task x)
    × (merged.core ≡ s.core)
    × (merged.supply ≡ s.supply)

ltb-false : (m k : ℕ) → ltb m k ≡ false → k ≤ m
ltb-false m k h = ground (arith, h)

same_place : (t : Task) (p : Pc) → t.pc ≡ p → record t { pc = p } ≡ t
same_place t p e = ap (λ q. record t { pc = q }) (sym e)

-- Both callers stand again where they stood.
undone :
    (f g : ℕ → Task) (i j x : ℕ) (p q : Pc)
    → (f i).pc ≡ p
    → (f j).pc ≡ q
    → ((y : ℕ) → (y == i) ≡ false → (y == j) ≡ false → g y ≡ f y)
    → update_two g i (record (f i) { pc = p }) j (record (f j) { pc = q }) x ≡ f x
undone f g i j x p q e e' others =
    update_two-cases g i (record (f i) { pc = p }) j (record (f j) { pc = q }) (λ y t. t ≡ f y)
      (same_place (f i) p e) (same_place (f j) q e') others x

-- If a caller owns a permit object of `m` and another owns none: splitting `k` off for the other
-- leaves both as they were if `k` is more than `m`, and else the first owns `m - k` and the other `k`;
-- in both cases a merge afterwards gives back the state before.
pub splits-merges :
    (s : System) (i j m k x : ℕ)
    → (s.task i).pc ≡ holding m
    → (s.task j).pc ≡ idle
    → Undone i j m k s (step (splits i k j) s) (step (merges i j) (step (splits i k j) s)) x
unfolding step split_permit merge_permit
splits-merges s i j m k x e e' =
    let apart = places_apart s i j m e e' in
    let flip : (j == i) ≡ false = ground (arith, apart) in
    elim (Bool-cases (ltb m k)) [
      | inl few ↦ rw (e, e', few, e, e') (refl, refl, refl, refl, refl)
      | inr enough ↦
          let whole : m - k + k ≡ m = omega (arith, ltb-false m k enough) in
          rw (e, e', enough, ==_refl i, flip, ==_refl j, apart, ==_refl i, flip, ==_refl j)
            (
              refl,
              refl,
              undone s.task
                  (update_two s.task i (record (s.task i) { pc = holding (m - k) }) j
                    (record (s.task j) { pc = holding k }))
                  i j x (holding (m - k + k)) idle (e ∙ ap (λ z. holding z) (sym whole)) e'
                  (λ y other miss. rw (other, miss) refl),
              refl,
              refl,
            )
    ]
