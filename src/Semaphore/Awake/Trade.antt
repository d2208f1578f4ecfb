-- ===== src/Semaphore/Awake/Trade.antt =====
-- src/semaphore.rs, `SemaphorePermit::split` and `merge`: permits that change hands wake no one, and
-- need not.
use xutex.Prelude.{
  ℕ, ◌-◌, ◌+◌, ◌≡◌, true, refl, inl, inr, ◌==◌, Bool-cases, update_two, update_two-cases, ltb,
  arith,
}
use xutex.Semaphore.State.{SemCore, Pc, idle, holding, Task}
use xutex.Semaphore.System.{System, place_two, split_permit, merge_permit}
use xutex.Semaphore.Invariant.Trade.{at_rest}
use xutex.Semaphore.Awake.Defs.{Busy, busy, Watch, Awake}
use xutex.Semaphore.Awake.Local.{Alike, busy-cong, need-kept}

rests-Alike : (p q : Pc) → at_rest p ≡ true → at_rest q ≡ true → Alike p q
rests-Alike p q r r' = ground arith

rests-Watch : (d : Busy) (m : SemCore) (p : Pc) → at_rest p ≡ true → Watch d m p
rests-Watch d m p r = ground arith

place_two-Awake :
    {n : ℕ} {s : System}
    → Awake n s
    → (i j : ℕ) (p q : Pc) → at_rest p ≡ true
    → at_rest q ≡ true
    → at_rest (s.task i).pc ≡ true
    → at_rest (s.task j).pc ≡ true
    → Awake n (place_two i j p q s)
place_two-Awake {n} {s} aw i j p q rest rest' was was' =
    let mine : Task = record (s.task i) { pc = p } in
    let theirs : Task = record (s.task j) { pc = q } in
    let alike =
      update_two-cases s.task i mine j theirs (λ x t. Alike t.pc (s.task x).pc)
        (rests-Alike p (s.task i).pc rest was) (rests-Alike q (s.task j).pc rest' was')
        (λ x other miss. (refl, refl, refl)) in
    let aux =
      update_two-cases s.task i mine j theirs (λ x t. t.aux ≡ (s.task x).aux) refl refl
        (λ x other miss. refl) in
    let after = update_two s.task i mine j theirs in
    let same = busy-cong n s.task after alike in
    record {
      calm = rw (same, need-kept s.core.queue s.task after (λ x mem. aux x)) aw.calm;
      watch = λ x le. rw same (
          update_two-cases s.task i mine j theirs
            (λ x t. Watch (busy n s.task) s.core (s.task x).pc → Watch (busy n s.task) s.core t.pc)
            (λ w. rests-Watch (busy n s.task) s.core p rest)
            (λ w. rests-Watch (busy n s.task) s.core q rest') (λ x other miss w. w) x
            (aw.watch x le));
    }

module _ {n : ℕ} {s : System} (aw : Awake n s) (i j : ℕ) where
  pub split_permit-Awake :
      (k : ℕ) (p q : Pc)
      → (s.task i).pc ≡ p
      → (s.task j).pc ≡ q
      → Awake n (split_permit i k j p q s)
  unfolding split_permit
  split_permit-Awake k (holding m) idle e e' = elim (Bool-cases (ltb m k)) [
    | inl few ↦ rw few aw
    | inr enough ↦
        rw enough
          (place_two-Awake aw i j (holding (m - k)) (holding k) refl refl (rw e refl) (rw e' refl))
  ]
  split_permit-Awake k _ _ e e' = aw

  pub merge_permit-Awake :
      (p q : Pc) → (s.task i).pc ≡ p → (s.task j).pc ≡ q → Awake n (merge_permit i j p q s)
  unfolding merge_permit
  merge_permit-Awake (holding m) (holding k) e e' = elim (Bool-cases (i == j)) [
    | inl same ↦ rw same aw
    | inr apart ↦
        rw apart (place_two-Awake aw i j (holding (m + k)) idle refl refl (rw e refl) (rw e' refl))
  ]
  merge_permit-Awake _ _ e e' = aw
