-- ===== src/Semaphore/Invariant/Trade.antt =====
-- src/semaphore.rs, `SemaphorePermit::split` and `merge`: permits change hands between two callers.
use xutex.Prelude.{
  ℕ, ◌+◌, ◌-◌, ◌<◌, ◌≡◌, Bool, true, false, refl, sym, ap, ◌∙◌, inl, inr, ◌==◌, arith, Bool-cases,
  has, count, total, update_two, total-update_two, update_two-cases, ltb,
}
use xutex.Semaphore.State.{signaled, Pc, idle, holding, Task}
use xutex.Semaphore.System.{System, place_two, split_permit, merge_permit}
use xutex.Semaphore.Invariant.Defs.{
  Inv, weight, owned, locks, in_chain, linked, chain, chain_value, clears, Sound,
}

-- A caller that makes no call: it may own a permit object.
abbrev pub at_rest : Pc → Bool
at_rest idle = true
at_rest (holding n) = true
at_rest _ = false

-- A caller with a permit object is not one without.
pub places_apart :
    (s : System) (i j m : ℕ) → (s.task i).pc ≡ holding m → (s.task j).pc ≡ idle → (i == j) ≡ false
places_apart s i j m e e' = elim (Bool-cases (i == j)) [
  | inl same ↦
      let k : i ≡ j = ground arith in
      let clash : idle ≡ holding m = sym e' ∙ ap (λ x. (s.task x).pc) (sym k) ∙ e in cc clash
  | inr other ↦ other
]

module _ {n : ℕ} {s : System} (inv : Inv n s) (i j : ℕ) (lt : i < n) (lj : j < n)
    (apart : (i == j) ≡ false) (p q : Pc) (rest : at_rest p ≡ true) (rest' : at_rest q ≡ true)
    (was : at_rest (s.task i).pc ≡ true) (was' : at_rest (s.task j).pc ≡ true)
    (sum : owned p + owned q ≡ owned (s.task i).pc + owned (s.task j).pc) where
  abbrev mine : Task
  mine = record (s.task i) { pc = p }

  abbrev theirs : Task
  theirs = record (s.task j) { pc = q }

  abbrev after : ℕ → Task
  after = update_two s.task i mine j theirs

  at_total :
      (w : Task → ℕ)
      → w mine + w theirs + total w n s.task ≡ w (s.task i) + w (s.task j) + total w n after
  at_total w = total-update_two w n s.task i mine j theirs lt lj apart

  unlinked :
      (t : Task) → at_rest t.pc ≡ true → (weight t ≡ owned t.pc) × (locks t ≡ 0) × (linked t ≡ 0)
  unlinked t r = ground arith

  unchained : (x : ℕ) (t : Task) → at_rest t.pc ≡ true → in_chain x t ≡ 0
  unchained x t r = ground arith

  rests-Sound : (t : Task) → at_rest t.pc ≡ true → Sound t.pc t
  rests-Sound t r = ground arith

  -- All but the permits is as it was.
  abbrev Same : Task → Task → Type 0
  Same t u =
      (linked t ≡ linked u)
      × (chain t.pc ≡ chain u.pc)
      × (chain_value t.pc ≡ chain_value u.pc)
      × (clears t.pc ≡ clears u.pc)
      × (t.aux ≡ u.aux)

  rests-Same : (t u : Task) → at_rest t.pc ≡ true → at_rest u.pc ≡ true → t.aux ≡ u.aux → Same t u
  rests-Same t u r r' e = ground arith

  after-Same : (x : ℕ) → Same (after x) (s.task x)
  after-Same =
      update_two-cases s.task i mine j theirs (λ x t. Same t (s.task x))
        (rests-Same mine (s.task i) rest was refl) (rests-Same theirs (s.task j) rest' was' refl)
        (λ x other miss. (refl, refl, refl, refl, refl))

  after_places : (x : ℕ) → count x s.core.queue + total (in_chain x) n after ≡ linked (after x)
  after_places x = omega (
    arith,
    at_total (in_chain x),
    unchained x mine rest,
    unchained x theirs rest',
    unchained x (s.task i) was,
    unchained x (s.task j) was',
    inv.places x,
    (after-Same x).0,
  )

  after_served :
      (k x : ℕ)
      → k < n
      → chain_value (after k).pc ≡ signaled
      → has x (chain (after k).pc) ≡ true
      → (after x).aux ≡ 0
  after_served k x le success m =
      let (linked_k, chain_k, value_k, clears_k, aux_k) = after-Same k in
      (after-Same x).4 ∙ inv.served k x le (sym value_k ∙ success) (ap (has x) (sym chain_k) ∙ m)

  pub place_two-Inv : Inv n (place_two i j p q s)
  place_two-Inv = record {
    permits = omega (
      arith,
      inv.permits,
      at_total weight,
      sum,
      (unlinked mine rest).0,
      (unlinked theirs rest').0,
      (unlinked (s.task i) was).0,
      (unlinked (s.task j) was').0,
    );
    lock = omega (
      arith,
      inv.lock,
      at_total locks,
      (unlinked mine rest).1,
      (unlinked theirs rest').1,
      (unlinked (s.task i) was).1,
      (unlinked (s.task j) was').1,
    );
    places = after_places;
    sound =
        update_two-cases s.task i mine j theirs (λ x t. Sound t.pc t) (rests-Sound mine rest)
          (rests-Sound theirs rest') (λ x other miss. inv.sound x);
    served = after_served;
    unpublished = inv.unpublished;
    cleared = λ k le c. inv.cleared k le (sym (after-Same k).3 ∙ c);
    among = λ x h. inv.among x (omega (arith, h, (after-Same x).0));
    bounded = inv.bounded;
  }

module _ {n : ℕ} {s : System} (inv : Inv n s) (i j : ℕ) (lt : i < n) (lj : j < n) where
  pub split_permit-Inv :
      (k : ℕ) (p q : Pc) → (s.task i).pc ≡ p → (s.task j).pc ≡ q → Inv n (split_permit i k j p q s)
  unfolding split_permit
  split_permit-Inv k (holding m) idle e e' = elim (Bool-cases (ltb m k)) [
    | inl few ↦ rw few inv
    | inr enough ↦
        let apart = places_apart s i j m e e' in
        rw enough (
          place_two-Inv inv i j lt lj apart (holding (m - k)) (holding k) refl refl (rw e refl)
            (rw e' refl) (ground (arith, e, e', enough)))
  ]
  split_permit-Inv k _ _ e e' = inv

  pub merge_permit-Inv :
      (p q : Pc) → (s.task i).pc ≡ p → (s.task j).pc ≡ q → Inv n (merge_permit i j p q s)
  unfolding merge_permit
  merge_permit-Inv (holding m) (holding k) e e' = elim (Bool-cases (i == j)) [
    | inl same ↦ rw same inv
    | inr apart ↦ rw apart (
        place_two-Inv inv i j lt lj apart (holding (m + k)) idle refl refl (rw e refl) (rw e' refl)
          (ground (arith, e, e')))
  ]
  merge_permit-Inv _ _ e e' = inv
