-- ===== src/Semaphore/Invariant/Signal.antt =====
-- src/semaphore.rs, `signal_all`: telling the next node of a chain keeps the invariant.
use xutex.Prelude.{
  ℕ, ◌+◌, ◌<◌, ◌≡◌, true, false, refl, ◌∙◌, ◌⊎◌, inl, inr, List, [], ◌∷◌, ◌==◌, if◌then◌else◌,
  arith, Bool-cases, has, count, total, total-update, weight-le-total, update, ==_refl,
}
use xutex.Semaphore.State.{Task, Signal, signaled, waking}
use xutex.Semaphore.System.{System, signal}
use xutex.Semaphore.Invariant.Defs.{
  Inv, weight, locks, in_chain, linked, linked-le, chain, chain_value, clears, Sound, waits_signal,
}

Sound-signaled :
    (t : Task) (v : Signal)
    → 0 < linked t
    → (v ≡ signaled → t.aux ≡ 0)
    → Sound t.pc t
    → Sound t.pc (record t { value = v })
Sound-signaled t v l a s = ground arith

linked-told : (t : Task) (v : Signal) → waits_signal v ≡ 0 → linked (record t { value = v }) ≡ 0
linked-told t v w = ground arith

pub signal_after :
    (i j : ℕ) (c : List ℕ) (v : Signal) (s : System)
    → (i == j) ≡ false
    → signal i j c v s ≡ record s {
      task =
          update
            (update s.task j (record (s.task j) { value = v }))
            i
            (record (s.task i) { pc = waking c v });
    }
unfolding signal
signal_after i j c v s apart = rw (apart, signal)

module _ {n : ℕ} {s : System} (inv : Inv n s) (i : ℕ) (lt : i < n) (j : ℕ) (c : List ℕ) (v : Signal)
    (here : (s.task i).pc ≡ waking (j ∷ c) v) where
  told_linked : 0 < linked (s.task j)
  told_linked =
      let mine : in_chain j (s.task i) ≡ 1 + count j c = rw here (ground arith) in
      omega (arith, inv.places j, mine, weight-le-total (in_chain j) n s.task i lt)

  told_among : j < n
  told_among = inv.among j told_linked

  told_value : waits_signal v ≡ 0
  told_value = let sound = rw here at (inv.sound i) in sound.1

  teller_unlinked : linked (s.task i) ≡ 0
  teller_unlinked = rw here refl

  pub apart : (i == j) ≡ false
  apart = elim (Bool-cases (i == j)) [
    | inl same ↦
        let e : i ≡ j = ground arith in
        let none_linked : linked (s.task j) ≡ 0 = rw e at teller_unlinked in
        absurd (omega (arith, none_linked, told_linked))
    | inr other ↦ other
  ]

  -- The node of `j`, and the caller that told it.
  abbrev pub told : Task
  told = record (s.task j) { value = v }

  abbrev pub teller : Task
  teller = record (s.task i) { pc = waking c v }

  abbrev pub after : ℕ → Task
  after = update (update s.task j told) i teller

  after-total :
      (w : Task → ℕ)
      → w told ≡ w (s.task j)
      → total w n after + w (s.task i) ≡ total w n s.task + w teller
  after-total w same =
      let first = total-update w n s.task j told told_among in
      let second = total-update w n (update s.task j told) i teller lt in
      omega (arith, first, rw apart at second, same)

  -- A property of every node: of the teller, of the told, and of the others.
  pub after_cases {ℓ} :
      (P : ℕ → Task → Type ℓ)
      → P i teller
      → P j told
      → ((x : ℕ) → (x == i) ≡ false → (x == j) ≡ false → P x (s.task x))
      → (x : ℕ) → P x (after x)
  after_cases P at_i at_j at_x x = elim (Bool-cases (x == i)) [
    | inl same ↦ let e : x ≡ i = ground arith in rw (same, e) at_i
    | inr other ↦ rw other (elim (Bool-cases (x == j)) [
      | inl hit ↦ let e : x ≡ j = ground arith in rw (hit, e) at_j
      | inr miss ↦ rw miss (at_x x other miss)
    ])
  ]

  after_sum :
      (x : ℕ)
      → count x s.core.queue + total (in_chain x) n after + (if x == j then 1 else 0)
        ≡ linked (s.task x)
  after_sum x =
      let was : in_chain x (s.task i) ≡ count x (j ∷ c) = rw here refl in
      omega (arith, inv.places x, was, after-total (in_chain x) refl)

  after_places : (x : ℕ) → count x s.core.queue + total (in_chain x) n after ≡ linked (after x)
  after_places =
      after_cases (λ x t. count x s.core.queue + total (in_chain x) n after ≡ linked t)
        (omega (arith, after_sum i, teller_unlinked))
        (omega (
          arith,
          rw (==_refl j) at (after_sum j),
          linked-le (s.task j),
          linked-told (s.task j) v told_value,
        ))
        (λ x other miss. omega (arith, rw miss at (after_sum x)))

  after_aux : (x : ℕ) → (after x).aux ≡ (s.task x).aux
  after_aux = after_cases (λ x t. t.aux ≡ (s.task x).aux) refl refl (λ x other miss. refl)

  after_pc : (x : ℕ) → ((x ≡ i) × ((after x).pc ≡ waking c v)) ⊎ ((after x).pc ≡ (s.task x).pc)
  after_pc =
      after_cases (λ x t. ((x ≡ i) × (t.pc ≡ waking c v)) ⊎ (t.pc ≡ (s.task x).pc))
        (inl (refl, refl)) (inr refl) (λ x other miss. inr refl)

  lacks_none : (x : ℕ) → v ≡ signaled → has x (j ∷ c) ≡ true → (s.task x).aux ≡ 0
  lacks_none x success m = inv.served i x lt (rw here success) (rw here m)

  after_served :
      (k x : ℕ)
      → k < n
      → chain_value (after k).pc ≡ signaled
      → has x (chain (after k).pc) ≡ true
      → (after x).aux ≡ 0
  after_served k x p success m = after_aux x ∙ elim (after_pc k) [
    | inl (self, e) ↦
        let mine : has x c ≡ true = rw e at m in lacks_none x (rw e at success) (ground arith)
    | inr e ↦ inv.served k x p (rw e at success) (rw e at m)
  ]

  after_cleared : (k : ℕ) → k < n → clears (after k).pc ≡ true → s.core.queue ≡ []
  after_cleared k p clearing = elim (after_pc k) [
    | inl (self, e) ↦
        let none_clears : clears (waking c v) ≡ true = rw e at clearing in cc none_clears
    | inr e ↦ inv.cleared k p (rw e at clearing)
  ]

  -- Telling a node takes it from the chain, and its owner is no longer linked.
  pub signal-Inv : Inv n (signal i j c v s)
  unfolding signal
  signal-Inv = rw (signal_after i j c v s apart) (record {
    permits =
        let was : weight (s.task i) ≡ 0 = rw here refl in
        omega (arith, inv.permits, was, after-total weight refl);
    lock =
        let was : locks (s.task i) ≡ 0 = rw here refl in
        omega (arith, inv.lock, was, after-total locks refl);
    places = after_places;
    sound =
        after_cases (λ x t. Sound t.pc t) (tt, told_value)
          (Sound-signaled (s.task j) v told_linked
            (λ success. lacks_none j success (rw (==_refl j) refl)) (inv.sound j))
          (λ x other miss. inv.sound x);
    served = after_served;
    unpublished = inv.unpublished;
    cleared = after_cleared;
    among =
        after_cases (λ x t. 0 < linked t → x < n) (λ l. lt) (λ l. told_among)
          (λ x other miss l. inv.among x l);
    bounded = inv.bounded;
  })
