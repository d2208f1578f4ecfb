-- ===== src/Semaphore/Invariant/Assign.antt =====
-- src/semaphore.rs, `drain`: its loop over the queue keeps the invariant.
use xutex.Prelude.{
  two-le-total, ℕ, ◌+◌, ◌<◌, ◌≤◌, ◌≡◌, true, false, refl, sym, ap, ◌∙◌, inl, inr, some, [], ◌==◌,
  arith, Bool-cases, has, count, total, total-update, total-cong, weight-le-total, update,
  count-pos_of_has,
}
use xutex.Semaphore.State.{Task, signaled, assigning, held, Tag, new_task}
use xutex.Semaphore.System.{System, Served, serve, assign}
use xutex.Semaphore.Invariant.Defs.{
  Inv, weight, locks, in_chain, linked, chain, chain_value, clears, request, lock_count, held_count,
  Sound,
}
use xutex.Semaphore.Invariant.Local.{lock_of_clears, held_count-le}
use xutex.Semaphore.Invariant.Serve.{Serves, Waiter, serve-Serves}

-- A linked node has a request, which it cannot exceed, and is not signaled.
Sound-linked :
    (t : Task) → Sound t.pc t → 0 < linked t → (m : ℕ) × (request t.pc ≡ some m) × (t.aux ≤ m)
Sound-linked t s l = ground arith

module _ {n : ℕ} {s : System} (inv : Inv n s) where
  pub Waiter-of_queued : (j : ℕ) → has j s.core.queue ≡ true → Waiter n s.task j
  Waiter-of_queued j h =
      let live : 0 < linked (s.task j) =
        omega (arith, inv.places j, count-pos_of_has j s.core.queue h) in
      (inv.among j live, Sound-linked (s.task j) (inv.sound j) live)

-- Fewer permits to wait for is sound for a caller whose node is linked.
Sound-falls :
    (t u : Task)
    → u.pc ≡ t.pc
    → u.value ≡ t.value
    → u.aux ≤ t.aux
    → 0 < linked t
    → Sound t.pc t
    → Sound u.pc u
Sound-falls t u e v le l s = rw e (ground arith)

Sound-same :
    (t u : Task) → u.pc ≡ t.pc → u.value ≡ t.value → u.aux ≡ t.aux → Sound t.pc t → Sound u.pc u
Sound-same t u e v a s = rw e (ground arith)

linked-same : (t u : Task) → u.pc ≡ t.pc → u.value ≡ t.value → linked u ≡ linked t
linked-same t u e v = ground arith

weight_of_assigning : (t : Task) (a : ℕ) → t.pc ≡ assigning a → weight t ≡ a
weight_of_assigning t a e = ground arith

-- What the caller that ran the loop becomes.
record Handed (i : ℕ) (r : Served) (t : Task) : Type 0 where
  weight : weight t ≡ r.left
  locks : locks t ≡ 1
  chain : chain t.pc ≡ r.chain
  linked : linked t ≡ 0
  sound : Sound t.pc t
  clears : clears t.pc ≡ false
  aux : t.aux ≡ (r.task i).aux

module _ {n : ℕ} {s : System} (inv : Inv n s) (i : ℕ) (lt : i < n) (a : ℕ)
    (here : (s.task i).pc ≡ assigning a) where
  alone : (k : ℕ) → k < n → clears (s.task k).pc ≡ true → (k == i) ≡ true
  alone k p c = elim (Bool-cases (k == i)) [
    | inl same ↦ same
    | inr apart ↦
        let mine : locks (s.task i) ≡ 1 = rw here refl in
        absurd (
          omega (
            arith,
            inv.lock,
            mine,
            held_count-le s.core.tag,
            lock_of_clears (s.task k).pc c,
            two-le-total locks n s.task i k new_task refl lt p apart,
          ))
  ]

  tag_held : s.core.tag ≡ held
  tag_held =
      let mine : locks (s.task i) ≡ 1 = rw here refl in
      held_of_count s.core.tag (omega (arith, inv.lock, mine, weight-le-total locks n s.task i lt))
    where
      held_of_count : (t : Tag) → 0 < held_count t → t ≡ held
      held_of_count t h = ground arith

  module _ {r : Served} (loop : Serves n a s.core.queue s.task r) {t : Task}
      (h : Handed i r t) where
    assigned_permits : s.core.pool.permits + total weight n (update r.task i t) ≡ s.supply
    assigned_permits =
        let before : weight (r.task i) ≡ a = weight_of_assigning (r.task i) a (loop.pc i ∙ here) in
        omega
          (arith, inv.permits, loop.spent, total-update weight n r.task i t lt, h.weight, before)

    assigned_lock : total locks n (update r.task i t) ≡ held_count s.core.tag
    assigned_lock =
        let before : locks (r.task i) ≡ 1 = rw (loop.pc i ∙ here) refl in
        omega (
          arith,
          inv.lock,
          total-update locks n r.task i t lt,
          h.locks,
          before,
          total-cong locks n s.task r.task (λ j. ap lock_count (loop.pc j)),
        )

    assigned_places :
        (j : ℕ)
        → count j r.queue + total (in_chain j) n (update r.task i t) ≡ linked (update r.task i t j)
    assigned_places j =
        let before : in_chain j (r.task i) ≡ 0 = rw (loop.pc i ∙ here) refl in
        let now : in_chain j t ≡ count j r.chain = ap (count j) h.chain in
        let unlinked : linked (s.task i) ≡ 0 = rw here refl in
        let sum : count j r.queue + total (in_chain j) n (update r.task i t) ≡ linked (s.task j) =
          omega (
            arith,
            inv.places j,
            loop.places j,
            before,
            now,
            total-update (in_chain j) n r.task i t lt,
            total-cong (in_chain j) n s.task r.task (λ k. ap (λ p. count j (chain p)) (loop.pc k)),
          ) in
        elim (Bool-cases (j == i)) [
          | inl same ↦ let e : j ≡ i = ground arith in rw same (sum ∙ rw e unlinked ∙ sym h.linked)
          | inr apart ↦
              rw apart (sum ∙ sym (linked-same (s.task j) (r.task j) (loop.pc j) (loop.value j)))
        ]

    assigned-Sound : (j : ℕ) → Sound (update r.task i t j).pc (update r.task i t j)
    assigned-Sound j = elim (Bool-cases (j == i)) [
      | inl same ↦ rw same h.sound
      | inr apart ↦ rw apart (elim (Bool-cases (has j s.core.queue)) [
        | inl queued ↦
            Sound-falls (s.task j) (r.task j) (loop.pc j) (loop.value j) (loop.falls j)
              (omega (arith, inv.places j, count-pos_of_has j s.core.queue queued)) (inv.sound j)
        | inr other ↦
            Sound-same (s.task j) (r.task j) (loop.pc j) (loop.value j) (loop.spared j other)
              (inv.sound j)
      ])
    ]

    assigned_zero : (j : ℕ) → (r.task j).aux ≡ 0 → (update r.task i t j).aux ≡ 0
    assigned_zero j z = elim (Bool-cases (j == i)) [
      | inl same ↦ let e : j ≡ i = ground arith in rw same (h.aux ∙ (rw e at z))
      | inr apart ↦ rw apart z
    ]

    assigned_served :
        (k j : ℕ)
        → k < n
        → chain_value (update r.task i t k).pc ≡ signaled
        → has j (chain (update r.task i t k).pc) ≡ true
        → (update r.task i t j).aux ≡ 0
    assigned_served k j p v m = elim (Bool-cases (k == i)) [
      | inl mine ↦ assigned_zero j (loop.served j (rw (← h.chain) (rw mine at m)))
      | inr other ↦
          let v' : chain_value (s.task k).pc ≡ signaled = rw (loop.pc k) at (rw other at v) in
          let m' : has j (chain (s.task k).pc) ≡ true = rw (loop.pc k) at (rw other at m) in
          assigned_zero j (omega (arith, loop.falls j, inv.served k j p v' m'))
    ]

    assigned_cleared : (k : ℕ) → k < n → clears (update r.task i t k).pc ≡ true → r.queue ≡ []
    assigned_cleared k p c = elim (Bool-cases (k == i)) [
      | inl mine ↦ cc (h.clears, rw mine at c)
      | inr other ↦
          let c' : clears (s.task k).pc ≡ true = rw (loop.pc k) at (rw other at c) in
          cc (alone k p c', other)
    ]

    assigned-Inv :
        Inv n (record s { core = record s.core { queue = r.queue }; task = update r.task i t })
    assigned-Inv = record {
      permits = assigned_permits;
      lock = assigned_lock;
      places = assigned_places;
      sound = assigned-Sound;
      served = assigned_served;
      unpublished = λ e. cc (tag_held);
      cleared = assigned_cleared;
      among = λ j l. elim (Bool-cases (j == i)) [
        | inl same ↦ ground (arith, lt)
        | inr apart ↦
            inv.among j
              (rw (linked-same (s.task j) (r.task j) (loop.pc j) (loop.value j)) at (rw apart at l))
      ];
      bounded = inv.bounded;
    }

  pub assign-Inv : Inv n (assign i a s)
  unfolding assign
  assign-Inv =
      let r = serve a s.core.queue s.task in
      let loop : Serves n a s.core.queue s.task r =
        serve-Serves n a s.core.queue s.task (Waiter-of_queued inv) in
      assigned-Inv loop (record {
        weight = ground arith;
        locks = ground arith;
        chain = ground arith;
        linked = ground arith;
        sound = ground arith;
        clears = ground arith;
        aux = refl;
      })
