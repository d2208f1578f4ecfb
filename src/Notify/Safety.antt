-- ===== src/Notify/Safety.antt =====
-- src/notify.rs: what holds of the core in every state that callers reach.
use xutex.Prelude.{
  ℕ, ◌^◌, ◌<◌, ◌≡◌, ◌⊎◌, true, false, Bool-cases, inl, inr, refl, List, [], arith, length, count,
  has, count-pos_of_has, total-eq-zero, weight-le-total,
}
use xutex.Notify.Steps.{
  NotifySystem, NotifyCaller, NotifyEvent, idle, created, parked, asleep, notify_steps, new_notify,
  NotifyActors,
}
use xutex.Notify.Invariant.{Inv, KnownAt, bumpers, in_chain, linked, waits}
use xutex.Notify.Reach.{new_notify-Inv, notify_steps-Inv}

-- A caller that has nothing to do: it makes no call, has a future that it has not polled, or waits and
-- has not been signaled.
abbrev pub Settled : NotifyCaller → Type 0
Settled c =
    (c.place ≡ idle)
    ⊎ (((g : ℕ) × (c.place ≡ created g)) ⊎ ((g : ℕ) × (c.place ≡ parked g) × (c.told ≡ asleep)))

Settled-bumpers : (c : NotifyCaller) → Settled c → bumpers c ≡ 0
Settled-bumpers c (inl at) = rw (bumpers, at) refl
Settled-bumpers c (inr (inl (g, at))) = rw (bumpers, at) refl
Settled-bumpers c (inr (inr (g, at, live))) = rw (bumpers, at) refl

Settled-in_chain : (j : ℕ) (c : NotifyCaller) → Settled c → in_chain j c ≡ 0
Settled-in_chain j c (inl at) = rw (in_chain, at) refl
Settled-in_chain j c (inr (inl (g, at))) = rw (in_chain, at) refl
Settled-in_chain j c (inr (inr (g, at, live))) = rw (in_chain, at) refl

abbrev pub notify_reach : List NotifyEvent → NotifySystem
notify_reach es = notify_steps es new_notify

module _ (n : ℕ) (es : List NotifyEvent) (small : length es < 2 ^ 61) (a : NotifyActors n es) where
  inv : Inv n (notify_reach es)
  inv = notify_steps-Inv es new_notify (new_notify-Inv n) (omega (arith, small)) a

  -- If `n` callers have reached a state, by fewer than 2 ^ 61 events, in which each of them is idle,
  -- has a future that it has not polled, or waits unsignaled, then for a caller that waits no
  -- `notify_waiters` has changed the generation since its wait captured it, no permit is stored,
  -- HAS_QUEUE is set, and its node is queued once.
  pub notify-wakes :
      ((i : ℕ) → i < n → Settled ((notify_reach es).caller i))
      → (j g : ℕ) → ((notify_reach es).caller j).place ≡ parked g
      → ((notify_reach es).caller j).told ≡ asleep
      → (g ≡ (notify_reach es).core.word.gen)
        × ((notify_reach es).core.word.permit ≡ false)
        × ((notify_reach es).core.word.has_queue ≡ true)
        × (count j (notify_reach es).core.queue ≡ 1)
  notify-wakes settled j g at sleeping =
      let s = notify_reach es in
      let one : linked (s.caller j) ≡ 1 = rw (linked, at, sleeping) refl in
      let free =
        total-eq-zero (in_chain j) n s.caller
          λ k p. Settled-in_chain j (s.caller k) (settled k p) in
      let no_bumper =
        total-eq-zero bumpers n s.caller λ k p. Settled-bumpers (s.caller k) (settled k p) in
      let queued : count j s.core.queue ≡ 1 = omega (arith, inv.places j, one, free) in
      let known : KnownAt (s.caller j).aux (s.caller j).place = (inv.known j).at in
      let stored : (s.caller j).aux ≡ g = rw at at known in
      let fresh : g ≡ s.core.word.gen = elim (inv.attended j (omega (arith, queued))) [
        | inl e ↦ omega (arith, e, stored)
        | inr stale ↦ absurd (omega (arith, stale, no_bumper))
      ] in
      elim inv.announced.flagged [
        | inl none_queued ↦
            let h : count j [] ≡ 1 = rw none_queued at queued in absurd (omega (arith, h))
        | inr announced ↦ (fresh, announced.1, announced.0, queued)
      ]

  -- In every state that `n` callers reach by fewer than 2 ^ 61 events, the node of a caller that has
  -- not been queued, or whose wait has ended, is neither in the queue nor about to be signaled.
  pub notify-unlinks :
      (j k : ℕ)
      → k < n
      → waits ((notify_reach es).caller j).place ≡ false
      → (has j (notify_reach es).core.queue ≡ false) × (in_chain j ((notify_reach es).caller k) ≡ 0)
  notify-unlinks j k p done =
      let s = notify_reach es in
      let unlinked : linked (s.caller j) ≡ 0 = rw (linked, done) refl in
      let counted = weight-le-total (in_chain j) n s.caller k p in
      (
        elim (Bool-cases (has j s.core.queue)) [
          | inl there ↦
              absurd (omega (arith, count-pos_of_has j s.core.queue there, inv.places j, unlinked))
          | inr away ↦ away
        ],
        omega (arith, inv.places j, counted),
      )
