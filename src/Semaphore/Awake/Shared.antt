-- ===== src/Semaphore/Awake/Shared.antt =====
-- src/semaphore.rs: the two steps that touch other callers' nodes leave no waiter asleep.
use xutex.Prelude.{
  ℕ, ◌<◌, ◌≡◌, ◌⊎◌, inl, inr, ◌∙◌, false, refl, List, [], ◌∷◌, ◌==◌, arith, Bool-cases, subst,
  update, ltb, if◌then◌else◌,
}
use xutex.Semaphore.State.{
  SemCore, Signal, signaled, wakes, Pc, Task, waking, assigning, returning, unlocking,
}
use xutex.Semaphore.System.{System, Served, serve, assign, signal}
use xutex.Semaphore.Order.{Stops, serve-Stops}
use xutex.Semaphore.Invariant.Defs.{Inv, lock_count}
use xutex.Semaphore.Invariant.Serve.{Serves, serve-Serves}
use xutex.Semaphore.Invariant.Assign.{Waiter-of_queued}
use xutex.Semaphore.Invariant.Signal.{after, after_cases, apart, signal_after}
use xutex.Semaphore.Awake.Defs.{
  drain_count, close_count, Busy, busy, Moves, Watch, Calm, Awake, need,
}
use xutex.Semaphore.Awake.Local.{Alike, busy-cong, need-kept, others_lock, Watch-Kept, Moves-update}

need_of_Stops : (r : Served) (q : List ℕ) → Stops r q → (q ≡ []) ⊎ (0 < need q r.task)
need_of_Stops r [] stops = inl refl
need_of_Stops r (j ∷ js) stops = inr stops.1

serve-nil : (a : ℕ) (q : List ℕ) (f : ℕ → Task) → q ≡ [] → (serve a q f).queue ≡ []
unfolding serve
serve-nil a q f e = rw e refl

Alike-refl : (p q : Pc) → p ≡ q → Alike p q
Alike-refl p q e = rw e (refl, refl, refl)

-- The core after the loop over the queue, if the caller had taken all permits before.
assigned-Calm :
    (d d' : Busy) (m : SemCore) (a h h' : ℕ) (q : List ℕ) (p : Pc)
    → Calm d m h
    → Watch d m (assigning a)
    → Moves d d' (assigning a) p
    → (drain_count p ≡ 0) × (close_count p ≡ 0)
    → (m.queue ≡ [] → q ≡ [])
    → (q ≡ []) ⊎ (0 < h')
    → Calm d' (record m { queue = q }) h'
assigned-Calm d d' m a h h' q p calm watch moves still nil stops =
    ground (arith, calm.flagged, calm.open_queue)

module _ {n : ℕ} {s : System} (inv : Inv n s) (aw : Awake n s) (i : ℕ) (lt : i < n) where
  module _ (j : ℕ) (c : List ℕ) (v : Signal) (here : (s.task i).pc ≡ waking (j ∷ c) v) where
    abbrev later : ℕ → Task
    later = after inv i lt j c v here

    later-Alike : (x : ℕ) → Alike (later x).pc (s.task x).pc
    later-Alike =
        after_cases inv i lt j c v here (λ x t. Alike t.pc (s.task x).pc)
          (rw here (refl, refl, refl)) (refl, refl, refl) (λ x other miss. (refl, refl, refl))

    later_aux : (x : ℕ) → (later x).aux ≡ (s.task x).aux
    later_aux =
        after_cases inv i lt j c v here (λ x t. t.aux ≡ (s.task x).aux) refl refl
          λ x other miss. refl

    later-Watch :
        (d : Busy) (m : SemCore) (x : ℕ) → Watch d m (s.task x).pc → Watch d m (later x).pc
    later-Watch d m =
        after_cases inv i lt j c v here (λ x t. Watch d m (s.task x).pc → Watch d m t.pc) (λ w. tt)
          (λ w. w) (λ x other miss w. w)

    later-Awake : Awake n (record s { task = later })
    later-Awake = record {
      calm =
          rw (busy-cong n s.task later later-Alike)
            (rw (need-kept s.core.queue s.task later (λ x mem. later_aux x)) aw.calm);
      watch = λ x p.
          rw (busy-cong n s.task later later-Alike)
            (later-Watch (busy n s.task) s.core x (aw.watch x p));
    }

    pub signal-Awake : Awake n (signal i j c v s)
    signal-Awake = rw (signal_after i j c v s (apart inv i lt j c v here)) later-Awake

  module _ (a : ℕ) (here : (s.task i).pc ≡ assigning a) where
    abbrev loop_end : Served
    loop_end = serve a s.core.queue s.task

    abbrev next_pc : Pc
    next_pc =
        if ltb 0 loop_end.left
        then returning loop_end.left loop_end.chain
        else unlocking (wakes loop_end.chain signaled)

    abbrev handed : Task
    handed = record (loop_end.task i) { pc = next_pc }

    abbrev after_busy : Busy
    after_busy = busy n (update loop_end.task i handed)

    abbrev after_core : SemCore
    after_core = record s.core { queue = loop_end.queue }

    loop : Serves n a s.core.queue s.task loop_end
    loop = serve-Serves n a s.core.queue s.task (Waiter-of_queued inv)

    handed-Moves :
        Moves (busy n s.task) (busy n (update loop_end.task i handed)) (assigning a) next_pc
    handed-Moves =
        subst (λ d. Moves d (busy n (update loop_end.task i handed)) (assigning a) next_pc)
          (busy-cong n s.task loop_end.task (λ x. Alike-refl _ _ (loop.pc x)))
          (rw (loop.pc i ∙ here) at (Moves-update n loop_end.task i handed lt))

    owns_nothing : (k : ℕ) → k < n → (k == i) ≡ false → lock_count (s.task k).pc ≡ 1 → 1 < 1
    owns_nothing k p other owns =
        let free : lock_count (assigning a) ≡ 0 =
          rw here at (others_lock inv i k lt p other owns).0 in
        omega (arith, free)

    handed-need :
        need loop_end.queue (update loop_end.task i handed) ≡ need loop_end.queue loop_end.task
    handed-need = need-kept loop_end.queue loop_end.task _ λ j mem. elim (Bool-cases (j == i)) [
      | inl mine ↦ let same : j ≡ i = ground arith in rw (mine, same) refl
      | inr other ↦ rw other refl
    ]

    handed-Watch : (d : Busy) → Watch d (record s.core { queue = loop_end.queue }) next_pc
    handed-Watch d = elim (Bool-cases (ltb 0 loop_end.left)) [
      | inl left ↦ rw left (loop.emptied (ground arith))
      | inr nothing ↦ rw nothing tt
    ]

    pub assign-Awake : Awake n (assign i a s)
    unfolding assign
    assign-Awake = record {
      calm = rw handed-need (
          assigned-Calm (busy n s.task) _ s.core a _ _ loop_end.queue next_pc aw.calm
            (rw here at (aw.watch i lt)) handed-Moves (ground arith)
            (serve-nil a s.core.queue s.task)
            (need_of_Stops loop_end loop_end.queue (serve-Stops a s.core.queue s.task).1));
      watch = λ k p. elim (Bool-cases (k == i)) [
        | inl mine ↦ rw mine (handed-Watch after_busy)
        | inr other ↦
            rw (other, loop.pc k)
              (Watch-Kept (busy n s.task) after_busy s.core after_core (s.task k).pc aw.calm.flagged
                (λ owns. absurd (omega (arith, owns_nothing k p other owns))) (aw.watch k p))
      ];
    }
