-- ===== src/Mutex/Release.antt =====
-- src/lib.rs: the drop of a guard, step by step, by a caller that nobody disturbs, with the step in
-- which the owner of the queue's oldest node gets its guard.
use xutex.Prelude.{ℕ, ◌≡◌, true, false, ◌∙◌, List, [], ◌∷◌, ◌==◌, arith, ==_refl}
use xutex.Mutex.Steps.{
  Word, published, tagged, Place, parked, holding, dropping, retagging, popping, handing, Mutex,
  begin_call, drops_guard, drop_guard, retag, tag_queue, pop_waiter, hand_over, await_handoff,
  act_alone, act_from, Action, calls, takes_step, act, acts,
}

-- Caller `i` drops its guard and unlocks, then caller `k` looks at its node.
abbrev pub releases : ℕ → ℕ → List Action
releases i k =
    calls i drops_guard
    ∷ takes_step false i
    ∷ takes_step false i
    ∷ takes_step false i
    ∷ takes_step false i
    ∷ takes_step false k
    ∷ []

-- Caller `i` is at a place, the word and the queue are known, and caller `k` waits.
abbrev pub Serving : ℕ → ℕ → Place → Word → List ℕ → Mutex → Type 0
Serving i k p w q s =
    ((s.caller i).place ≡ p)
    × (s.word ≡ w)
    × (s.queue ≡ q)
    × ((s.caller k).place ≡ parked)
    × ((k == i) ≡ false)

module _ (i k : ℕ) (js : List ℕ) (s : Mutex) where
  begins_drop :
      Serving i k holding published (k ∷ js) s
      → Serving i k dropping published (k ∷ js) (act (calls i drops_guard) s)
  unfolding act begin_call
  begins_drop (at, w, q, waiting, apart) = ground (arith, ==_refl i)

  misses_fast_path :
      Serving i k dropping published (k ∷ js) s
      → Serving i k (retagging published) published (k ∷ js) (act (takes_step false i) s)
  unfolding act act_from act_alone drop_guard
  misses_fast_path (at, w, q, waiting, apart) = ground (arith, ==_refl i)

  gets_queue :
      Serving i k (retagging published) published (k ∷ js) s
      → Serving i k popping tagged (k ∷ js) (act (takes_step false i) s)
  unfolding act act_from act_alone retag tag_queue
  gets_queue (at, w, q, waiting, apart) = ground (arith, ==_refl i)

  pops_oldest :
      Serving i k popping tagged (k ∷ js) s
      → Serving i k (handing k) published js (act (takes_step false i) s)
  unfolding act act_from act_alone pop_waiter
  pops_oldest (at, w, q, waiting, apart) = ground (arith, ==_refl i)

  signals_oldest :
      Serving i k (handing k) published js s
      → let next = act (takes_step false i) s in
        ((next.caller k).place ≡ parked) × ((next.caller k).handed ≡ true) × (next.queue ≡ js)
  unfolding act act_from hand_over
  signals_oldest (at, w, q, waiting, apart) =
      rw (at, act_from, hand_over) (ground (arith, apart, ==_refl k))

  gets_guard :
      (s.caller k).place ≡ parked
      → (s.caller k).handed ≡ true
      → let next = act (takes_step false k) s in
        ((next.caller k).place ≡ holding) × (next.queue ≡ s.queue)
  unfolding act act_from act_alone await_handoff
  gets_guard waiting signaled = ground (arith, ==_refl k)

pub release_serves :
    (i k : ℕ) (js : List ℕ) (s : Mutex)
    → Serving i k holding published (k ∷ js) s
    → (((acts (releases i k) s).caller k).place ≡ holding) × ((acts (releases i k) s).queue ≡ js)
unfolding acts
release_serves i k js s h =
    let (waiting, signaled, rest) = signals_oldest i k js _ (
      pops_oldest i k js _
        (gets_queue i k js _ (misses_fast_path i k js _ (begins_drop i k js _ h)))) in
    let (owner, kept) = gets_guard i k js _ waiting signaled in (owner, kept ∙ rest)
