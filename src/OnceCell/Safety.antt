-- ===== src/OnceCell/Safety.antt =====
-- src/once_cell.rs: what holds of the cell in every state that callers reach.
use xutex.Prelude.{
  ℕ, zero, suc, ◌≤◌, ◌<◌, ◌≡◌, ◌⊎◌, Bool, true, false, Bool-cases, inl, inr, refl, Option, none,
  some, List, [], ◌∷◌, ◌==◌, if◌then◌else◌, arith, has, count, count-pos_of_has, total,
  total-eq-zero, weight-le-total, two-le-total, ==_refl,
}
use xutex.OnceCell.State.{
  Stage, empty, running, ready, asleep, idle, setting, writing, reading, nothing, got,
  already_initialized, already_running, OnceCaller, Cell,
}
use xutex.OnceCell.Steps.{
  OnceSystem, OnceEvent, once_runs, read_value, begin_set, once_alone, once_from, once_step,
  once_steps, new_once, OnceActors, take_value,
}
use xutex.OnceCell.Invariant.{
  Inv, roles, role_count, is_running, in_chain, linked, full, waits, needs_ready,
}
use xutex.OnceCell.Reach.{new_once-Inv, once_steps-Inv, once_steps-keeps}

absent : (j : ℕ) (js : List ℕ) → count j js ≡ 0 → has j js ≡ false
absent j js zero_times = elim (Bool-cases (has j js)) [
  | inl there ↦ absurd (omega (arith, count-pos_of_has j js there))
  | inr away ↦ away
]

slot_of_full : (slot : Option ℕ) → full slot ≡ true → (x : ℕ) × (slot ≡ some x)
slot_of_full none f = cc
slot_of_full (some x) f = (x, refl)

idle_roles : (c : OnceCaller) → c.place ≡ idle → roles c ≡ 0
idle_roles c at = ground arith

idle_linked : (j : ℕ) (c : OnceCaller) → c.place ≡ idle → linked c ≡ 0
idle_linked j c at = ground arith

idle_in_chain : (j : ℕ) (c : OnceCaller) → c.place ≡ idle → in_chain j c ≡ 0
idle_in_chain j c at = ground arith

nil_of_count : (js : List ℕ) → ((j : ℕ) → count j js ≡ 0) → js ≡ []
nil_of_count [] none_there = refl
nil_of_count (j ∷ js) none_there = absurd (ground (arith, none_there j, ==_refl j))

zero_of_implied : (k : ℕ) {P : Type 0} → (0 < k → P) → (P → k ≡ 0) → k ≡ 0
zero_of_implied zero p q = refl
zero_of_implied (suc k) p q = q (p (omega arith))

idle_unlinked :
    (n : ℕ) (s : OnceSystem)
    → Inv n s
    → ((i : ℕ) → i < n → (s.caller i).place ≡ idle)
    → s.cell.queue ≡ []
idle_unlinked n s inv rests = nil_of_count s.cell.queue λ j.
    let unlinked =
      zero_of_implied (linked (s.caller j)) (inv.among j)
        λ p. idle_linked j (s.caller j) (rests j p) in
    omega (arith, inv.places j, unlinked)

takes_of_stage :
    (stage : Stage) (cell : Cell)
    → cell.stage ≡ stage
    → is_running stage ≡ 0
    → (stage ≡ ready → full cell.slot ≡ true)
    → cell.queue ≡ []
    → (((cell.stage ≡ empty) × ((take_value cell).0 ≡ none))
        ⊎ ((x : ℕ) × (cell.stage ≡ ready) × (cell.slot ≡ some x) × ((take_value cell).0 ≡ some x)))
      × ((take_value cell).1.stage ≡ empty)
      × ((take_value cell).1.queue ≡ [])
      × ((take_value (take_value cell).1).0 ≡ none)
unfolding take_value
takes_of_stage empty cell at stopped filled free = rw at (inl (refl, refl), refl, free, refl)
takes_of_stage running cell at stopped filled free = absurd (omega (arith, stopped))
takes_of_stage ready cell at stopped filled free =
    let (x, e) = slot_of_full cell.slot (filled refl) in
    rw at (inr (x, refl, e, e), refl, free, refl)

takes_lem :
    (cell : Cell)
    → is_running cell.stage ≡ 0
    → (cell.stage ≡ ready → full cell.slot ≡ true)
    → cell.queue ≡ []
    → (((cell.stage ≡ empty) × ((take_value cell).0 ≡ none))
        ⊎ ((x : ℕ) × (cell.stage ≡ ready) × (cell.slot ≡ some x) × ((take_value cell).0 ≡ some x)))
      × ((take_value cell).1.stage ≡ empty)
      × ((take_value cell).1.queue ≡ [])
      × ((take_value (take_value cell).1).0 ≡ none)
unfolding take_value
takes_lem cell stopped filled free = takes_of_stage cell.stage cell refl stopped filled free

abbrev pub once_reach : Option ℕ → List OnceEvent → OnceSystem
once_reach value es = once_steps es (new_once value)

module _ (n : ℕ) (value : Option ℕ) (es : List OnceEvent) (a : OnceActors n es) where
  inv : Inv n (once_reach value es)
  inv = once_steps-Inv es (new_once value) (new_once-Inv n value) a

  is_running-le : (s : Stage) → is_running s ≤ 1
  is_running-le s = ground arith

  -- In every state that `n` callers reach from a new cell, with a value or without, however their
  -- steps interleave: two callers that have the initializer's role are the same one, and the state is
  -- RUNNING then.
  pub once-excludes :
      (i j : ℕ)
      → i < n
      → j < n
      → role_count ((once_reach value es).caller i).place ≡ 1
      → role_count ((once_reach value es).caller j).place ≡ 1
      → (i ≡ j) × (is_running (once_reach value es).cell.stage ≡ 1)
  once-excludes i j p q role role' =
      let s = once_reach value es in
      let most = is_running-le s.cell.stage in
      let started : is_running s.cell.stage ≡ 1 =
        omega (arith, inv.role, role, most, weight-le-total roles n s.caller i p) in
      elim (Bool-cases (j == i)) [
        | inl same ↦ (ground arith, started)
        | inr apart ↦ absurd (
            omega (
              arith,
              inv.role,
              role,
              role',
              most,
              two-le-total roles n s.caller i j
                  (record { place = idle; wake = asleep; returns = true; answer = nothing }) refl p
                  q apart,
            ))
      ]

  -- In every state that `n` callers reach from a new cell, a caller about to return a reference to the
  -- value finds the cell READY and the value written, and returns it with its next step.
  pub once-reads :
      (w : Bool) (i : ℕ)
      → ((once_reach value es).caller i).place ≡ reading
      → (x : ℕ) × ((once_reach value es).cell.stage ≡ ready)
        × ((once_reach value es).cell.slot ≡ some x)
        × (((once_step (once_runs w i) (once_reach value es)).caller i).answer ≡ got (some x))
  unfolding once_step once_from once_alone read_value
  once-reads w i at =
      let s = once_reach value es in
      let is_ready : s.cell.stage ≡ ready = (inv.sound i).sees_ready (rw (needs_ready, at) refl) in
      let (x, written) = slot_of_full s.cell.slot (inv.filled is_ready) in
      (x, is_ready, written, rw (at, ==_refl i, written) refl)

  -- If `n` callers have reached a state from a new cell in which it is READY, then whatever they do
  -- next, it stays READY and keeps its value.
  pub once-keeps :
      (later : List OnceEvent)
      → OnceActors n later
      → (once_reach value es).cell.stage ≡ ready
      → ((once_steps later (once_reach value es)).cell.stage ≡ ready)
        × ((once_steps later (once_reach value es)).cell.slot ≡ (once_reach value es).cell.slot)
  once-keeps later a' e = once_steps-keeps later (once_reach value es) inv a' e

  -- In every state that `n` callers reach from a new cell, the node of a caller that has not been
  -- queued, or whose wait has ended, is neither in the queue nor about to be signaled.
  pub once-unlinks :
      (j k : ℕ)
      → k < n
      → waits ((once_reach value es).caller j).place ≡ false
      → (has j (once_reach value es).cell.queue ≡ false)
        × (in_chain j ((once_reach value es).caller k) ≡ 0)
  once-unlinks j k p done =
      let s = once_reach value es in
      let unlinked : linked (s.caller j) ≡ 0 = rw (linked, done) refl in
      let counted = weight-le-total (in_chain j) n s.caller k p in
      (absent j s.cell.queue (omega (arith, inv.places j)), omega (arith, inv.places j, counted))

  -- In every state that `n` callers reach from a new cell, a caller about to `set` a value gets to
  -- write it if nobody has the initializer's role and there is no value; it fails with
  -- InitializingError if somebody has the role, else with AlreadyInitializedError, and the cell stays
  -- as it was then.
  pub once-sets :
      (w : Bool) (i x : ℕ)
      → ((once_reach value es).caller i).place ≡ setting x
      → ((once_reach value es).caller i).answer ≡ nothing
      → (((once_step (once_runs w i) (once_reach value es)).caller i).answer ≡ (
          if total roles n (once_reach value es).caller == 1
          then already_running
          else elim (once_reach value es).cell.stage [ ready ↦ already_initialized | _ ↦ nothing ]))
        × (((once_step (once_runs w i) (once_reach value es)).caller i).place ≡ (
            if total roles n (once_reach value es).caller == 1
            then idle
            else elim (once_reach value es).cell.stage [ ready ↦ idle | _ ↦ writing x ]))
        × ((once_step (once_runs w i) (once_reach value es)).cell ≡ (
            if total roles n (once_reach value es).caller == 1
            then (once_reach value es).cell
            else elim (once_reach value es).cell.stage [
              | ready ↦ (once_reach value es).cell
              | _ ↦ record (once_reach value es).cell { stage = running }
            ]))
  unfolding once_step once_from once_alone begin_set
  once-sets w i x at fresh =
      (ground (arith, inv.role), ground (arith, inv.role), ground (arith, inv.role))

  -- If `n` callers have reached a state from a new cell in which each of them is idle, then `take`
  -- gives the cell's value if it is READY and none if it is EMPTY, it cannot be RUNNING, and leaves
  -- the cell EMPTY with no waiter, so that a second `take` gives none.
  pub once-takes :
      ((i : ℕ) → i < n → ((once_reach value es).caller i).place ≡ idle)
      → ((((once_reach value es).cell.stage ≡ empty)
            × ((take_value (once_reach value es).cell).0 ≡ none))
          ⊎ ((x : ℕ) × ((once_reach value es).cell.stage ≡ ready)
              × ((once_reach value es).cell.slot ≡ some x)
              × ((take_value (once_reach value es).cell).0 ≡ some x)))
        × ((take_value (once_reach value es).cell).1.stage ≡ empty)
        × ((take_value (once_reach value es).cell).1.queue ≡ [])
        × ((take_value (take_value (once_reach value es).cell).1).0 ≡ none)
  unfolding take_value
  once-takes rests =
      let s = once_reach value es in
      let unlinked = idle_unlinked n s inv rests in
      let no_role = total-eq-zero roles n s.caller λ k p. idle_roles (s.caller k) (rests k p) in
      takes_lem s.cell (omega (arith, inv.role, no_role)) inv.filled unlinked
