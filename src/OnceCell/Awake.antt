-- ===== src/OnceCell/Awake.antt =====
-- src/once_cell.rs: what becomes of the callers that wait once the cell has come to rest.
use xutex.Prelude.{
  ℕ, ◌<◌, ◌≡◌, ◌⊎◌, Bool, false, Bool-cases, inl, inr, refl, Option, some, List, ◌∷◌, ◌==◌, arith,
  count, has_of_count, head_of_count, total, total-eq-zero, heavy_of_total,
}
use xutex.WaitQueue.Lock.{published}
use xutex.OnceCell.State.{
  running, asleep, published_value, idle, initializing, parked, OnceCaller, Cell,
}
use xutex.OnceCell.Steps.{OnceSystem, OnceEvent, once_steps, new_once, OnceActors}
use xutex.OnceCell.Invariant.{
  Inv, roles, is_running, locks, in_chain, linked, contends, completes, Attended,
}
use xutex.OnceCell.Reach.{new_once-Inv, once_steps-Inv}
use xutex.OnceCell.Failure.{fails_over, failure_serves}
use xutex.OnceCell.Success.{returns_over, return_serves}
use xutex.OnceCell.Safety.{once_reach}

-- A caller that has nothing to do: it makes no call, runs its initializer, or waits for its signal.
abbrev pub Quiet : OnceCaller → Type 0
Quiet c = (c.place ≡ idle) ⊎ ((c.place ≡ initializing) ⊎ ((c.place ≡ parked) × (c.wake ≡ asleep)))

Quiet-counts :
    (j : ℕ) (c : OnceCaller) → Quiet c → (contends c ≡ 0) × (completes c ≡ 0) × (in_chain j c ≡ 0)
Quiet-counts j c quiet = ground arith

initializes_of_Quiet : (c : OnceCaller) → Quiet c → 0 < roles c → c.place ≡ initializing
initializes_of_Quiet c quiet role = ground arith

running_of_Attended :
    (k c : ℕ) (cell : Cell) (j : ℕ)
    → Attended k c cell
    → k ≡ 0
    → c ≡ 0
    → 0 < count j cell.queue
    → is_running cell.stage ≡ 1
running_of_Attended k c cell j a no_contender no_completer queued = ground arith

stage_of_count : (cell : Cell) → is_running cell.stage ≡ 1 → cell.stage ≡ running
stage_of_count cell started = ground arith

unlocked_of_Quiet : (c : OnceCaller) → Quiet c → locks c ≡ 0
unlocked_of_Quiet c quiet = ground arith

parked_of_Quiet : (c : OnceCaller) → Quiet c → 0 < linked c → c.place ≡ parked
parked_of_Quiet c quiet waiting = ground arith

not_same :
    (k i : ℕ) (s : OnceSystem)
    → (s.caller k).place ≡ parked
    → (s.caller i).place ≡ initializing
    → (k == i) ≡ false
not_same k i s waiting role = elim (Bool-cases (k == i)) [
  | inl same ↦ let e : k ≡ i = ground arith in ground (arith, rw e at waiting)
  | inr apart ↦ apart
]

module _ {n : ℕ} (s : OnceSystem) (inv : Inv n s) (k : ℕ) (js : List ℕ) where
  published_of_queued : s.cell.queue ≡ k ∷ js → total locks n s.caller ≡ 0 → s.cell.tag ≡ published
  published_of_queued oldest unlocked = ground (arith, inv.unpublished, inv.lock)

  parked_of_queued :
      ((i : ℕ) → i < n → Quiet (s.caller i)) → s.cell.queue ≡ k ∷ js → (s.caller k).place ≡ parked
  parked_of_queued quiet oldest =
      let queued : 0 < count k s.cell.queue = rw oldest (ground arith) in
      let waiting : 0 < linked (s.caller k) = omega (arith, inv.places k) in
      parked_of_Quiet (s.caller k) (quiet k (inv.among k waiting)) waiting

-- If `n` callers have reached a state from a new cell in which each of them is idle, runs its
-- initializer or waits unsignaled, then a caller `j` that waits is in the queue, once, and some
-- caller `i` runs its initializer. If that fails, and `i` takes five steps and then the owner `k` of
-- the queue's oldest node three, `k` runs its own initializer. If it returns `x` instead, and `i`
-- takes five steps and one for each node in the queue, `j` is signaled that the value is published,
-- and the value is `x`.
pub once-wakes :
    (n : ℕ) (value : Option ℕ) (es : List OnceEvent)
    → OnceActors n es
    → ((i : ℕ) → i < n → Quiet ((once_reach value es).caller i))
    → (w : Bool) (x j : ℕ) → ((once_reach value es).caller j).place ≡ parked
    → ((once_reach value es).caller j).wake ≡ asleep
    → let s = once_reach value es in
      (count j s.cell.queue ≡ 1)
      × ((i : ℕ) × (k : ℕ) × (js : List ℕ) × (i < n)
          × ((s.caller i).place ≡ initializing)
          × (s.cell.queue ≡ k ∷ js)
          × (((once_steps (fails_over w i k) s).caller k).place ≡ initializing)
          × (((once_steps (returns_over w i x s.cell.queue) s).caller j).wake ≡ published_value)
          × ((once_steps (returns_over w i x s.cell.queue) s).cell.slot ≡ some x))
once-wakes n value es a quiet w x j at sleeping =
    let s = once_reach value es in
    let inv = once_steps-Inv es (new_once value) (new_once-Inv n value) a in
    let one : linked (s.caller j) ≡ 1 = rw (linked, at, sleeping) refl in
    let free =
      total-eq-zero (in_chain j) n s.caller λ k p. (Quiet-counts j (s.caller k) (quiet k p)).2 in
    let queued : count j s.cell.queue ≡ 1 = omega (arith, inv.places j, one) in
    let many : 0 < count j s.cell.queue = omega (arith, queued) in
    let started =
      running_of_Attended _ _ s.cell j inv.attended
        (total-eq-zero contends n s.caller λ k p. (Quiet-counts j (s.caller k) (quiet k p)).0)
        (total-eq-zero completes n s.caller λ k p. (Quiet-counts j (s.caller k) (quiet k p)).1)
        many in
    let (i, p, role) = heavy_of_total roles n s.caller (omega (arith, inv.role, started)) in
    let runs = initializes_of_Quiet (s.caller i) (quiet i p) role in
    let (k, js, oldest) = head_of_count j s.cell.queue many in
    let stage = stage_of_count s.cell started in
    let listed =
      published_of_queued s inv k js oldest
        (total-eq-zero locks n s.caller λ k p. unlocked_of_Quiet (s.caller k) (quiet k p)) in
    let waiting = parked_of_queued s inv k js quiet oldest in
    let failed =
      failure_serves w i k js s (runs, stage, listed, oldest)
        (waiting, not_same k i s waiting runs) in
    let (woken, stored) =
      return_serves w i j x s.cell.queue s (runs, stage, listed, refl)
        (has_of_count j s.cell.queue many) in
    (queued, (i, k, js, p, runs, oldest, failed, woken, stored))
