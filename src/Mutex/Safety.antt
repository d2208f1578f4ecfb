-- ===== src/Mutex/Safety.antt =====
-- src/lib.rs: what holds of the mutex in every state that callers reach.
use xutex.Prelude.{
  ℕ, ◌≤◌, ◌<◌, ◌≡◌, ◌⊎◌, Bool, false, Bool-cases, inl, inr, refl, List, [], ◌∷◌, ◌==◌,
  if◌then◌else◌, arith, has, count, count-pos_of_has, total, total-eq-zero, weight-le-total,
  two-le-total, head_of_count, heavy_of_total, ==_refl,
}
use xutex.Mutex.Steps.{
  Word, published, idle, parked, holding, popping, Caller, new_caller, Mutex, new_mutex, try_lock,
  act_alone, begin_call, tries, pop_waiter, hand_over, act_from, Action, calls, takes_step, act,
  acts, Actors,
}
use xutex.Mutex.Invariant.{Inv, owns, tags, waits, in_hand, linked, word_owned}
use xutex.Mutex.Release.{releases, release_serves}
use xutex.Mutex.Handover.{new_mutex-Inv, acts-Inv}

-- A caller that has nothing to do: it makes no call, owns a guard, or waits for its signal.
abbrev pub Still : Caller → Type 0
Still c = (c.place ≡ idle) ⊎ ((c.place ≡ holding) ⊎ ((c.place ≡ parked) × (c.handed ≡ false)))

holds_of_Still : (c : Caller) → Still c → 0 < owns c → c.place ≡ holding
holds_of_Still c still own = ground arith

none_in_hand : (j : ℕ) (c : Caller) → Still c → in_hand j c ≡ 0
none_in_hand j c still = ground arith

absent : (j : ℕ) (js : List ℕ) → count j js ≡ 0 → has j js ≡ false
absent j js zero_times = elim (Bool-cases (has j js)) [
  | inl there ↦ absurd (omega (arith, count-pos_of_has j js there))
  | inr away ↦ away
]

owned_of_queued :
    (s : Mutex) {n : ℕ} → Inv n s → (j : ℕ) → 0 < count j s.queue → word_owned s.word ≡ 1
owned_of_queued s inv j queued = ground (arith, inv.empty)

-- Popping and handing over, from any state where the node popped is that of a waiting caller.
pops_over :
    (w : Bool) (s : Mutex) (i j : ℕ) (js : List ℕ)
    → (s.caller i).place ≡ popping
    → s.queue ≡ j ∷ js
    → (j == i) ≡ false
    → linked (s.caller j) ≡ 1
    → let next = act (takes_step w i) (act (takes_step w i) s) in
      (owns (next.caller j) ≡ 1) × (next.queue ≡ js)
unfolding act act_from act_alone pop_waiter hand_over
pops_over w s i j js at queue apart waiting =
    rw (at, act_from, act_alone, pop_waiter, queue, ==_refl i) (ground arith)

linked-le : (c : Caller) → linked c ≤ 1
linked-le c = ground arith

linked_apart :
    (s : Mutex) (i j : ℕ) → linked (s.caller i) ≡ 0 → linked (s.caller j) ≡ 1 → (j == i) ≡ false
linked_apart s i j free one = elim (Bool-cases (j == i)) [
  | inl same ↦
      let e : j ≡ i = ground arith in
      let both : linked (s.caller i) ≡ 1 = rw e at one in absurd (omega arith)
  | inr apart ↦ apart
]

owned-le : (w : Word) → word_owned w ≤ 1
owned-le w = ground arith

untagged_of_Still : (c : Caller) → Still c → tags c ≡ 0
untagged_of_Still c still = ground arith

not_same :
    (k i : ℕ) (s : Mutex)
    → (s.caller k).place ≡ parked
    → (s.caller i).place ≡ holding
    → (k == i) ≡ false
not_same k i s waiting holder = elim (Bool-cases (k == i)) [
  | inl same ↦ let e : k ≡ i = ground arith in ground (arith, rw e at waiting)
  | inr apart ↦ apart
]

published_of_queued :
    (s : Mutex) {n : ℕ}
    → Inv n s
    → (k : ℕ) (js : List ℕ) → s.queue ≡ k ∷ js
    → total tags n s.caller ≡ 0
    → s.word ≡ published
published_of_queued s inv k js oldest untagged = ground (arith, inv.empty, inv.tag)

parked_of_queued :
    (s : Mutex) {n : ℕ}
    → Inv n s
    → ((i : ℕ) → i < n → Still (s.caller i))
    → (k : ℕ) (js : List ℕ) → s.queue ≡ k ∷ js
    → (s.caller k).place ≡ parked
parked_of_queued s inv still k js oldest =
    let queued : 0 < count k s.queue = rw oldest (ground arith) in
    let waiting : 0 < linked (s.caller k) = omega (arith, inv.places k) in
    parked_of_Still _ (still k (inv.among k waiting)) waiting
  where
    parked_of_Still : (c : Caller) → Still c → 0 < linked c → c.place ≡ parked
    parked_of_Still c still waiting = ground arith

-- A caller that owns the mutex is the only one.
sole_owner :
    {n : ℕ} {s : Mutex}
    → Inv n s
    → (j x : ℕ) → j < n
    → x < n
    → owns (s.caller j) ≡ 1
    → owns (s.caller x) ≡ (if x == j then 1 else 0)
sole_owner {n} {s} inv j x p q owner = elim (Bool-cases (x == j)) [
  | inl same ↦ let e : x ≡ j = ground arith in rw (same, e) owner
  | inr other ↦ rw other (
      omega (
        arith,
        inv.owned,
        owner,
        owned-le s.word,
        two-le-total owns n s.caller j x new_caller refl p q other,
      ))
]

module _ (n : ℕ) (es : List Action) (a : Actors n es) where
  abbrev reached : Mutex
  reached = acts es new_mutex

  inv : Inv n reached
  inv = acts-Inv es new_mutex (new_mutex-Inv n) a

  -- In every state that `n` callers reach from a new mutex, however their steps interleave, two
  -- callers that own the mutex are the same one: each of them has a guard, is unlocking, or was
  -- handed the lock while it waited.
  pub mutex-excludes :
      (i j : ℕ)
      → i < n
      → j < n
      → owns ((acts es new_mutex).caller i) ≡ 1
      → owns ((acts es new_mutex).caller j) ≡ 1
      → i ≡ j
  mutex-excludes i j p q own own' = elim (Bool-cases (j == i)) [
    | inl same ↦ ground arith
    | inr apart ↦ absurd (
        omega (
          arith,
          inv.owned,
          own,
          own',
          owned-le reached.word,
          two-le-total owns n reached.caller i j new_caller refl p q apart,
        ))
  ]

  -- In every state that `n` callers reach from a new mutex, the node of a caller that has not been
  -- queued, or whose wait has ended, is neither in the queue nor about to be signaled.
  pub mutex-unlinks :
      (j k : ℕ)
      → k < n
      → waits ((acts es new_mutex).caller j).place ≡ false
      → (has j (acts es new_mutex).queue ≡ false) × (in_hand j ((acts es new_mutex).caller k) ≡ 0)
  mutex-unlinks j k p done =
      let unlinked : linked (reached.caller j) ≡ 0 = rw (linked, done) refl in
      let counted = weight-le-total (in_hand j) n reached.caller k p in
      (absent j reached.queue (omega (arith, inv.places j)), omega (arith, inv.places j, counted))

  -- If `n` callers have reached, from a new mutex and however their steps interleaved, a state in
  -- which each of them is idle, owns a guard or waits unsignaled, then a caller that waits is in the
  -- queue, once, and some caller `i` owns a guard. If `i` then drops it and takes four steps, and
  -- the owner `k` of the queue's oldest node one, `k` owns a guard, and the queue has lost its node.
  pub mutex-wakes :
      ((i : ℕ) → i < n → Still ((acts es new_mutex).caller i))
      → (j : ℕ) → ((acts es new_mutex).caller j).place ≡ parked
      → ((acts es new_mutex).caller j).handed ≡ false
      → (count j (acts es new_mutex).queue ≡ 1)
        × ((i : ℕ) × (k : ℕ) × (js : List ℕ) × (i < n)
            × (((acts es new_mutex).caller i).place ≡ holding)
            × ((acts es new_mutex).queue ≡ k ∷ js)
            × (((acts (releases i k) (acts es new_mutex)).caller k).place ≡ holding)
            × ((acts (releases i k) (acts es new_mutex)).queue ≡ js))
  mutex-wakes still j at unsignaled =
      let one : linked (reached.caller j) ≡ 1 = rw (linked, at, unsignaled) refl in
      let free = total-eq-zero (in_hand j) n reached.caller λ k p. none_in_hand j _ (still k p) in
      let queued : count j reached.queue ≡ 1 = omega (arith, inv.places j, one) in
      let owned = owned_of_queued reached inv j (omega arith) in
      let (i, p, own) = heavy_of_total owns n reached.caller (omega (arith, inv.owned, owned)) in
      let holder = holds_of_Still _ (still i p) own in
      let (k, js, oldest) = head_of_count j reached.queue (omega (arith, queued)) in
      let untagged = total-eq-zero tags n reached.caller λ k p. untagged_of_Still _ (still k p) in
      let listed = published_of_queued reached inv k js oldest untagged in
      let waiting = parked_of_queued reached inv still k js oldest in
      let apart : (k == i) ≡ false = not_same k i reached waiting holder in
      let (served, rest) = release_serves i k js reached (holder, listed, oldest, waiting, apart) in
      (queued, (i, k, js, p, holder, oldest, served, rest))

  -- In every state that `n` callers reach from a new mutex, the `try_lock` of an idle caller gets a
  -- guard if nobody owns the mutex, and else fails.
  pub mutex-tries :
      (i : ℕ)
      → ((acts es new_mutex).caller i).place ≡ idle
      → ((act (calls i tries) (acts es new_mutex)).caller i).place
        ≡ (if total owns n (acts es new_mutex).caller == 0 then holding else idle)
  unfolding act begin_call try_lock
  mutex-tries i at = ground (arith, inv.owned)

  -- In every state that `n` callers reach from a new mutex, a caller that unlocks and has the queue
  -- to itself pops the queue's oldest node; after its next step that node's owner owns the mutex,
  -- and no other caller does, and the others stay queued in their order.
  pub mutex-hands-over :
      (w : Bool) (i j x : ℕ) (js : List ℕ)
      → i < n
      → x < n
      → ((acts es new_mutex).caller i).place ≡ popping
      → (acts es new_mutex).queue ≡ j ∷ js
      → let next = acts (takes_step w i ∷ takes_step w i ∷ []) (acts es new_mutex) in
        (owns (next.caller x) ≡ (if x == j then 1 else 0)) × (next.queue ≡ js)
  unfolding acts act act_from act_alone pop_waiter hand_over
  mutex-hands-over w i j x js lt p at queue =
      let unlinked : linked (reached.caller i) ≡ 0 = rw (linked, at) refl in
      let queued : 0 < count j reached.queue = rw queue (ground arith) in
      let one : linked (reached.caller j) ≡ 1 =
        omega (arith, inv.places j, linked-le (reached.caller j)) in
      let (owner, rest) =
        pops_over w reached i j js at queue (linked_apart reached i j unlinked one) one in
      let next = acts-Inv (takes_step w i ∷ takes_step w i ∷ []) reached inv (lt, (lt, tt)) in
      (sole_owner next j x (inv.among j (omega (arith, one))) p owner, rest)
