-- ===== src/Semaphore/Awake/Local.antt =====
-- src/semaphore.rs: a step that touches no node but the caller's own, seen from all callers.
use xutex.Prelude.{
  two-le-total, ℕ, ◌<◌, ◌≡◌, ◌⊎◌, inl, inr, true, false, refl, List, [], ◌∷◌, ◌++◌, ◌==◌, ==_refl,
  arith, Bool-cases, is_nil, has, erase, count, count-pos_of_has, total-cong, total-update, update,
}
use xutex.Semaphore.State.{
  SemCore, Pc, Task, new_task, Local, deciding, draining, assigning, returning,
}
use xutex.Semaphore.Steps.{is_head}
use xutex.Semaphore.System.{System, local, restore}
use xutex.Semaphore.Invariant.Defs.{Inv, Moved, linked, locks, lock_count, held_count}
use xutex.Semaphore.Invariant.Local.{held_count-le}
use xutex.Semaphore.Awake.Defs.{
  Busy, busy, Moves, Watch, Awake, Heads, Kept, need, drain_count, serve_count, close_count,
}
use xutex.Semaphore.Awake.Moves.{Stirs}

-- Whoever holds the lock can still rely on what it knew.
pub Watch-Kept :
    (d d' : Busy) (m m' : SemCore) (p : Pc)
    → (m.queue ≡ []) ⊎ (m.pool.has_queue ≡ true)
    → (lock_count p ≡ 1 → Kept d m m' d')
    → Watch d m p
    → Watch d' m' p
Watch-Kept d d' m m' (deciding n cur) flagged kept watch =
    let k = kept refl in ground (arith, k.permits, k.drain, k.closed, k.close, k.flag)
Watch-Kept d d' m m' (draining cur) flagged kept watch =
    let k = kept refl in ground (arith, k.permits, k.drain, k.queue)
Watch-Kept d d' m m' (assigning a) flagged kept watch =
    let k = kept refl in ground (arith, k.permits, k.drain, k.queue)
Watch-Kept d d' m m' (returning a c) flagged kept watch =
    let k = kept refl in ground (arith, k.queue)
Watch-Kept d d' m m' _ flagged kept watch = tt

pub need-kept :
    (q : List ℕ) (f g : ℕ → Task)
    → ((j : ℕ) → has j q ≡ true → (g j).aux ≡ (f j).aux)
    → need q g ≡ need q f
need-kept [] f g same = refl
need-kept (j ∷ js) f g same = same j (rw (==_refl j) refl)

need-pushed :
    (q : List ℕ) (i : ℕ) (f g : ℕ → Task)
    → ((j : ℕ) → has j q ≡ true → (g j).aux ≡ (f j).aux)
    → is_nil q ≡ false
    → need (q ++ i ∷ []) g ≡ need q f
need-pushed [] i f g same some_queued = cc
need-pushed (j ∷ js) i f g same some_queued = same j (rw (==_refl j) refl)

need-erase :
    (q : List ℕ) (i : ℕ) (f g : ℕ → Task)
    → ((j : ℕ) → has j q ≡ true → (g j).aux ≡ (f j).aux)
    → is_head i q ≡ false
    → (erase i q ≡ []) ⊎ (need (erase i q) g ≡ need q f)
need-erase [] i f g same other = inl refl
need-erase (j ∷ js) i f g same other = rw other (inr (same j (rw (==_refl j) refl)))

pub Moves-update :
    (n : ℕ) (f : ℕ → Task) (i : ℕ) (t : Task)
    → i < n
    → Moves (busy n f) (busy n (update f i t)) (f i).pc t.pc
Moves-update n f i t lt = (
  total-update (λ u. drain_count u.pc) n f i t lt,
  total-update (λ u. serve_count u.pc) n f i t lt,
  total-update (λ u. close_count u.pc) n f i t lt,
)

pub others_lock :
    {n : ℕ} {s : System} (inv : Inv n s) (i k : ℕ)
    → i < n
    → k < n
    → (k == i) ≡ false
    → lock_count (s.task k).pc ≡ 1
    → (lock_count (s.task i).pc ≡ 0) × (held_count s.core.tag ≡ 1)
others_lock {n} {s} inv i k lt p other owns =
    let two = two-le-total locks n s.task i k new_task refl lt p other in
    let most = held_count-le s.core.tag in
    (omega (arith, inv.lock, two, most, owns), omega (arith, inv.lock, two, most, owns))

-- The same counts at every caller.
abbrev pub Alike : Pc → Pc → Type 0
Alike p q =
    (drain_count p ≡ drain_count q)
    × (serve_count p ≡ serve_count q)
    × (close_count p ≡ close_count q)

pub busy-cong : (n : ℕ) (f g : ℕ → Task) → ((x : ℕ) → Alike (g x).pc (f x).pc) → busy n g ≡ busy n f
busy-cong n f g same = cc (
  total-cong (λ t. drain_count t.pc) n f g (λ x. (same x).0),
  total-cong (λ t. serve_count t.pc) n f g (λ x. (same x).1),
  total-cong (λ t. close_count t.pc) n f g (λ x. (same x).2),
)

module _ {n : ℕ} {s : System} (inv : Inv n s) (aw : Awake n s) (i : ℕ) (lt : i < n) {l : Local}
    (m : Moved i (local i s) l) where
  own_aux :
      (l.task.aux ≡ (s.task i).aux) ⊎ (linked (s.task i) ≡ 0)
      → 0 < count i s.core.queue
      → l.task.aux ≡ (s.task i).aux
  own_aux (inl same) queued = same
  own_aux (inr unlinked) queued = absurd (omega (arith, inv.places i))

  aux_kept : (j : ℕ) → has j s.core.queue ≡ true → (update s.task i l.task j).aux ≡ (s.task j).aux
  aux_kept j mem = elim (Bool-cases (j == i)) [
    | inl mover ↦
        let same : j ≡ i = ground arith in
        let queued : has i s.core.queue ≡ true = rw same at mem in
        let kept : l.task.aux ≡ (s.task i).aux =
          own_aux m.aux (count-pos_of_has i s.core.queue queued) in
        rw (mover, same) kept
    | inr other ↦ rw other refl
  ]

  Heads-Moved :
      Heads i (local i s) l (need s.core.queue s.task) (need l.core.queue (update s.task i l.task))
  Heads-Moved = record {
    same = λ e. inr (rw e (need-kept s.core.queue s.task _ aux_kept));
    pushed = λ some_queued e. rw e (need-pushed s.core.queue i s.task _ aux_kept some_queued);
    first = λ e. ground (arith, e);
    removed = λ e other. rw e (need-erase s.core.queue i s.task _ aux_kept other);
  }

  pub Awake-Stirs :
      Stirs i (busy n s.task) (need s.core.queue s.task) (local i s) l → Awake n (restore i s l)
  Awake-Stirs st =
      let moves = Moves-update n s.task i l.task lt in
      record {
        calm = st.calm _ _ moves Heads-Moved;
        watch = λ k p. elim (Bool-cases (k == i)) [
          | inl mover ↦ rw mover (st.watch _ moves)
          | inr other ↦ rw other (
              Watch-Kept _ _ _ _ (s.task k).pc aw.calm.flagged
                (λ owns.
                  let (free, taken) = others_lock inv i k lt p other owns in
                  st.kept _ moves free taken)
                (aw.watch k p))
        ];
      }
