-- ===== src/Pool/Refinement.antt =====
-- src/wait_queue.rs: the pointers with the pool, callers together, keep to the contract of the lock.
use xutex.Prelude.{
  ℕ, ◌<◌, ◌≡◌, refl, ap, sym, ◌∙◌, subst, inl, inr, false, Bool-cases, List, [], ◌==◌, arith,
  two-le-total, weight-le-total,
}
use xutex.WaitQueue.Lock.{LockMove, stays, Tag, null, published, held, held_count}
use xutex.Pool.Pointer.{pointer_tag}
use xutex.Pool.SegQueue.{SegQueue}
use xutex.Pool.State.{PoolPlace, locked, PoolView, PoolEvent, call, run, Pools, new_pool_caller}
use xutex.Pool.Steps.{pool_step, view, put, Allowed, call_target}
use xutex.Pool.Invariant.{Inv, Moved, lock_weight, locks_on}
use xutex.Pool.Moves.{pool_advance-Moved, pool_begin-Moved}
use xutex.Pool.Reach.{view-Before, call-holds, others, pointed}
use xutex.Pool.Contract.{own_nodes, view_nodes, Turn, pool_begin-Turn, pool_advance-Turn, edit}

-- `q` is the list of nodes of the wait queue `w`, whose lock is as the tag says.
abbrev pub Shows : {Q : Type 0} (n w : ℕ) → Pools Q → Tag → List ℕ → Type 0
Shows n w s null q = q ≡ []
Shows n w s published q = q ≡ s.nodes (s.words w)
Shows n w s held q =
    (i : ℕ) × (i < n) × (locks_on w (s.caller i) ≡ 1) × (q ≡ own_nodes (s.caller i).place s.nodes)

-- What may become of the nodes of `w`.
abbrev pub Continues :
    {Q : Type 0} (n w : ℕ) → (List ℕ → List ℕ) → Pools Q → Pools Q → List ℕ → Type 0
Continues n w f s s' q =
    let t' = pointer_tag (s'.words w) in
    (q' : List ℕ) × Shows n w s' t' q' × LockMove f (pointer_tag (s.words w)) q t' q'

module _ {Q : Type 0} (seg : SegQueue Q) {m n : ℕ} {s : Pools Q} (inv : Inv seg m n s) (i : ℕ)
    (lt : i < n) (w : ℕ) (small : w < m) {v : PoolView Q} (moved : Moved seg w (view w i s) v) where
  abbrev after : Pools Q
  after = put w i s v

  -- The queue that another caller works on keeps its nodes.
  own_nodes-others :
      (j : ℕ)
      → j < n
      → (j == i) ≡ false
      → (p : PoolPlace Q) → (s.caller j).place ≡ p
      → own_nodes p v.nodes ≡ own_nodes p s.nodes
  own_nodes-others j le apart (locked a) e =
      others seg inv i lt w small moved j a le apart (rw e (ground arith))
  own_nodes-others j le apart _ e = refl

  Shows-other :
      (j x : ℕ)
      → j < n
      → (j == i) ≡ false
      → locks_on x (s.caller j) ≡ 1
      → (q : List ℕ) → q ≡ own_nodes (s.caller j).place s.nodes
      → Shows n x after held q
  Shows-other j x le apart holds q e = (
    j,
    le,
    rw apart holds,
    e ∙ sym (rw apart (own_nodes-others j le apart (s.caller j).place refl)),
  )

  module _ (f : List ℕ → List ℕ) (turn : Turn f (view w i s) v)
      (at : lock_weight (s.caller i).place ≡ locks_on w (s.caller i)) where
    -- Of another wait queue.
    onward_beyond :
        (x : ℕ)
        → x < m
        → (x == w) ≡ false
        → (q : List ℕ) → Shows n x s (pointer_tag (s.words x)) q
        → Continues n x f s after q
    onward_beyond x le apart q shows =
        let same : after.words x ≡ s.words x = rw apart refl in
        subst
          (λ p.
            (q' : List ℕ) × Shows n x after (pointer_tag p) q'
            × LockMove f (pointer_tag (s.words x)) q (pointer_tag p) q')
          (sym same)
          (q, go (pointer_tag (s.words x)) refl shows, stays f (pointer_tag (s.words x)) q)
      where
        go : (t : Tag) → pointer_tag (s.words x) ≡ t → Shows n x s t q → Shows n x after t q
        go null e h = h
        go published e h =
            h ∙ sym (ap v.nodes (rw apart refl) ∙ pointed seg inv i lt w small moved x le apart e)
        go held e (j, lj, holds, own) = elim (Bool-cases (j == i)) [
          | inl same ↦
              let k : j ≡ i = ground arith in
              let holds' = subst (λ y. locks_on x (s.caller y) ≡ 1) k holds in
              absurd (ground (arith, holds', at, apart))
          | inr other ↦ Shows-other j x lj other holds q own
        ]

    -- Once the lock is held after the step of its holder, or of one that found it free, it is theirs.
    own-Shows :
        lock_weight (s.caller i).place ≡ held_count (pointer_tag (s.words w))
        → (t : Tag) → pointer_tag v.word ≡ t
        → Shows n w after t (view_nodes t v)
    own-Shows mine null e = refl
    own-Shows mine published e = ground arith
    own-Shows mine held e = (i, lt, ground (arith, moved.tag w), ground arith)

    own_onward :
        (q : List ℕ)
        → q ≡ view_nodes (pointer_tag (s.words w)) (view w i s)
        → lock_weight (s.caller i).place ≡ held_count (pointer_tag (s.words w))
        → Continues n w f s after q
    own_onward q e mine =
        let same : after.words w ≡ v.word = ground arith in
        subst
          (λ p.
            (q' : List ℕ) × Shows n w after (pointer_tag p) q'
            × LockMove f (pointer_tag (s.words w)) q (pointer_tag p) q')
          (sym same)
          (
            view_nodes (pointer_tag v.word) v,
            own-Shows mine (pointer_tag v.word) refl,
            subst
                (λ z.
                  LockMove f (pointer_tag (s.words w)) z (pointer_tag v.word)
                    (view_nodes (pointer_tag v.word) v))
                (sym e) turn,
          )

    -- The lock is held by another caller: its queue stays as it is.
    waiting_onward :
        (j : ℕ)
        → j < n
        → (j == i) ≡ false
        → locks_on w (s.caller j) ≡ 1
        → (q : List ℕ) → q ≡ own_nodes (s.caller j).place s.nodes
        → Continues n w f s after q
    waiting_onward j lj other holds q own =
        let two =
          two-le-total (locks_on w) n s.caller i j new_pool_caller (ground arith) lt lj other in
        let was : pointer_tag (s.words w) ≡ held = ground (arith, two, inv.tag w small, holds) in
        let is : pointer_tag (after.words w) ≡ held =
          ground (arith, two, inv.tag w small, holds, moved.tag w, was) in
        rw (was, is) (q, Shows-other j w lj other holds q own, inl refl)

    onward_at :
        (q : List ℕ)
        → (t : Tag) → pointer_tag (s.words w) ≡ t
        → Shows n w s t q
        → Continues n w f s after q
    onward_at q null e h =
        own_onward q (rw e h)
          (ground (arith, at, e, inv.tag w small, weight-le-total (locks_on w) n s.caller i lt))
    onward_at q published e h =
        own_onward q (rw e h)
          (ground (arith, at, e, inv.tag w small, weight-le-total (locks_on w) n s.caller i lt))
    onward_at q held e (j, lj, holds, own) = elim (Bool-cases (j == i)) [
      | inl same ↦
          let k : j ≡ i = ground arith in
          own_onward q (rw e (own ∙ ap (λ y. own_nodes (s.caller y).place s.nodes) k))
            (rw e (at ∙ subst (λ y. locks_on w (s.caller y) ≡ 1) k holds))
      | inr other ↦ waiting_onward j lj other holds q own
    ]

    put-onward :
        (x : ℕ)
        → x < m
        → (q : List ℕ) → Shows n x s (pointer_tag (s.words x)) q
        → Continues n x f s after q
    put-onward x le q h = elim (Bool-cases (x == w)) [
      | inl same ↦
          let k : x ≡ w = ground arith in
          subst (λ y. Continues n y f s after q) (sym k)
            (onward_at q (pointer_tag (s.words w)) refl
              (subst (λ y. Shows n y s (pointer_tag (s.words y)) q) k h))
      | inr other ↦ onward_beyond x le other q h
    ]

-- The closure that an event runs.
abbrev pub event_edit : PoolEvent → List ℕ → List ℕ
event_edit (call i c) q = edit c q
event_edit (run i box) q = q

module _ {Q : Type 0} (seg : SegQueue Q) (parallelism : ℕ) where
  pub pool_step-onward :
      {m n : ℕ} (s : Pools Q) (e : PoolEvent)
      → Inv seg m n s
      → Allowed seg parallelism m n e s
      → (x : ℕ) → x < m
      → (q : List ℕ) → Shows n x s (pointer_tag (s.words x)) q
      → Continues n x (event_edit e) s (pool_step seg parallelism e s) q
  unfolding pool_step
  pool_step-onward s (call i c) inv (lt, small) x le q shows =
      let w = call_target c (s.caller i) in
      let at = call-holds c (s.caller i) in
      let b = view-Before seg inv i lt w small at in
      put-onward seg inv i lt w small (pool_begin-Moved seg (view w i s) b c _ refl (inv.ready i))
        (edit c) (pool_begin-Turn seg (view w i s) b c _ refl) at x le q shows
  pool_step-onward s (run i box) inv (lt, address, fresh) x le q shows =
      let w = (s.caller i).target in
      let at : lock_weight (s.caller i).place ≡ locks_on w (s.caller i) = ground arith in
      let b = view-Before seg inv i lt w (inv.target i) at in
      put-onward seg inv i lt w (inv.target i)
        (pool_advance-Moved seg parallelism (view w i s) b box _ refl address fresh (inv.ready i))
        (λ q. q) (pool_advance-Turn seg parallelism (view w i s) b box _ refl fresh) at x le q shows
