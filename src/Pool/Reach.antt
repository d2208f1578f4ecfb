-- ===== src/Pool/Reach.antt =====
-- xutex-pool/src/lib.rs and src/wait_queue.rs: every step of every caller keeps the owners apart.
use xutex.Prelude.{
  ℕ, ◌+◌, ◌≤◌, ◌<◌, ◌≡◌, refl, ap, ◌∙◌, subst, inl, inr, false, Bool-cases, List, [], ◌∷◌, ◌==◌,
  is_nil, arith, update, total, total-update, two-le-total, weight-le-total, total-eq-zero,
}
use xutex.WaitQueue.Lock.{published, held_count}
use xutex.Pool.Pointer.{pointer_tag}
use xutex.Pool.SegQueue.{SegQueue}
use xutex.Pool.State.{
  PoolCaller, PoolView, PoolEvent, call, run, PoolCall, locks, edits, unlocks, Pools,
  new_pool_caller,
}
use xutex.Pool.Steps.{pool_step, pool_steps, view, put, new_pools, AllAllowed, Allowed, call_target}
use xutex.Pool.Invariant.{
  Inv, Before, Moved, points, spare, hand, pooled, alive, locks_on, lock_weight,
}
use xutex.Pool.Moves.{pool_advance-Moved, pool_begin-Moved}

-- A call is about the wait queue that its caller has locked, if any.
pub call-holds :
    {Q : Type 0} (c : PoolCall) (k : PoolCaller Q)
    → lock_weight k.place ≡ locks_on (call_target c k) k
call-holds (locks w alloc) k = ground arith
call-holds (edits f) k = ground arith
call-holds unlocks k = ground arith

module _ {Q : Type 0} (seg : SegQueue Q) {m n : ℕ} {s : Pools Q} (inv : Inv seg m n s) where
  module _ (i : ℕ) (lt : i < n) where
    -- What a pointer and a caller own.
    below :
        (w a : ℕ)
        → w < m
        → pooled seg a s.root + points a (s.words w) + hand seg a (s.caller i)
          ≤ alive seg (s.live a)
    below w a small = omega (
      arith,
      inv.owned a,
      weight-le-total (points a) m s.words w small,
      weight-le-total (hand seg a) n s.caller i lt,
    )

    module _ (w : ℕ) (small : w < m) where
      pub view-Before :
          lock_weight (s.caller i).place ≡ locks_on w (s.caller i) → Before seg (view w i s)
      view-Before at = record {
        owned = λ a. below w a small;
        tag = omega (arith, inv.tag w small, weight-le-total (locks_on w) n s.caller i lt, at);
        address = inv.address;
        pool_empty = inv.pool_empty;
        spare_empty = λ a. inv.spare_empty i a lt;
        nonempty = inv.nonempty w small;
      }

      module _ {v : PoolView Q} (moved : Moved seg w (view w i s) v) where
        -- A queue that another caller owns keeps its nodes.
        pub others :
            (j a : ℕ)
            → j < n
            → (j == i) ≡ false
            → 0 < hand seg a (s.caller j)
            → v.nodes a ≡ s.nodes a
        others j a le apart owned =
            let two = two-le-total (hand seg a) n s.caller i j new_pool_caller refl lt le apart in
            moved.frame a (ground (arith, two, inv.owned a, owned))
              (ground (arith, two, inv.owned a, owned))

        -- So does one that another wait queue points to.
        pub pointed :
            (x : ℕ)
            → x < m
            → (x == w) ≡ false
            → pointer_tag (s.words x) ≡ published
            → v.nodes (s.words x) ≡ s.nodes (s.words x)
        pointed x le apart shown =
            let a = s.words x in
            let one : points a (s.words x) ≡ 1 = ground (arith, shown) in
            let le_sum = weight-le-total (points a) m s.words x le in
            let le_hand = weight-le-total (hand seg a) n s.caller i lt in
            moved.frame a (ground (arith, one, le_sum, le_hand, inv.owned a))
              (ground (arith, one, le_sum, le_hand, inv.owned a))

        put-tag :
            (x : ℕ)
            → x < m
            → total (locks_on x) n (update s.caller i v.caller)
              ≡ held_count (pointer_tag (update s.words w v.word x))
        put-tag x le =
            let sum = total-update (locks_on x) n s.caller i v.caller lt in
            let here = moved.tag x in
            elim (Bool-cases (x == w)) [
              | inl same ↦
                  let e : x ≡ w = ground arith in
                  rw same (
                    omega (
                      arith,
                      sum,
                      rw same at here,
                      subst
                          (λ y.
                            total (locks_on x) n s.caller ≡ held_count (pointer_tag (s.words y)))
                          e (inv.tag x le),
                    ))
              | inr other ↦ rw other (omega (arith, sum, rw other at here, inv.tag x le))
            ]

        put-spare :
            (j a : ℕ)
            → j < n
            → 0 < spare seg a (update s.caller i v.caller j).place
            → v.nodes a ≡ []
        put-spare j a le h = elim (Bool-cases (j == i)) [
          | inl same ↦ moved.spare_empty a (rw same at h)
          | inr other ↦
              let own = rw other at h in
              others j a le other (omega (arith, own)) ∙ inv.spare_empty j a le own
        ]

        put-nonempty :
            (x : ℕ)
            → x < m
            → pointer_tag (update s.words w v.word x) ≡ published
            → is_nil (v.nodes (update s.words w v.word x)) ≡ false
        put-nonempty x le shown = elim (Bool-cases (x == w)) [
          | inl same ↦ rw same (moved.nonempty (rw same at shown))
          | inr other ↦
              let old = rw other at shown in
              rw other (ap is_nil (pointed x le other old) ∙ inv.nonempty x le old)
        ]

        put-Inv : Inv seg m n (put w i s v)
        put-Inv = record {
          owned = λ a. omega (
            arith,
            inv.owned a,
            moved.owned a,
            total-update (points a) m s.words w v.word small,
            total-update (hand seg a) n s.caller i v.caller lt,
          );
          tag = put-tag;
          address = moved.address;
          pool_empty = moved.pool_empty;
          spare_empty = put-spare;
          nonempty = put-nonempty;
          target = λ j. elim (Bool-cases (j == i)) [
            | inl same ↦ rw (same, moved.target) small
            | inr other ↦ rw other (inv.target j)
          ];
          ready = λ j h. elim (Bool-cases (j == i)) [
            | inl same ↦ moved.ready (rw same at h)
            | inr other ↦ moved.kept (inv.ready j (rw other at h))
          ];
        }

module _ {Q : Type 0} (seg : SegQueue Q) (parallelism : ℕ) where
  pub new_pools-Inv : (m n : ℕ) → 0 < m → Inv seg m n new_pools
  new_pools-Inv m n some_queue = record {
    owned = λ a. omega (
      arith,
      total-eq-zero (points a) m (λ w. 0) (λ w lt. ground arith),
      total-eq-zero (hand seg a) n (λ i. new_pool_caller) (λ i lt. refl),
    );
    tag = λ w lt. total-eq-zero (locks_on w) n (λ i. new_pool_caller) (λ i l. ground arith);
    address = λ a h. absurd (ground arith);
    pool_empty = λ a h. refl;
    spare_empty = λ i a lt h. refl;
    nonempty = λ w lt h. absurd (ground arith);
    target = λ i. some_queue;
    ready = λ i h. absurd (ground arith);
  }

  pub pool_step-Inv :
      {m n : ℕ} (e : PoolEvent) (s : Pools Q)
      → Inv seg m n s
      → Allowed seg parallelism m n e s
      → Inv seg m n (pool_step seg parallelism e s)
  unfolding pool_step
  pool_step-Inv (call i c) s inv (lt, small) =
      let w = call_target c (s.caller i) in
      put-Inv seg inv i lt w small (
        pool_begin-Moved seg (view w i s)
          (view-Before seg inv i lt w small (call-holds c (s.caller i))) c (s.caller i).place refl
          (inv.ready i))
  pool_step-Inv (run i box) s inv (lt, address, fresh) =
      let w = (s.caller i).target in
      put-Inv seg inv i lt w (inv.target i) (
        pool_advance-Moved seg parallelism (view w i s)
          (view-Before seg inv i lt w (inv.target i) (ground arith)) box (s.caller i).place refl
          address fresh (inv.ready i))

  pub pool_steps-Inv :
      {m n : ℕ} (es : List PoolEvent) (s : Pools Q)
      → Inv seg m n s
      → AllAllowed seg parallelism m n es s
      → Inv seg m n (pool_steps seg parallelism es s)
  unfolding pool_steps
  pool_steps-Inv [] s inv a = inv
  pool_steps-Inv (e ∷ es) s inv (a, rest) =
      pool_steps-Inv es (pool_step seg parallelism e s) (pool_step-Inv e s inv a) rest
