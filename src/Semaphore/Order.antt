-- ===== src/Semaphore/Order.antt =====
-- src/semaphore.rs, the loop of `drain` over the queue: who gets the permits, and in what order.
use xutex.Prelude.{
  ℕ, ◌+◌, ◌-◌, ◌<◌, ◌≤◌, ◌≡◌, ◌⊎◌, false, Bool-cases, inl, inr, refl, ap, List, [], ◌∷◌, ◌++◌, ◌==◌,
  arith, ltb, has, Distinct, is_nil, if◌then◌else◌,
}
use xutex.Semaphore.State.{Task}
use xutex.Semaphore.Steps.{is_head}
use xutex.Semaphore.System.{Served, serve, set_aux}

-- The queue is empty, or its head still lacks permits and none are left for it.
abbrev pub Stops : Served → List ℕ → Type 0
Stops r [] = Unit {0}
Stops r (j ∷ js) = (r.left ≡ 0) × (0 < (r.task j).aux)

-- For any permits and queue, the loop pops nodes from the front of the queue and leaves the others
-- in their order; it ends with an empty queue, or with no permits and a head that lacks some; and
-- permits are left only when the queue is empty.
pub serve-Stops :
    (a : ℕ) (js : List ℕ) (f : ℕ → Task)
    → let r = serve a js f in
      (r.chain ++ r.queue ≡ js) × Stops r r.queue × ((r.left ≡ 0) ⊎ (r.queue ≡ []))
unfolding serve
serve-Stops a [] f = (refl, tt, inr refl)
serve-Stops a (j ∷ js) f =
    let rest = serve-Stops (a - (f j).aux) js (set_aux f j 0) in
    elim (Bool-cases (ltb a (f j).aux)) [
      | inl short ↦ elim (Bool-cases (ltb 0 a)) [
        | inl part ↦ rw (short, part) (refl, (refl, ground arith), inl refl)
        | inr nothing ↦ rw (short, nothing) (refl, (refl, ground arith), inl refl)
      ]
      | inr enough ↦ rw enough (ap (λ ks. j ∷ ks) rest.0, rest.1, rest.2)
    ]

-- What the nodes of a list lack, all together.
abbrev pub needed : (ℕ → Task) → List ℕ → ℕ
needed f [] = 0
needed f (j ∷ js) = (f j).aux + needed f js

-- The first node of a queue lacks more than `left` permits.
abbrev pub Lacks : ℕ → (ℕ → Task) → List ℕ → Type 0
Lacks left f [] = Unit {0}
Lacks left f (j ∷ js) = left < (f j).aux

-- What the node of `x` lacks once `chain` has got all its nodes lacked, and the first node of
-- `queue` the rest of `a` permits.
abbrev pub lacks_after : ℕ → (chain queue : List ℕ) → (ℕ → Task) → ℕ → ℕ
lacks_after a chain queue f x =
    if has x chain
    then 0
    else if is_head x queue
    then (f x).aux - (a - needed f chain)
    else (f x).aux

-- The loop has handed out `a` permits over the queue `js`, node by node from the front.
pub record Hands (a : ℕ) (js : List ℕ) (f : ℕ → Task) (r : Served) : Type 0 where
  pub order : r.chain ++ r.queue ≡ js
  pub enough : needed f r.chain ≤ a
  pub short : Lacks (a - needed f r.chain) f r.queue
  pub left : r.left ≡ (if is_nil r.queue then a - needed f r.chain else 0)
  pub lacks : (x : ℕ) → (r.task x).aux ≡ lacks_after a r.chain r.queue f x

parts_fresh :
    (j : ℕ) (chain queue : List ℕ)
    → has j (chain ++ queue) ≡ false
    → (has j chain ≡ false) × (is_head j queue ≡ false)
parts_fresh j [] [] out = (refl, refl)
parts_fresh j [] (k ∷ ks) out = (refl, ground arith)
parts_fresh j (k ∷ ks) queue out =
    let rest = parts_fresh j ks queue (ground arith) in (ground (arith, rest.0), rest.1)

needed-set_aux :
    (f : ℕ → Task) (j y : ℕ) (ks : List ℕ)
    → has j ks ≡ false
    → needed (set_aux f j y) ks ≡ needed f ks
needed-set_aux f j y [] out = refl
needed-set_aux f j y (k ∷ ks) out = ground (arith, needed-set_aux f j y ks)

Lacks-set_aux :
    (left : ℕ) (f : ℕ → Task) (j y : ℕ) (ks : List ℕ)
    → is_head j ks ≡ false
    → Lacks left (set_aux f j y) ks
    → Lacks left f ks
Lacks-set_aux left f j y [] out l = tt
Lacks-set_aux left f j y (k ∷ ks) out l = ground arith

module _ (a j : ℕ) (js : List ℕ) (f : ℕ → Task) where
  -- The first node lacks more than there is.
  Hands-short :
      (g : ℕ → Task)
      → a < (f j).aux
      → ((x : ℕ) → (g x).aux ≡ lacks_after a [] (j ∷ js) f x)
      → Hands a (j ∷ js) f (record { left = 0; queue = j ∷ js; chain = []; task = g })
  Hands-short g less lacks = record {
    order = refl;
    enough = omega arith;
    short = omega arith;
    left = refl;
    lacks = lacks;
  }

  -- The first node gets what it lacks, and the loop goes on.
  Hands-cons :
      (r : Served)
      → (f j).aux ≤ a
      → has j js ≡ false
      → Hands (a - (f j).aux) js (set_aux f j 0) r
      → Hands a (j ∷ js) f (record r { chain = j ∷ r.chain })
  Hands-cons r le out h =
      let (unchained, unqueued) = parts_fresh j r.chain r.queue (rw h.order out) in
      let same = needed-set_aux f j 0 r.chain unchained in
      let rests : a - (f j).aux - needed (set_aux f j 0) r.chain
          ≡ a - ((f j).aux + needed f r.chain) =
        omega (arith, same) in
      record {
        order = ap (λ ks. j ∷ ks) h.order;
        enough = omega (arith, h.enough, same, le);
        short = Lacks-set_aux _ f j 0 r.queue unqueued (rw rests at h.short);
        left = rw rests at h.left;
        lacks = λ x. elim (Bool-cases (x == j)) [
          | inl mine ↦
              let e : x ≡ j = ground arith in ground (arith, h.lacks x, unchained, unqueued)
          | inr other ↦ ground (arith, h.lacks x, rests)
        ];
      }

-- For any permits `a` and any queue that holds no node twice, the loop pops the longest prefix of
-- the queue whose nodes lack no more than `a` permits together, and leaves the others in their
-- order. A node popped lacks nothing then; the first node that stays gets all permits that are
-- over, and still lacks some; every other node lacks what it lacked before. Permits are left only
-- when the queue is empty: those that the nodes did not lack.
pub serve-Hands : (a : ℕ) (js : List ℕ) (f : ℕ → Task) → Distinct js → Hands a js f (serve a js f)
unfolding serve
serve-Hands a [] f d = record {
  order = refl;
  enough = omega arith;
  short = tt;
  left = omega arith;
  lacks = λ x. refl;
}
serve-Hands a (j ∷ js) f d =
    let rest = serve-Hands (a - (f j).aux) js (set_aux f j 0) d.1 in
    elim (Bool-cases (ltb a (f j).aux)) [
      | inl less ↦ elim (Bool-cases (ltb 0 a)) [
        | inl part ↦
            rw (less, part)
              (Hands-short a j js f (set_aux f j ((f j).aux - a)) (ground arith)
                (λ x. ground arith))
        | inr nothing ↦
            rw (less, nothing) (Hands-short a j js f f (ground arith) (λ x. ground arith))
      ]
      | inr enough ↦ rw enough (Hands-cons a j js f _ (ground arith) d.0 rest)
    ]
