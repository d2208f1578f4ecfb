-- ===== src/Semaphore/Invariant/Serve.antt =====
-- src/semaphore.rs, the loop of `drain` over the queue: what it does to the nodes.
use xutex.Prelude.{
  ℕ, ◌+◌, ◌-◌, ◌<◌, ◌≤◌, ◌≡◌, true, false, refl, inl, inr, some, List, [], ◌∷◌, ◌==◌, arith,
  Bool-cases, has, count, total, total-update, ltb,
}
use xutex.Semaphore.State.{Task}
use xutex.Semaphore.System.{Served, serve, set_aux}
use xutex.Semaphore.Invariant.Defs.{weight, request}

-- A queued node's owner: one of the first `n` callers, with a request that its node cannot exceed.
abbrev pub Waiter : ℕ → (ℕ → Task) → ℕ → Type 0
Waiter n f j = (j < n) × ((m : ℕ) × (request (f j).pc ≡ some m) × ((f j).aux ≤ m))

-- The loop from `a` permits over the queue `js`.
pub record Serves (n a : ℕ) (js : List ℕ) (f : ℕ → Task) (r : Served) : Type 0 where
  pub spent : total weight n r.task + r.left ≡ total weight n f + a
  pub places : (x : ℕ) → count x r.queue + count x r.chain ≡ count x js
  pub pc : (x : ℕ) → (r.task x).pc ≡ (f x).pc
  pub value : (x : ℕ) → (r.task x).value ≡ (f x).value
  pub falls : (x : ℕ) → (r.task x).aux ≤ (f x).aux
  pub spared : (x : ℕ) → has x js ≡ false → (r.task x).aux ≡ (f x).aux
  pub served : (x : ℕ) → has x r.chain ≡ true → (r.task x).aux ≡ 0
  pub emptied : 0 < r.left → r.queue ≡ []

weight_of : (t : Task) (m : ℕ) → request t.pc ≡ some m → weight t ≡ m - t.aux
weight_of t m asked = ground arith

-- Assigning `d` permits to the node of `j` moves them to its owner.
spend :
    (n : ℕ) (f : ℕ → Task) (j x : ℕ)
    → Waiter n f j
    → x ≤ (f j).aux
    → total weight n (set_aux f j x) + x ≡ total weight n f + (f j).aux
spend n f j x (lt, (m, asked, most)) le = omega (
  arith,
  total-update weight n f j (record (f j) { aux = x }) lt,
  weight_of (f j) m asked,
  weight_of (record (f j) { aux = x }) m asked,
)

Waiter-set_aux :
    (n : ℕ) (f : ℕ → Task) (j x k : ℕ) → x ≤ (f j).aux → Waiter n f k → Waiter n (set_aux f j x) k
Waiter-set_aux n f j x k le (lt, (m, asked, most)) = elim (Bool-cases (k == j)) [
  | inl same ↦
      let here : k ≡ j = ground arith in
      rw same (lt, (m, rw here at asked, omega (arith, rw here at most, le)))
  | inr apart ↦ rw apart (lt, (m, asked, most))
]

module _ (n a : ℕ) (j : ℕ) (js : List ℕ) (f : ℕ → Task) (w : Waiter n f j) where
  -- The head needs more than there is: it gets all, and stays.
  serve_part :
      a < (f j).aux
      → Serves n a
          (j ∷ js)
          f
          (record { left = 0; queue = j ∷ js; chain = []; task = set_aux f j ((f j).aux - a) })
  serve_part short = record {
    spent = omega (arith, spend n f j ((f j).aux - a) w (omega arith), short);
    places = λ x. omega arith;
    pc = λ x. ground arith;
    value = λ x. ground arith;
    falls = λ x. ground arith;
    spared = λ x h. ground arith;
    served = λ x h. cc;
    emptied = λ h. absurd (omega arith);
  }

  -- The head gets what it lacks and is popped, and the loop goes on.
  serve_pop :
      (r : Served)
      → (f j).aux ≤ a
      → Serves n (a - (f j).aux) js (set_aux f j 0) r
      → Serves n a (j ∷ js) f (record r { chain = j ∷ r.chain })
  serve_pop r enough s = record {
    spent = omega (arith, s.spent, spend n f j 0 w (omega arith), enough);
    places = λ x. omega (arith, s.places x);
    pc = λ x. ground (arith, s.pc x);
    value = λ x. ground (arith, s.value x);
    falls = λ x. ground (arith, s.falls x);
    spared = λ x h. ground (arith, s.spared x);
    served = λ x h. ground (arith, s.served x, s.falls x);
    emptied = s.emptied;
  }

serve_none :
    (n a j : ℕ) (js : List ℕ) (f : ℕ → Task)
    → a ≡ 0
    → Serves n a (j ∷ js) f (record { left = 0; queue = j ∷ js; chain = []; task = f })
serve_none n a j js f nothing = record {
  spent = omega arith;
  places = λ x. omega arith;
  pc = λ x. refl;
  value = λ x. refl;
  falls = λ x. omega arith;
  spared = λ x h. refl;
  served = λ x h. cc;
  emptied = λ h. absurd (omega arith);
}

pub serve-Serves :
    (n a : ℕ) (js : List ℕ) (f : ℕ → Task)
    → ((j : ℕ) → has j js ≡ true → Waiter n f j)
    → Serves n a js f (serve a js f)
unfolding serve
serve-Serves n a [] f waiters = record {
  spent = refl;
  places = λ x. omega arith;
  pc = λ x. refl;
  value = λ x. refl;
  falls = λ x. omega arith;
  spared = λ x h. refl;
  served = λ x h. cc;
  emptied = λ h. refl;
}
serve-Serves n a (j ∷ js) f waiters =
    let w : Waiter n f j = waiters j (ground arith) in
    elim (Bool-cases (ltb a (f j).aux)) [
      | inl short ↦ elim (Bool-cases (ltb 0 a)) [
        | inl some_left ↦ rw (short, some_left) (serve_part n a j js f w (ground arith))
        | inr none_left ↦ rw (short, none_left) (serve_none n a j js f (ground arith))
      ]
      | inr enough ↦ rw enough (
          serve_pop n a j js f w _ (ground arith) (
            serve-Serves n (a - (f j).aux) js (set_aux f j 0)
              λ k h. Waiter-set_aux n f j 0 k (omega arith) (waiters k (ground arith))))
    ]
