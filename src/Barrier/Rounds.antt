-- ===== src/Barrier/Rounds.antt =====
-- src/barrier.rs: a round of arrivals.
use xutex.Prelude.{
  ℕ, zero, suc, ◌+◌, ◌-◌, ◌*◌, ◌%◌, ◌^◌, ◌<◌, ◌≡◌, refl, ap, ◌∙◌, ==_refl, List, [], ◌∷◌, ◌++◌,
  arith,
}
use xutex.Barrier.{ArriveOutcome, leader, wait, next_word, arrive_outcome, arrive_round, arrivals}

abbrev pub repeat : ℕ → ArriveOutcome → List ArriveOutcome
repeat zero o = []
repeat (suc k) o = o ∷ repeat k o

-- The word of round `g` with `a` arrivals.
abbrev pub word_of : ℕ → ℕ → ℕ
word_of g a = g * 2 ^ 32 + a

last_arrival :
    (size g a : ℕ)
    → a + 1 ≡ size
    → size < 2 ^ 32
    → (next_word size (word_of g a) ≡ word_of ((g + 1) % 2 ^ 32) 0)
      × (arrive_outcome (word_of g a) (word_of ((g + 1) % 2 ^ 32) 0) ≡ leader g)
unfolding next_word arrive_outcome
last_arrival size g a last small = (ground arith, ground arith)

early_arrival :
    (size g a : ℕ)
    → a + 1 < size
    → size < 2 ^ 32
    → (next_word size (word_of g a) ≡ word_of g (suc a))
      × (arrive_outcome (word_of g a) (word_of g (suc a)) ≡ wait g)
unfolding next_word arrive_outcome
early_arrival size g a early small = (ground arith, ground arith)

-- With no other caller in between, the exchange succeeds.
arrivals-suc :
    (size k word next : ℕ) (o : ArriveOutcome)
    → next_word size word ≡ next
    → arrive_outcome word next ≡ o
    → arrivals size (suc k) word ≡ (o ∷ (arrivals size k next).0, (arrivals size k next).1)
unfolding arrivals arrive_round
arrivals-suc size k word next o e e' = rw (arrivals, arrive_round, ==_refl word, e, e') refl

arrivals-zero : (size word : ℕ) → arrivals size zero word ≡ ([], word)
unfolding arrivals
arrivals-zero size word = refl

arrivals-rest :
    (size g k a : ℕ)
    → a + suc k ≡ size
    → size < 2 ^ 32
    → arrivals size (suc k) (word_of g a)
      ≡ (repeat k (wait g) ++ leader g ∷ [], word_of ((g + 1) % 2 ^ 32) 0)
arrivals-rest size g zero a sum small =
    let (next, outcome) = last_arrival size g a (omega arith) small in
    rw
      (arrivals-suc size zero _ _ _ next outcome, arrivals-zero size (word_of ((g + 1) % 2 ^ 32) 0))
      refl
arrivals-rest size g (suc k) a sum small =
    let (next, outcome) = early_arrival size g a (omega arith) small in
    arrivals-suc size (suc k) _ _ _ next outcome
    ∙ ap (λ r. (wait g ∷ r.0, r.1)) (arrivals-rest size g k (suc a) (omega arith) small)

-- For a barrier of at least one and fewer than 2 ^ 32 callers: when a round begins, all arrivals of
-- that round but the last wait for it, the last one leads, and the next round, modulo 2 ^ 32, begins
-- without arrivals.
pub arrivals-leads :
    (size g : ℕ)
    → 0 < size
    → size < 2 ^ 32
    → arrivals size size (word_of g 0)
      ≡ (repeat (size - 1) (wait g) ++ leader g ∷ [], word_of ((g + 1) % 2 ^ 32) 0)
arrivals-leads zero g some_caller small = absurd (omega arith)
arrivals-leads (suc k) g some_caller small =
    let e : suc k - 1 ≡ k = omega arith in rw e (arrivals-rest (suc k) g k 0 (omega arith) small)
