-- ===== src/Semaphore/Encoding.antt =====
-- src/semaphore.rs: the pool word, with CLOSED and HAS_QUEUE in its low bits and the count of permits
-- above them.
use xutex.Prelude.{ℕ, ◌+◌, ◌-◌, ◌*◌, ◌/◌, ◌%◌, ◌^◌, ◌≤◌, ◌≡◌, Bool, ◌==◌, if◌then◌else◌, arith}
use xutex.Semaphore.State.{Pool, same_pool}
use xutex.Semaphore.Steps.{fetch_add}

abbrev bit : Bool → ℕ
bit b = if b then 1 else 0

-- The word of a pool.
abbrev pub pool_word : Pool → ℕ
pool_word p = p.permits * 4 + bit p.has_queue * 2 + bit p.closed

-- The pool that a word stands for: `w >> PERMIT_SHIFT`, `w & HAS_QUEUE != 0` and `w & CLOSED != 0`.
abbrev pub word_pool : ℕ → Pool
word_pool w = record { permits = w / 4; has_queue = (w / 2) % 2 == 1; closed = w % 2 == 1 }

word_back : (p : Pool) → word_pool (pool_word p) ≡ p
word_back p = ground arith

adds_lem :
    (x n a b : ℕ)
    → a ≤ 1
    → b ≤ 1
    → (x + n) % 2 ^ 62 * 4 + a * 2 + b ≡ ((x * 4 + a * 2 + b) + (n * 4) % 2 ^ 64) % 2 ^ 64
adds_lem x n a b p q = omega arith

bit-le : (b : Bool) → bit b ≤ 1
bit-le b = ground arith

word_adds :
    (p : Pool) (n : ℕ) → pool_word (fetch_add p n) ≡ (pool_word p + (n * 4) % 2 ^ 64) % 2 ^ 64
word_adds p n =
    adds_lem p.permits n (bit p.has_queue) (bit p.closed) (bit-le p.has_queue) (bit-le p.closed)

word_compares : (p q : Pool) → same_pool p q ≡ (pool_word p == pool_word q)
word_compares p q = ground arith

-- The word of a pool, taken apart, gives back the pool; adding `n` shifted above the flags to the word,
-- modulo 2 ^ 64, is `fetch_add`; taking away no more permits than there are, shifted likewise, takes
-- them from the pool; and comparing pools is comparing words.
pub word_pool-pool_word :
    (p q : Pool) (n m : ℕ)
    → m ≤ p.permits
    → (word_pool (pool_word p) ≡ p)
      × (pool_word (fetch_add p n) ≡ (pool_word p + (n * 4) % 2 ^ 64) % 2 ^ 64)
      × (pool_word (record p { permits = p.permits - m }) ≡ pool_word p - m * 4)
      × (same_pool p q ≡ (pool_word p == pool_word q))
word_pool-pool_word p q n m enough = (word_back p, word_adds p n, omega arith, word_compares p q)
