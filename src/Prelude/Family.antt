-- ===== src/Prelude/Family.antt =====
-- Families indexed by an address or a thread: the change at one index, and sums of weights.
use Prim.Native.Nat.{ℕ, zero, suc, ◌+◌, ◌-◌, ◌≤◌, ◌<◌}
use mathlib.Core.Path.{◌≡◌, refl}
use mathlib.Core.Logic.{inl, inr}
use native.Mathlib.Omega.{arith}
use xutex.Prelude.Tests.{◌==◌, if◌then◌else◌, Bool-cases}
use mathlib.Core.Bool.{false}

abbrev pub update {ℓ} : {A : Type ℓ} → (ℕ → A) → ℕ → A → ℕ → A
update f i a j = if j == i then a else f j

module _ {ℓ} {A : Type ℓ} (weight : A → ℕ) where
  -- The weights of the first `n` members.
  pub total : ℕ → (ℕ → A) → ℕ
  total zero f = 0
  total (suc n) f = weight (f n) + total n f

  total-update_beyond :
      (f : ℕ → A) (i : ℕ) (a : A) (n : ℕ) → n ≤ i → total n f ≡ total n (update f i a)
  unfolding total
  total-update_beyond f i a zero beyond = refl
  total-update_beyond f i a (suc n) beyond = ground (arith, total-update_beyond f i a n)

  pub total-update :
      (n : ℕ) (f : ℕ → A) (i : ℕ) (a : A)
      → i < n
      → weight a + total n f ≡ weight (f i) + total n (update f i a)
  unfolding total
  total-update zero f i a inside = absurd (omega arith)
  total-update (suc n) f i a inside = elim (Bool-cases (n == i)) [
    | inl last ↦ ground (arith, total-update_beyond f i a n)
    | inr below ↦ ground (arith, total-update n f i a)
  ]

  -- One member weighs no more than all.
  pub weight-le-total : (n : ℕ) (f : ℕ → A) (i : ℕ) → i < n → weight (f i) ≤ total n f
  unfolding total
  weight-le-total zero f i h = absurd (omega arith)
  weight-le-total (suc n) f i h = elim (Bool-cases (n == i)) [
    | inl last ↦ ground arith
    | inr below ↦ ground (arith, weight-le-total n f i)
  ]

  pub total-eq-zero : (n : ℕ) (f : ℕ → A) → ((i : ℕ) → i < n → weight (f i) ≡ 0) → total n f ≡ 0
  unfolding total
  total-eq-zero zero f h = refl
  total-eq-zero (suc n) f h =
      omega (arith, h n (omega arith), total-eq-zero n f (λ i lt. h i (omega arith)))

  pub total-cong :
      (n : ℕ) (f g : ℕ → A) → ((i : ℕ) → weight (g i) ≡ weight (f i)) → total n g ≡ total n f
  unfolding total
  total-cong zero f g h = refl
  total-cong (suc n) f g h = omega (arith, h n, total-cong n f g h)

pub total-le {ℓ} :
    {A : Type ℓ} (v w : A → ℕ) (n : ℕ) (f : ℕ → A)
    → ((a : A) → v a ≤ w a)
    → total v n f ≤ total w n f
unfolding total
total-le v w zero f h = omega arith
total-le v w (suc n) f h = omega (arith, h (f n), total-le v w n f h)

-- The count of an address over the queue and the chains, when one member of a family changes.
pub count_at {ℓ} :
    {A : Type ℓ} (f : ℕ → A) (a : A) (i j : ℕ) (w : A → ℕ) (q q' t t' c c' : ℕ)
    → q + t ≡ w (f j)
    → q' + c' + (if j == i then w (f i) else 0) ≡ q + c + (if j == i then w a else 0)
    → t' + c ≡ t + c'
    → q' + t' ≡ w (update f i a j)
count_at f a i j w q q' t t' c c' before moved sum = ground arith

-- Two members weigh no more than all.
pub two-le-total {ℓ} :
    {A : Type ℓ} (w : A → ℕ) (n : ℕ) (f : ℕ → A) (i j : ℕ) (light : A)
    → w light ≡ 0
    → i < n
    → j < n
    → (j == i) ≡ false
    → w (f i) + w (f j) ≤ total w n f
two-le-total w n f i j light none p q apart =
    ground (arith, total-update w n f i light p, weight-le-total w n (update f i light) j q)

-- If the members together weigh something, one of them does.
pub heavy_of_total {ℓ} :
    {A : Type ℓ} (weight : A → ℕ) (n : ℕ) (f : ℕ → A)
    → 0 < total weight n f
    → (i : ℕ) × (i < n) × (0 < weight (f i))
unfolding total
heavy_of_total weight zero f h = absurd (omega arith)
heavy_of_total weight (suc n) f h = elim (Bool-cases (weight (f n) == 0)) [
  | inl light ↦
      let (i, lt, heavy) = heavy_of_total weight n f (ground arith) in (i, omega arith, heavy)
  | inr heavy ↦ (n, omega arith, ground arith)
]

-- Two members change: first that at `j`, then that at `i`.
abbrev pub update_two {ℓ} : {A : Type ℓ} → (ℕ → A) → ℕ → A → ℕ → A → ℕ → A
update_two f i a j b = update (update f j b) i a

pub total-update_two {ℓ} :
    {A : Type ℓ} (w : A → ℕ) (n : ℕ) (f : ℕ → A) (i : ℕ) (a : A) (j : ℕ) (b : A)
    → i < n
    → j < n
    → (i == j) ≡ false
    → w a + w b + total w n f ≡ w (f i) + w (f j) + total w n (update_two f i a j b)
total-update_two w n f i a j b lt lt' apart =
    let first = total-update w n f j b lt' in
    let second = total-update w n (update f j b) i a lt in omega (arith, first, rw apart at second)

-- A property of every member after that: of the two, and of the others.
pub update_two-cases {ℓ κ} :
    {A : Type ℓ} (f : ℕ → A) (i : ℕ) (a : A) (j : ℕ) (b : A) (P : ℕ → A → Type κ)
    → P i a
    → P j b
    → ((x : ℕ) → (x == i) ≡ false → (x == j) ≡ false → P x (f x))
    → (x : ℕ) → P x (update_two f i a j b x)
update_two-cases f i a j b P at_i at_j at_x x = elim (Bool-cases (x == i)) [
  | inl same ↦ let e : x ≡ i = ground arith in rw (same, e) at_i
  | inr other ↦ rw other (elim (Bool-cases (x == j)) [
    | inl hit ↦ let e : x ≡ j = ground arith in rw (hit, e) at_j
    | inr miss ↦ rw miss (at_x x other miss)
  ])
]

-- What a member lacks of weighing one.
abbrev lacks {ℓ} : {A : Type ℓ} → (A → ℕ) → A → ℕ
lacks w a = 1 - w a

total-lacks {ℓ} :
    {A : Type ℓ} (w : A → ℕ)
    → ((a : A) → w a ≤ 1)
    → (n : ℕ) (f : ℕ → A) → total w n f + total (lacks w) n f ≡ n
unfolding total
total-lacks w most zero f = refl
total-lacks w most (suc n) f = omega (arith, total-lacks w most n f, most (f n))

-- If the members weigh at most one each, and one that weighs nothing is all that misses from the
-- full weight, every other one weighs one.
pub all_but_one {ℓ} :
    {A : Type ℓ} (w : A → ℕ) (n : ℕ) (f : ℕ → A) (i j : ℕ) (heavy : A)
    → ((a : A) → w a ≤ 1)
    → w heavy ≡ 1
    → w (f i) ≡ 0
    → n ≤ total w n f + 1
    → i < n
    → j < n
    → (j == i) ≡ false
    → w (f j) ≡ 1
all_but_one {A} w n f i j heavy most full none enough p q apart = elim (Bool-cases (w (f j) == 0)) [
  | inl light ↦
      let two = two-le-total (lacks w) n f i j heavy (omega (arith, full)) p q apart in
      absurd (ground (arith, two, total-lacks w most n f, none, light, enough))
  | inr one ↦ ground (arith, one, most (f j))
]

-- Two weights that agree on the first `n` members.
pub total-agree {ℓ} :
    {A : Type ℓ} (v w : A → ℕ) (n : ℕ) (f : ℕ → A)
    → ((i : ℕ) → i < n → v (f i) ≡ w (f i))
    → total v n f ≡ total w n f
unfolding total
total-agree v w zero f h = refl
total-agree v w (suc n) f h =
    omega (arith, h n (omega arith), total-agree v w n f (λ i lt. h i (omega arith)))
