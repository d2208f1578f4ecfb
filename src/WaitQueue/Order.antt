-- ===== src/WaitQueue/Order.antt =====
-- src/wait_queue.rs: a queue of stale nodes followed by fresh ones, as nodes come and go.
use xutex.Prelude.{
  ℕ, ◌+◌, ◌≤◌, ◌<◌, ◌≡◌, Bool, true, false, refl, List, [], ◌∷◌, ◌++◌, ◌==◌, arith, count, erase,
  ==_refl, Bool-cases, inl, inr, ◌&&◌, if◌then◌else◌,
}
use xutex.WaitQueue.Popped.{take_while, drop_while}

abbrev pub all_in : (ℕ → Bool) → List ℕ → Bool
all_in fresh [] = true
all_in fresh (x ∷ xs) = fresh x && all_in fresh xs

-- Nodes that `fresh` refuses, then nodes that it accepts.
abbrev pub ordered : (ℕ → Bool) → List ℕ → Bool
ordered fresh [] = true
ordered fresh (x ∷ xs) = if fresh x then all_in fresh xs else ordered fresh xs

all_in-append :
    (f : ℕ → Bool) (xs : List ℕ) (i : ℕ)
    → all_in f xs ≡ true
    → f i ≡ true
    → all_in f (xs ++ i ∷ []) ≡ true
all_in-append f [] i a e = ground arith
all_in-append f (x ∷ xs) i a e = ground (arith, all_in-append f xs i)

pub ordered-append :
    (f : ℕ → Bool) (xs : List ℕ) (i : ℕ)
    → ordered f xs ≡ true
    → f i ≡ true
    → ordered f (xs ++ i ∷ []) ≡ true
ordered-append f [] i a e = ground arith
ordered-append f (x ∷ xs) i a e = ground (arith, ordered-append f xs i, all_in-append f xs i)

all_in-erase :
    (f : ℕ → Bool) (xs : List ℕ) (i : ℕ) → all_in f xs ≡ true → all_in f (erase i xs) ≡ true
all_in-erase f [] i a = refl
all_in-erase f (x ∷ xs) i a = ground (arith, all_in-erase f xs i)

pub ordered_of_all_in : (f : ℕ → Bool) (xs : List ℕ) → all_in f xs ≡ true → ordered f xs ≡ true
ordered_of_all_in f [] a = refl
ordered_of_all_in f (x ∷ xs) a = ground (arith, ordered_of_all_in f xs)

pub ordered-erase :
    (f : ℕ → Bool) (xs : List ℕ) (i : ℕ) → ordered f xs ≡ true → ordered f (erase i xs) ≡ true
ordered-erase f [] i a = refl
ordered-erase f (x ∷ xs) i a =
    ground (arith, ordered-erase f xs i, all_in-erase f xs i, ordered_of_all_in f xs)

below :
    (x : ℕ) (xs : List ℕ) {P : ℕ → Type 0}
    → ((j : ℕ) → 0 < count j (x ∷ xs) → P j)
    → (j : ℕ) → 0 < count j xs
    → P j
below x xs h j p = h j (omega arith)

head_counts : (x : ℕ) (xs : List ℕ) → 0 < count x (x ∷ xs)
head_counts x xs = ground (arith, ==_refl x)

all_in-cong :
    (f g : ℕ → Bool) (xs : List ℕ)
    → ((j : ℕ) → 0 < count j xs → g j ≡ f j)
    → all_in g xs ≡ all_in f xs
all_in-cong f g [] e = refl
all_in-cong f g (x ∷ xs) e =
    let rest = all_in-cong f g xs (below x xs e) in rw (e x (head_counts x xs), rest) refl

pub ordered-cong :
    (f g : ℕ → Bool) (xs : List ℕ)
    → ((j : ℕ) → 0 < count j xs → g j ≡ f j)
    → ordered g xs ≡ ordered f xs
ordered-cong f g [] e = refl
ordered-cong f g (x ∷ xs) e =
    let rest = ordered-cong f g xs (below x xs e) in
    let all = all_in-cong f g xs (below x xs e) in rw (e x (head_counts x xs), rest, all) refl

-- All nodes are stale.
pub ordered_of_past :
    (f : ℕ → Bool) (xs : List ℕ) → ((j : ℕ) → 0 < count j xs → f j ≡ false) → ordered f xs ≡ true
ordered_of_past f [] e = refl
ordered_of_past f (x ∷ xs) e =
    let rest = ordered_of_past f xs (below x xs e) in rw (e x (head_counts x xs)) rest

pub count-split :
    (p : ℕ → Bool) (j : ℕ) (xs : List ℕ)
    → count j (take_while p xs) + count j (drop_while p xs) ≡ count j xs
count-split p j [] = refl
count-split p j (x ∷ xs) = ground (arith, count-split p j xs)

pub take_while-accepts :
    (p : ℕ → Bool) (j : ℕ) (xs : List ℕ) → 0 < count j (take_while p xs) → p j ≡ true
take_while-accepts p j [] h = absurd (omega arith)
take_while-accepts p j (x ∷ xs) h = elim (Bool-cases (j == x)) [
  | inl here ↦ let e : j ≡ x = ground arith in rw e (ground (arith, here))
  | inr other ↦ ground (arith, take_while-accepts p j xs, other)
]

all_in-drop_while :
    (f p : ℕ → Bool) (xs : List ℕ) → all_in f xs ≡ true → all_in f (drop_while p xs) ≡ true
all_in-drop_while f p [] a = refl
all_in-drop_while f p (x ∷ xs) a = ground (arith, all_in-drop_while f p xs)

-- Once the stale nodes are popped, those that remain are fresh.
pub drop_while-fresh :
    (f p : ℕ → Bool) (xs : List ℕ)
    → ordered f xs ≡ true
    → ((j : ℕ) → 0 < count j xs → f j ≡ false → p j ≡ true)
    → all_in f (drop_while p xs) ≡ true
drop_while-fresh f p [] o past = refl
drop_while-fresh f p (x ∷ xs) o past =
    let rest = drop_while-fresh f p xs in
    ground (arith, all_in-drop_while f p xs, past x (head_counts x xs), rest, below x xs past)

pub all_in-member :
    (f : ℕ → Bool) (xs : List ℕ) (j : ℕ) → all_in f xs ≡ true → 0 < count j xs → f j ≡ true
all_in-member f [] j a h = absurd (omega arith)
all_in-member f (x ∷ xs) j a h = elim (Bool-cases (j == x)) [
  | inl here ↦ let e : j ≡ x = ground arith in rw e (ground arith)
  | inr other ↦ ground (arith, all_in-member f xs j, other)
]

pub count-erase_le : (i j : ℕ) (xs : List ℕ) → count j (erase i xs) ≤ count j xs
count-erase_le i j [] = omega arith
count-erase_le i j (x ∷ xs) = ground (arith, count-erase_le i j xs)

pub ordered-tail :
    (f : ℕ → Bool) (x : ℕ) (xs : List ℕ) → ordered f (x ∷ xs) ≡ true → ordered f xs ≡ true
ordered-tail f x xs o = ground (arith, ordered_of_all_in f xs)
