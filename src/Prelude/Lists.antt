-- ===== src/Prelude/Lists.antt =====
-- Lists over the native numbers, and lists of addresses.
use Prim.Native.Nat.{ℕ, suc, ◌+◌, ◌<◌, ◌≤◌}
use mathlib.Core.Path.{◌≡◌, refl}
use mathlib.Core.Logic.{inl, inr}
use mathlib.Core.Bool.{Bool, true, false, ◌||◌}
use mathlib.Core.List.{List, [], ◌∷◌, ◌++◌}
use mathlib.Core.Option.{Option, none, some}
use native.Mathlib.Omega.{arith}
use xutex.Prelude.Tests.{◌==◌, if◌then◌else◌, ==_refl, Bool-cases}

module _ {ℓ} {A : Type ℓ} where
  abbrev pub length : List A → ℕ
  length [] = 0
  length (x ∷ xs) = suc (length xs)

  abbrev pub is_nil : List A → Bool
  is_nil [] = true
  is_nil (_ ∷ _) = false

  abbrev pub get_last? : List A → Option A
  get_last? [] = none
  get_last? (x ∷ []) = some x
  get_last? (x ∷ y ∷ ys) = get_last? (y ∷ ys)

  pub length-append : (xs ys : List A) → length (xs ++ ys) ≡ length xs + length ys
  length-append [] ys = omega arith
  length-append (x ∷ xs) ys = omega (arith, length-append xs ys)

  pub get_last?-append : (xs : List A) (y : A) → get_last? (xs ++ y ∷ []) ≡ some y
  get_last?-append [] y = refl
  get_last?-append (x ∷ []) y = refl
  get_last?-append (x ∷ z ∷ zs) y = get_last?-append (z ∷ zs) y

abbrev pub has : ℕ → List ℕ → Bool
has a [] = false
has a (x ∷ xs) = (a == x) || has a xs

-- How often an address stands in a list.
abbrev pub count : ℕ → List ℕ → ℕ
count a [] = 0
count a (x ∷ xs) = (if a == x then 1 else 0) + count a xs

-- The list without the first occurrence of an address.
abbrev pub erase : ℕ → List ℕ → List ℕ
erase a [] = []
erase a (x ∷ xs) = if x == a then xs else x ∷ erase a xs

abbrev pub Distinct : List ℕ → Type 0
Distinct [] = Unit {0}
Distinct (x ∷ xs) = (has x xs ≡ false) × Distinct xs

pub count-append :
    (a : ℕ) (front back : List ℕ) → count a front + count a back ≡ count a (front ++ back)
count-append a [] back = omega arith
count-append a (x ∷ front) back = ground (arith, count-append a front back)

pub has-append_false :
    (a : ℕ) (xs ys : List ℕ) → has a xs ≡ false → has a ys ≡ false → has a (xs ++ ys) ≡ false
has-append_false a [] ys p q = q
has-append_false a (x ∷ xs) ys p q = ground (arith, has-append_false a xs ys)

pub has-erase-false : (a b : ℕ) (xs : List ℕ) → has a xs ≡ false → has a (erase b xs) ≡ false
has-erase-false a b [] p = refl
has-erase-false a b (x ∷ xs) p = ground (arith, has-erase-false a b xs)

pub erase_fresh : (a : ℕ) (xs : List ℕ) → has a xs ≡ false → erase a xs ≡ xs
erase_fresh a [] p = refl
erase_fresh a (x ∷ xs) p = ground (arith, erase_fresh a xs)

pub Distinct-append_one :
    (xs : List ℕ) (a : ℕ) → Distinct xs → has a xs ≡ false → Distinct (xs ++ a ∷ [])
Distinct-append_one [] a d p = (refl, tt)
Distinct-append_one (x ∷ xs) a d p =
    (has-append_false x xs (a ∷ []) d.0 (ground arith), Distinct-append_one xs a d.1 (ground arith))

pub Distinct-erase : (a : ℕ) (xs : List ℕ) → Distinct xs → Distinct (erase a xs)
Distinct-erase a [] d = tt
Distinct-erase a (x ∷ xs) d = ground (arith, Distinct-erase a xs d.1, has-erase-false x a xs d.0)

pub has-append_middle :
    (a : ℕ) (xs : List ℕ) (c : ℕ) (ys : List ℕ)
    → has a (xs ++ c ∷ ys) ≡ false
    → (has a (xs ++ ys) ≡ false) × ((a == c) ≡ false)
has-append_middle a [] c ys p = ground arith
has-append_middle a (x ∷ xs) c ys p = ground (arith, has-append_middle a xs c ys)

pub Distinct-append_middle :
    (xs : List ℕ) (c : ℕ) (ys : List ℕ)
    → Distinct (xs ++ c ∷ ys)
    → Distinct (xs ++ ys) × (has c ys ≡ false)
Distinct-append_middle [] c ys d = (d.1, d.0)
Distinct-append_middle (x ∷ xs) c ys d =
    let (rest, out) = Distinct-append_middle xs c ys d.1 in
    (((has-append_middle x xs c ys d.0).0, rest), out)

pub get_last?-append_cons :
    (xs : List ℕ) (y : ℕ) (ys : List ℕ) → get_last? (xs ++ y ∷ ys) ≡ get_last? (y ∷ ys)
get_last?-append_cons [] y ys = refl
get_last?-append_cons (x ∷ []) y ys = refl
get_last?-append_cons (x ∷ z ∷ zs) y ys = get_last?-append_cons (z ∷ zs) y ys

pub Distinct-append_left : (xs ys : List ℕ) → Distinct (xs ++ ys) → Distinct xs
Distinct-append_left [] ys d = tt
Distinct-append_left (x ∷ xs) ys d = (has-append_left x xs ys d.0, Distinct-append_left xs ys d.1)
  where
    has-append_left : (a : ℕ) (xs ys : List ℕ) → has a (xs ++ ys) ≡ false → has a xs ≡ false
    has-append_left a [] ys p = refl
    has-append_left a (x ∷ xs) ys p = ground (arith, has-append_left a xs ys)

has-append_right : (a : ℕ) (xs ys : List ℕ) → has a (xs ++ ys) ≡ false → has a ys ≡ false
has-append_right a [] ys p = p
has-append_right a (x ∷ xs) ys p = ground (arith, has-append_right a xs ys)

pub Distinct-append_apart :
    (xs ys : List ℕ) (a : ℕ) → Distinct (xs ++ ys) → has a xs ≡ true → has a ys ≡ false
Distinct-append_apart [] ys a d m = cc
Distinct-append_apart (x ∷ xs) ys a d m =
    ground (arith, Distinct-append_apart xs ys a d.1, has-append_right x xs ys d.0)

pub count-erase :
    (a b : ℕ) (xs : List ℕ)
    → has a xs ≡ true
    → count b (erase a xs) + (if b == a then 1 else 0) ≡ count b xs
count-erase a b [] m = cc
count-erase a b (x ∷ xs) m = ground (arith, count-erase a b xs)

pub count-pos_of_has : (a : ℕ) (xs : List ℕ) → has a xs ≡ true → 0 < count a xs
count-pos_of_has a [] m = cc
count-pos_of_has a (x ∷ xs) m = ground (arith, count-pos_of_has a xs)

pub has_of_count : (a : ℕ) (xs : List ℕ) → 0 < count a xs → has a xs ≡ true
has_of_count a [] m = absurd (omega arith)
has_of_count a (x ∷ xs) m = ground (arith, has_of_count a xs)

pub head_of_count :
    (a : ℕ) (xs : List ℕ) → 0 < count a xs → (x : ℕ) × (rest : List ℕ) × (xs ≡ x ∷ rest)
head_of_count a [] many = absurd (omega arith)
head_of_count a (x ∷ xs) many = (x, xs, refl)

pub Distinct-count : (xs : List ℕ) → ((a : ℕ) → count a xs ≤ 1) → Distinct xs
Distinct-count [] once = tt
Distinct-count (x ∷ xs) once =
    let most : count x (x ∷ xs) ≤ 1 = once x in
    let fresh : has x xs ≡ false = elim (Bool-cases (has x xs)) [
      | inl there ↦ absurd (ground (arith, ==_refl x, count-pos_of_has x xs there))
      | inr out ↦ out
    ] in
    (fresh, Distinct-count xs λ a. ground (arith, once a))
