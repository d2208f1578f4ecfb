-- ===== src/Queue/Linked.antt =====
-- xutex-pool/src/lib.rs: which list of addresses a queue with its links stands for.
use xutex.Prelude.{
  ℕ, ◌≡◌, refl, true, false, Option, none, some, List, [], ◌∷◌, ◌++◌, ◌==◌, arith, update, has,
  Distinct, get_last?,
}
use xutex.Queue.{Links, Store, typed}

-- From `o` the links lead through exactly these nodes, and then to none.
abbrev pub Linked : Links → Option ℕ → List ℕ → Type 0
Linked next o [] = o ≡ none
Linked next o (x ∷ xs) = (o ≡ some x) × Linked next (next x) xs

-- The queue holds exactly these nodes, oldest first.
pub record IsQueue (s : Store) (xs : List ℕ) : Type 0 where
  pub chain : Linked s.next (typed s.queue.first) xs
  pub last : typed s.queue.last ≡ get_last? xs
  pub live : has 0 xs ≡ false
  pub distinct : Distinct xs

abbrev pub head? : List ℕ → Option ℕ
head? [] = none
head? (x ∷ xs) = some x

has-get_last? : (y : ℕ) (ys : List ℕ) (l : ℕ) → get_last? (y ∷ ys) ≡ some l → has l (y ∷ ys) ≡ true
has-get_last? y [] l e = ground arith
has-get_last? y (z ∷ zs) l e = ground (arith, has-get_last? z zs l)

-- The chain starts at the head of its list.
pub Linked-head : (next : Links) (o : Option ℕ) (xs : List ℕ) → Linked next o xs → o ≡ head? xs
Linked-head next o [] h = h
Linked-head next o (x ∷ xs) h = h.0

-- A change at a node outside the chain keeps the chain.
pub Linked-frame :
    (next : Links) (o : Option ℕ) (xs : List ℕ) (p : ℕ) (v : Option ℕ)
    → Linked next o xs
    → has p xs ≡ false
    → Linked (update next p v) o xs
Linked-frame next o [] p v h out = h
Linked-frame next o (x ∷ xs) p v h out =
    (h.0, ground (arith, Linked-frame next (next x) xs p v h.1))

-- The last node's link, set to a fresh node, makes the chain longer by it.
pub Linked-append :
    (next : Links) (o : Option ℕ) (xs : List ℕ) (l e : ℕ)
    → Linked next o xs
    → get_last? xs ≡ some l
    → Distinct xs
    → has e xs ≡ false
    → next e ≡ none
    → Linked (update next l (some e)) o (xs ++ e ∷ [])
Linked-append next o [] l e h last d out fresh = cc
Linked-append next o (x ∷ []) l e h last d out fresh = ground arith
Linked-append next o (x ∷ y ∷ ys) l e h last d out fresh =
    (h.0, ground (arith, Linked-append next (next x) (y ∷ ys) l e h.1, has-get_last? y ys l))

-- The link of the node before `c`, set past `c`, takes `c` out of the chain.
pub Linked-skip :
    (next : Links) (o : Option ℕ) (pre : List ℕ) (p c : ℕ) (suf : List ℕ)
    → Linked next o (pre ++ c ∷ suf)
    → get_last? pre ≡ some p
    → Distinct (pre ++ c ∷ suf)
    → Linked (update next p (next c)) o (pre ++ suf)
Linked-skip next o [] p c suf h last d = cc
Linked-skip next o (x ∷ []) p c suf h last d =
    (h.0, ground (arith, Linked-frame next (next c) suf x (next c) h.1.1))
Linked-skip next o (x ∷ y ∷ ys) p c suf h last d = (
  h.0,
  ground (
    arith,
    Linked-skip next (next x) (y ∷ ys) p c suf h.1,
    has-get_last? y ys p,
    has-member x p (y ∷ ys) (c ∷ suf),
  ),
)
  where
    has-member :
        (x p : ℕ) (ys zs : List ℕ) → has x (ys ++ zs) ≡ false → has p ys ≡ true → (x == p) ≡ false
    has-member x p [] zs out mem = cc
    has-member x p (y ∷ ys) zs out mem = ground (arith, has-member x p ys zs)

pub get_last?-cons : (x : ℕ) (xs : List ℕ) → (l : ℕ) × (get_last? (x ∷ xs) ≡ some l)
get_last?-cons x [] = (x, refl)
get_last?-cons x (y ∷ ys) = get_last?-cons y ys

pub get_last?-mem : (xs : List ℕ) (l : ℕ) → get_last? xs ≡ some l → has l xs ≡ true
get_last?-mem [] l e = cc
get_last?-mem (x ∷ xs) l e = has-get_last? x xs l e

-- Behind a node of the chain its rest follows.
pub Linked-tail :
    (next : Links) (o : Option ℕ) (pre : List ℕ) (c : ℕ) (suf : List ℕ)
    → Linked next o (pre ++ c ∷ suf)
    → Linked next (next c) suf
Linked-tail next o [] c suf h = h.1
Linked-tail next o (x ∷ xs) c suf h = Linked-tail next (next x) xs c suf h.1

pub get_last?-nonzero :
    (xs : List ℕ) (l : ℕ) → get_last? xs ≡ some l → has 0 xs ≡ false → (l == 0) ≡ false
get_last?-nonzero [] l e live = cc
get_last?-nonzero (x ∷ []) l e live = ground arith
get_last?-nonzero (x ∷ y ∷ ys) l e live = ground (arith, get_last?-nonzero (y ∷ ys) l e)
