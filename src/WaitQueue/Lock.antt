-- ===== src/WaitQueue/Lock.antt =====
-- src/wait_queue.rs, `WaitQueue`: the pointer to the queue, which is also its lock, and what the lock
-- promises to its clients.
use xutex.Prelude.{ℕ, ◌≡◌, refl, ◌⊎◌, inl, false, List, [], is_nil}

-- Null, published, or tagged (also while its allocation is unpublished).
pub data Tag : Type 0 where
  null published held : Tag

-- How many callers may be between the lock and the unlock.
abbrev pub held_count : Tag → ℕ
held_count held = 1
held_count _ = 0

-- What one event may do to a lock and to the list of its nodes.
abbrev pub LockMove : (List ℕ → List ℕ) → Tag → List ℕ → Tag → List ℕ → Type 0
LockMove f null q null q' = q' ≡ q
LockMove f null q held q' = q' ≡ []
LockMove f published q published q' = q' ≡ q
LockMove f published q held q' = q' ≡ q
LockMove f held q held q' = (q' ≡ q) ⊎ (q' ≡ f q)
LockMove f held q published q' = (q' ≡ q) × (is_nil q ≡ false)
LockMove f held q null q' = (q ≡ []) × (q' ≡ [])
LockMove f _ q _ q' = ⊥

pub stays : (f : List ℕ → List ℕ) (t : Tag) (q : List ℕ) → LockMove f t q t q
stays f null q = refl
stays f published q = refl
stays f held q = inl refl
