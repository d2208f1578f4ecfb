-- ===== src/Pool/SegQueue.antt =====
-- crossbeam_queue, `SegQueue`: what xutex-pool/src/lib.rs uses of it. Each call is one step, as the
-- package says of its concurrent queue.
use xutex.Prelude.{ℕ, ◌≡◌, Option, none, some, List, [], ◌∷◌, ◌++◌}

-- An unbounded queue: first in, first out; `pop` gives none if the queue is empty.
pub record SegQueue (Q : Type 0) : Type 0 where
  pub new : Q
  pub push : ℕ → Q → Q
  pub pop : Q → Option (ℕ × Q)
  pub contents : Q → List ℕ
  pub contents-new : contents new ≡ []
  pub contents-push : (a : ℕ) (q : Q) → contents (push a q) ≡ contents q ++ a ∷ []
  pub pop-none : (q : Q) → pop q ≡ none → contents q ≡ []
  pub pop-some : (q r : Q) (a : ℕ) → pop q ≡ some (a, r) → contents q ≡ a ∷ contents r
