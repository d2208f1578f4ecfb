-- ===== src/WaitQueue.antt =====
-- src/wait_queue.rs: the chain of popped nodes, and the loops that fill and signal it.
pub mod Lock
pub mod Order
pub mod Handshake
pub mod Awake
pub mod Popped
mod Tests
use xutex.Prelude.{
  ℕ, zero, suc, Bool, Option, none, some, List, [], ◌∷◌, ◌==◌, if◌then◌else◌, update,
}
use xutex.Queue.{Links, Store, first, pop}

pub record PoppedChain : Type 0 where
  pub head : Option ℕ
  pub last : Option ℕ

abbrev pub new_chain : PoppedChain
new_chain = record { head = none; last = none }

-- `append`
pub append : PoppedChain → ℕ → PoppedChain
append c node = record {
  head = elim c.head [ none ↦ some node | some h ↦ some h ];
  last = some node;
}

-- `seal`: the link of the last popped node is cut.
pub seal : PoppedChain → Links → Links
seal c next = elim c.last [ none ↦ next | some l ↦ update next l none ]

-- `while let Some(front) = queue.first() { if !takes(front) { break } chain.append(queue.pop()) }`,
-- on fuel. Popping until the queue is empty is the case where `takes` holds of every node.
pub pop_while : ℕ → (ℕ → Bool) → PoppedChain → Store → Option (PoppedChain × Store)
pop_while zero takes c s = none
pop_while (suc fuel) takes c s = elim (first s) [
  | none ↦ some (c, s)
  | some front ↦
      let rest = pop_while fuel takes (append c front) (pop s).1 in
      if takes front then rest else some (c, s)
]

-- `signal_all`, on fuel: the nodes in the order of their signals. A signaled waiter may free or
-- reuse its node at once: `reuse` is what its link then holds.
pub signal_all : ℕ → (reuse : ℕ → Option ℕ) → Option ℕ → Links → Option (List ℕ)
signal_all zero reuse cur next = none
signal_all (suc fuel) reuse none next = some []
signal_all (suc fuel) reuse (some node) next =
    elim (signal_all fuel reuse (next node) (update next node (reuse node))) [
      | none ↦ none
      | some rest ↦ some (node ∷ rest)
    ]
