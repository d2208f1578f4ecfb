-- ===== src/Queue.antt =====
-- xutex-pool/src/lib.rs, `SignalQueue`: the intrusive FIFO of waiter nodes. A node is its address, a
-- number; address 0 is the null pointer. The queue holds raw pointers, the nodes hold the links.
pub mod Linked
pub mod Fifo
pub mod History
mod Tests
use xutex.Prelude.{ℕ, zero, suc, Bool, true, false, Option, none, some, ◌==◌, if◌then◌else◌, update}

-- `Node::get_next` of every node, as memory.
abbrev pub Links : Type 0
Links = ℕ → Option ℕ

pub record SignalQueue : Type 0 where
  pub first : ℕ
  pub last : ℕ

-- The queue with the nodes' links: all that its methods read or write.
pub record Store : Type 0 where
  pub queue : SignalQueue
  pub next : Links

-- `typed`: the null pointer is `None`.
abbrev pub typed : ℕ → Option ℕ
typed p = if p == 0 then none else some p

-- `map_or(null_mut(), erase)`.
abbrev pub erased : Option ℕ → ℕ
erased none = 0
erased (some p) = p

abbrev pub new_queue : SignalQueue
new_queue = record { first = 0; last = 0 }

-- Returns whether the queue was empty before.
unfoldable pub push : ℕ → Store → Bool × Store
push entry s = elim (typed s.queue.last) [
  | some old ↦ (
    false,
    record {
      queue = record { first = s.queue.first; last = entry };
      next = update s.next old (some entry);
    },
  )
  | none ↦ (true, record { queue = record { first = entry; last = entry }; next = s.next })
]

abbrev pub first : Store → Option ℕ
first s = typed s.queue.first

unfoldable pub is_empty : Store → Bool
is_empty s = s.queue.first == 0

-- The new head after the first node is taken out.
advance : ℕ → Option ℕ → Store → Option ℕ × Store
advance f (some n) s = (some f, record s { queue = record { first = n; last = s.queue.last } })
advance f none s = (some f, record s { queue = new_queue })

unfoldable pub pop : Store → Option ℕ × Store
unfolding advance
pop s = elim (typed s.queue.first) [ none ↦ (none, s) | some f ↦ advance f (s.next f) s ]

-- The node `cur` is the entry: unlink it from `prev`.
unlink : ℕ → Option ℕ → ℕ → Store → Store
unlink entry prev cur s = record {
  queue = record {
    first = elim prev [ some p ↦ s.queue.first | none ↦ erased (s.next cur) ];
    last = if s.queue.last == entry then erased prev else s.queue.last;
  };
  next = elim prev [ some p ↦ update s.next p (s.next cur) | none ↦ s.next ];
}

-- The `while let` of `remove`, on fuel: one round for each node of the queue is enough.
remove_loop : ℕ → ℕ → Option ℕ → Option ℕ → Store → Option (Bool × Store)
remove_loop zero entry prev cur s = none
remove_loop (suc fuel) entry prev none s = some (false, s)
remove_loop (suc fuel) entry prev (some c) s =
    let rest = remove_loop fuel entry (some c) (s.next c) s in
    if c == entry then some (true, unlink entry prev c s) else rest

unfoldable pub remove : ℕ → ℕ → Store → Option (Bool × Store)
unfolding remove_loop unlink
remove fuel entry s = remove_loop fuel entry none (typed s.queue.first) s
