-- ===== src/Queue/Tests.antt =====
-- xutex-pool/src/lib.rs: the queue's theorems at a queue of three nodes.
use xutex.Prelude.{List, ◌≡◌, refl, true, false, none, some, [], ◌∷◌, ◌==◌, if◌then◌else◌, arith}
use xutex.Queue.{Store, Links, push, pop, remove}
use xutex.Queue.Linked.{IsQueue}
use xutex.Queue.History.{
  QueueOp, pushes, pops, removes, writes, Answer, was_empty, popped, removed, written, run_op,
  run_ops, AllFit, run_ops-IsQueue,
}

abbrev links : Links
links p = if p == 8 then some 3 else if p == 3 then some 5 else none

abbrev three : Store
three = record { queue = record { first = 8; last = 5 }; next = links }

three-IsQueue : IsQueue three (8 ∷ 3 ∷ 5 ∷ [])
three-IsQueue = record {
  chain = (refl, (refl, (refl, refl)));
  last = refl;
  live = refl;
  distinct = ground arith;
}

-- A node is queued, removed from the middle, and queued again by its owner.
abbrev history : List QueueOp
history = pushes 6 ∷ pops ∷ removes 5 ∷ writes 5 none ∷ pushes 5 ∷ removes 9 ∷ pops ∷ []

abbrev answers : List Answer
answers =
    was_empty false
    ∷ popped (some 8)
    ∷ removed true
    ∷ written
    ∷ was_empty false
    ∷ removed false
    ∷ popped (some 3)
    ∷ []

history-AllFit : AllFit 20 history three (8 ∷ 3 ∷ 5 ∷ [])
unfolding AllFit run_op push pop remove
history-AllFit = (
  (λ e. omega (arith, e), refl, refl),
  (tt, (tt, (refl, ((λ e. omega (arith, e), refl, refl), (tt, (tt, tt)))))),
)

run_ops-IsQueue_example :
    (t : Store) × (run_ops 20 history three ≡ some (answers, t)) × IsQueue t (6 ∷ 5 ∷ [])
run_ops-IsQueue_example =
    run_ops-IsQueue 20 history three (8 ∷ 3 ∷ 5 ∷ []) three-IsQueue history-AllFit (omega arith)
