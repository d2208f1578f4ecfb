-- ===== src/Queue/History.antt =====
-- xutex-pool/src/lib.rs, `SignalQueue`: whole histories of calls, with the writes of owners to the links
-- of nodes that are not queued.
use xutex.Prelude.{
  ℕ, ◌+◌, ◌≤◌, ◌<◌, ◌≡◌, ◌≢◌, refl, ap, Bool, false, Option, none, some, List, [], ◌∷◌, ◌++◌, arith,
  has, erase, is_nil, length, length-append, update,
}
use xutex.Queue.{Store, push, pop, remove}
use xutex.Queue.Linked.{IsQueue, head?, Linked-frame}
use xutex.Queue.Fifo.{push-IsQueue, pop-IsQueue, remove-IsQueue, drop_one}

-- A call of the queue, or a write of an owner to its node's link.
pub data QueueOp : Type 0 where
  pushes : (e : ℕ) → QueueOp
  pops : QueueOp
  removes : (e : ℕ) → QueueOp
  writes : (e : ℕ) (link : Option ℕ) → QueueOp

pub data Answer : Type 0 where
  was_empty : Bool → Answer
  popped : Option ℕ → Answer
  removed : Bool → Answer
  written : Answer

removed_with : Option (Bool × Store) → Option (Answer × Store)
removed_with none = none
removed_with (some (found, s)) = some (removed found, s)

unfoldable pub run_op : (fuel : ℕ) → QueueOp → Store → Option (Answer × Store)
unfolding removed_with
run_op fuel (pushes e) s = some (was_empty (push e s).0, (push e s).1)
run_op fuel pops s = some (popped (pop s).0, (pop s).1)
run_op fuel (removes e) s = removed_with (remove fuel e s)
run_op fuel (writes e link) s = some (written, record s { next = update s.next e link })

-- The same on a list.
abbrev pub list_op : QueueOp → List ℕ → Answer × List ℕ
list_op (pushes e) xs = (was_empty (is_nil xs), xs ++ e ∷ [])
list_op pops xs = (popped (head? xs), drop_one xs)
list_op (removes e) xs = (removed (has e xs), erase e xs)
list_op (writes e link) xs = (written, xs)

-- A node that is pushed is live, not queued, and has no link; an owner writes no link while its node is
-- queued.
abbrev pub Fits : QueueOp → Store → List ℕ → Type 0
Fits (pushes e) s xs = (e ≢ 0) × (has e xs ≡ false) × (s.next e ≡ none)
Fits (writes e link) s xs = has e xs ≡ false
Fits _ s xs = Unit {0}

length-erase : (e : ℕ) (xs : List ℕ) → length (erase e xs) ≤ length xs
length-erase e [] = omega arith
length-erase e (x ∷ xs) = ground (arith, length-erase e xs)

length-list_op : (op : QueueOp) (xs : List ℕ) → length (list_op op xs).1 ≤ length xs + 1
length-list_op (pushes e) xs = omega (arith, length-append xs (e ∷ []))
length-list_op pops [] = omega arith
length-list_op pops (x ∷ xs) = omega arith
length-list_op (removes e) xs = omega (arith, length-erase e xs)
length-list_op (writes e link) xs = omega arith

run_op-IsQueue :
    (fuel : ℕ) (op : QueueOp) (s : Store) (xs : List ℕ)
    → IsQueue s xs
    → Fits op s xs
    → length xs < fuel
    → (t : Store) × (run_op fuel op s ≡ some ((list_op op xs).0, t)) × IsQueue t (list_op op xs).1
unfolding run_op removed_with
run_op-IsQueue fuel (pushes e) s xs q (live, out, fresh) enough =
    let (answer, is) = push-IsQueue s xs e q live out fresh in
    ((push e s).1, ap (λ b. some (was_empty b, (push e s).1)) answer, is)
run_op-IsQueue fuel pops s xs q fits enough =
    let (answer, is, same) = pop-IsQueue s xs q in
    ((pop s).1, ap (λ o. some (popped o, (pop s).1)) answer, is)
run_op-IsQueue fuel (removes e) s xs q fits enough =
    let (t, ran, is) = remove-IsQueue s xs e fuel q enough in (t, ap removed_with ran, is)
run_op-IsQueue fuel (writes e link) s xs q out enough = (
  record s { next = update s.next e link },
  refl,
  record {
    chain = Linked-frame s.next _ xs e link q.chain out;
    last = q.last;
    live = q.live;
    distinct = q.distinct;
  },
)

after_op : Option (Answer × Store) → Store → Store
after_op none s = s
after_op (some (a, t)) s = t

with_answer : Answer → Option (List Answer × Store) → Option (List Answer × Store)
with_answer a none = none
with_answer a (some (rest, s)) = some (a ∷ rest, s)

-- A history, with its answers; none if the fuel of a `remove` runs out.
unfoldable pub run_ops : (fuel : ℕ) → List QueueOp → Store → Option (List Answer × Store)
unfolding with_answer
run_ops fuel [] s = some ([], s)
run_ops fuel (op ∷ ops) s = elim (run_op fuel op s) [
  | none ↦ none
  | some (a, t) ↦ with_answer a (run_ops fuel ops t)
]

abbrev pub list_ops : List QueueOp → List ℕ → List Answer × List ℕ
list_ops [] xs = ([], xs)
list_ops (op ∷ ops) xs =
    let (a, ys) = list_op op xs in let (rest, zs) = list_ops ops ys in (a ∷ rest, zs)

-- Each call fits the state in which it is made.
unfoldable pub AllFit : (fuel : ℕ) → List QueueOp → Store → List ℕ → Type 0
unfolding after_op
AllFit fuel [] s xs = Unit {0}
AllFit fuel (op ∷ ops) s xs =
    Fits op s xs × AllFit fuel ops (after_op (run_op fuel op s) s) (list_op op xs).1

run_ops-cons :
    (fuel : ℕ) (op : QueueOp) (ops : List QueueOp) (s t u : Store) (a : Answer) (rest : List Answer)
    → run_op fuel op s ≡ some (a, t)
    → run_ops fuel ops t ≡ some (rest, u)
    → run_ops fuel (op ∷ ops) s ≡ some (a ∷ rest, u)
unfolding run_ops with_answer
run_ops-cons fuel op ops s t u a rest ran all = rw (run_ops, ran) (ap (with_answer a) all)

-- For a queue that stands for the list `xs` of its nodes, oldest first, and any history of pushes of
-- nodes that are live, not queued and without a link, of pops, of removals, and of owners' writes to the
-- links of nodes that are not queued: given fuel of more than the nodes and calls together, every call
-- ends and answers as the same call on the list does, and the queue stands for the list in the end.
pub run_ops-IsQueue :
    (fuel : ℕ) (ops : List QueueOp) (s : Store) (xs : List ℕ)
    → IsQueue s xs
    → AllFit fuel ops s xs
    → length xs + length ops < fuel
    → (t : Store) × (run_ops fuel ops s ≡ some ((list_ops ops xs).0, t))
      × IsQueue t (list_ops ops xs).1
unfolding run_ops AllFit after_op with_answer
run_ops-IsQueue fuel [] s xs q fits enough = (s, refl, q)
run_ops-IsQueue fuel (op ∷ ops) s xs q (fits, rest) enough =
    let (t, ran, is) = run_op-IsQueue fuel op s xs q fits (omega (arith, enough)) in
    let (last, all, end) =
      run_ops-IsQueue fuel ops t (list_op op xs).1 is (rw ran at rest)
        (omega (arith, enough, length-list_op op xs)) in
    (last, run_ops-cons fuel op ops s t last (list_op op xs).0 _ ran all, end)
