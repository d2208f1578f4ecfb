-- ===== src/WaitQueue/Popped.antt =====
-- src/wait_queue.rs: the popped nodes are signaled once each, oldest first.
use xutex.Prelude.{
  ℕ, zero, suc, ◌≤◌, ◌<◌, ◌≡◌, refl, sym, subst, ◌∙◌, inl, inr, Bool, Option, none, some, List, [],
  ◌∷◌, ◌++◌, arith, update, Distinct, get_last?, length, get_last?-append, Bool-cases, append_assoc,
  append-nil, if◌then◌else◌, Distinct-append_left, Distinct-append_apart,
}
use xutex.Queue.{Links, Store, pop}
use xutex.Queue.Linked.{
  Linked, IsQueue, head?, Linked-head, Linked-frame, get_last?-cons, get_last?-mem,
}
use xutex.Queue.Fifo.{pop-IsQueue}
use xutex.WaitQueue.{PoppedChain, new_chain, append, seal, pop_while, signal_all}

-- The longest prefix that the test accepts, and what follows it.
abbrev pub take_while : (ℕ → Bool) → List ℕ → List ℕ
take_while p [] = []
take_while p (x ∷ xs) = if p x then x ∷ take_while p xs else []

abbrev pub drop_while : (ℕ → Bool) → List ℕ → List ℕ
drop_while p [] = []
drop_while p (x ∷ xs) = if p x then drop_while p xs else x ∷ xs

length-take_while : (p : ℕ → Bool) (xs : List ℕ) → length (take_while p xs) ≤ length xs
length-take_while p [] = omega arith
length-take_while p (x ∷ xs) = ground (arith, length-take_while p xs)

-- A signaled chain visits its nodes in order, whatever the woken waiters do with theirs.
signal_all-Linked :
    (fuel : ℕ) (reuse : ℕ → Option ℕ) (o : Option ℕ) (next : Links) (xs : List ℕ)
    → Linked next o xs
    → Distinct xs
    → length xs < fuel
    → signal_all fuel reuse o next ≡ some xs
unfolding signal_all
signal_all-Linked zero reuse o next xs h d enough = absurd (omega arith)
signal_all-Linked (suc fuel) reuse o next [] h d enough = rw (h, signal_all)
signal_all-Linked (suc fuel) reuse o next (x ∷ xs) h d enough =
    let rest =
      signal_all-Linked fuel reuse (next x) (update next x (reuse x)) xs
        (Linked-frame next (next x) xs x (reuse x) h.1 d.0) d.1 (omega arith) in
    rw (h.0, signal_all) (ground (arith, rest))

-- The link of the last of the first nodes, cut, leaves a chain of these.
Linked-cut :
    (next : Links) (o : Option ℕ) (pre : List ℕ) (l : ℕ) (suf : List ℕ)
    → Linked next o (pre ++ suf)
    → get_last? pre ≡ some l
    → Distinct pre
    → Linked (update next l none) o pre
Linked-cut next o [] l suf h final d = cc
Linked-cut next o (x ∷ []) l suf h final d = ground arith
Linked-cut next o (x ∷ y ∷ ys) l suf h final d = (
  h.0,
  ground (arith, Linked-cut next (next x) (y ∷ ys) l suf h.1, get_last?-mem (y ∷ ys) l final),
)

-- The nodes `pre` are popped, and still linked to the nodes `suf` that the queue holds.
record IsPopped (c : PoppedChain) (s : Store) (pre suf : List ℕ) : Type 0 where
  head : c.head ≡ head? pre
  last : c.last ≡ get_last? pre
  chain : Linked s.next (head? (pre ++ suf)) (pre ++ suf)
  distinct : Distinct (pre ++ suf)
  queue : IsQueue s suf

head?-append :
    (pre : List ℕ) (x : ℕ) (c : PoppedChain)
    → c.head ≡ head? pre
    → (append c x).head ≡ head? (pre ++ x ∷ [])
unfolding append
head?-append [] x c e = rw (e, append)
head?-append (y ∷ ys) x c e = rw (e, append)

IsPopped-next :
    (c : PoppedChain) (s : Store) (pre : List ℕ) (x : ℕ) (suf : List ℕ)
    → IsPopped c s pre (x ∷ suf)
    → IsPopped (append c x) (pop s).1 (pre ++ x ∷ []) suf
unfolding append
IsPopped-next c s pre x suf i =
    let (front, queue, same) = pop-IsQueue s (x ∷ suf) i.queue in
    record {
      head = head?-append pre x c i.head;
      last = sym (get_last?-append pre x);
      chain =
          rw (append_assoc pre (x ∷ []) suf)
            (subst (λ n. Linked n (head? (pre ++ x ∷ suf)) (pre ++ x ∷ suf)) (sym same) i.chain);
      distinct = rw (append_assoc pre (x ∷ []) suf) i.distinct;
      queue = queue;
    }

abbrev Pops : Option (PoppedChain × Store) → List ℕ → List ℕ → Type 0
Pops r pre suf = (c : PoppedChain) × (s : Store) × (r ≡ some (c, s)) × IsPopped c s pre suf

pop_while-Pops :
    (fuel : ℕ) (takes : ℕ → Bool) (c : PoppedChain) (s : Store) (pre suf : List ℕ)
    → IsPopped c s pre suf
    → length suf < fuel
    → Pops (pop_while fuel takes c s) (pre ++ take_while takes suf) (drop_while takes suf)
unfolding pop_while
pop_while-Pops zero takes c s pre suf i enough = absurd (omega arith)
pop_while-Pops (suc fuel) takes c s pre [] i enough =
    (c, s, rw (i.queue.chain, pop_while), subst (λ t. IsPopped c s t []) (sym (append-nil pre)) i)
pop_while-Pops (suc fuel) takes c s pre (x ∷ suf) i enough = elim (Bool-cases (takes x)) [
  | inl yes_x ↦
      let rest =
        pop_while-Pops fuel takes (append c x) (pop s).1 (pre ++ x ∷ []) suf
          (IsPopped-next c s pre x suf i) (omega arith) in
      rw (i.queue.chain.0, pop_while, yes_x)
        (rw (append_assoc pre (x ∷ []) (take_while takes suf)) at rest)
  | inr no_x ↦ rw (i.queue.chain.0, pop_while, no_x, append-nil pre) (c, s, refl, i)
]

-- The store once the chain is cut off from the queue.
abbrev pub sealed : PoppedChain → Store → Store
sealed c s = record s { next = seal c s.next }

seal-IsQueue :
    (c : PoppedChain) (s : Store) (pre suf : List ℕ)
    → IsPopped c s pre suf
    → IsQueue (sealed c s) suf
unfolding seal
seal-IsQueue c s [] suf i = rw (i.last, seal) i.queue
seal-IsQueue c s (x ∷ xs) suf i =
    let (l, final) = get_last?-cons x xs in
    let out = Distinct-append_apart (x ∷ xs) suf l i.distinct (get_last?-mem (x ∷ xs) l final) in
    let here : c.last ≡ some l = i.last ∙ final in
    rw (here, seal)
      (record {
        chain = Linked-frame s.next _ suf l none i.queue.chain out;
        last = i.queue.last;
        live = i.queue.live;
        distinct = i.queue.distinct;
      })

seal-Linked_at :
    (c : PoppedChain) (next : Links) (pre : List ℕ) (l : ℕ) (suf : List ℕ)
    → Linked next c.head (pre ++ suf)
    → Distinct (pre ++ suf)
    → c.last ≡ some l
    → get_last? pre ≡ some l
    → Linked (seal c next) c.head pre
unfolding seal
seal-Linked_at c next pre l suf chain d last final =
    rw (last, seal) (Linked-cut next _ pre l suf chain final (Distinct-append_left pre suf d))

seal-Linked :
    (c : PoppedChain) (s : Store) (pre suf : List ℕ)
    → IsPopped c s pre suf
    → Linked (seal c s.next) c.head pre
seal-Linked c s [] suf i = i.head
seal-Linked c s (x ∷ xs) suf i =
    let (l, final) = get_last?-cons x xs in
    seal-Linked_at c s.next (x ∷ xs) l suf (rw i.head i.chain) i.distinct (i.last ∙ final) final

-- The nodes that the test accepts, up to the first that it refuses, are popped and then signaled
-- once each and oldest first, even if a woken waiter reuses its node at once; the others stay
-- queued in their order. A round of fuel for each node, and one more, is enough for both loops.
pub signal_all-pop_while :
    (s : Store) (xs : List ℕ) (takes : ℕ → Bool) (reuse : ℕ → Option ℕ) (fuel : ℕ)
    → IsQueue s xs
    → length xs < fuel
    → (c : PoppedChain) × (t : Store) × (pop_while fuel takes new_chain s ≡ some (c, t))
      × (signal_all fuel reuse c.head (seal c t.next) ≡ some (take_while takes xs))
      × IsQueue (sealed c t) (drop_while takes xs)
signal_all-pop_while s xs takes reuse fuel q enough =
    let start : IsPopped new_chain s [] xs = record {
      head = refl;
      last = refl;
      chain = rw (← Linked-head s.next _ xs q.chain) q.chain;
      distinct = q.distinct;
      queue = q;
    } in
    let (c, t, run, i) = pop_while-Pops fuel takes new_chain s [] xs start enough in
    (
      c,
      t,
      run,
      signal_all-Linked fuel reuse c.head (seal c t.next) (take_while takes xs)
          (seal-Linked c t _ _ i) (Distinct-append_left _ (drop_while takes xs) i.distinct)
          (omega (arith, length-take_while takes xs)),
      seal-IsQueue c t _ _ i,
    )
