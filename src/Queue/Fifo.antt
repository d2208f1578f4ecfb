-- ===== src/Queue/Fifo.antt =====
-- xutex-pool/src/lib.rs: `push`, `pop` and `remove` on the linked nodes are those of a FIFO list.
use xutex.Prelude.{
  ℕ, zero, suc, ◌<◌, ◌≡◌, ◌≢◌, refl, sym, subst, ◌∙◌, inl, inr, Bool, false, Option, none, some,
  List, [], ◌∷◌, ◌++◌, ◌==◌, arith, has, erase, get_last?, is_nil, length, get_last?-append,
  Bool-cases, Distinct-append_one, has-append_false, append_assoc, append-nil, if◌then◌else◌,
  has-append_middle, Distinct-append_middle, get_last?-append_cons, ==_refl,
}
use xutex.Queue.{Store, typed, erased, push, pop, advance, remove, remove_loop, unlink}
use xutex.Queue.Linked.{
  Linked, IsQueue, head?, Linked-head, Linked-append, Linked-skip, Linked-tail, get_last?-cons,
  get_last?-mem, get_last?-nonzero,
}

abbrev pub drop_one : List ℕ → List ℕ
drop_one [] = []
drop_one (x ∷ xs) = xs

-- A node that is live, not queued and without a link goes to the end of the list; the answer says
-- whether the list was empty.
pub push-IsQueue :
    (s : Store) (xs : List ℕ) (e : ℕ)
    → IsQueue s xs
    → e ≢ 0
    → has e xs ≡ false
    → s.next e ≡ none
    → ((push e s).0 ≡ is_nil xs) × IsQueue (push e s).1 (xs ++ e ∷ [])
unfolding push
push-IsQueue s [] e q live out fresh = ground (arith, q.last)
push-IsQueue s (x ∷ xs) e q live out fresh =
    let (l, final) = get_last?-cons x xs in
    let here : typed s.queue.last ≡ some l = q.last ∙ final in
    rw (here, push)
      (
        refl,
        record {
          chain = Linked-append s.next _ (x ∷ xs) l e q.chain final q.distinct out fresh;
          last = rw (get_last?-append (x ∷ xs) e) (ground arith);
          live = has-append_false 0 (x ∷ xs) (e ∷ []) q.live (ground arith);
          distinct = Distinct-append_one (x ∷ xs) e q.distinct out;
        },
      )

-- The oldest node is taken out and the rest of the list stays; on the empty list nothing changes.
-- No link is written.
pub pop-IsQueue :
    (s : Store) (xs : List ℕ)
    → IsQueue s xs
    → ((pop s).0 ≡ head? xs) × IsQueue (pop s).1 (drop_one xs) × ((pop s).1.next ≡ s.next)
unfolding pop
pop-IsQueue s [] q = rw (q.chain, pop) (refl, q, refl)
pop-IsQueue s (x ∷ []) q =
    rw (q.chain.0, pop, q.chain.1, advance)
      (refl, record { chain = refl; last = refl; live = refl; distinct = tt }, refl)
pop-IsQueue s (x ∷ y ∷ ys) q =
    rw (q.chain.0, pop, q.chain.1.0, advance)
      (
        refl,
        record {
          chain = (ground (arith, q.live), q.chain.1.1);
          last = q.last;
          live = ground (arith, q.live);
          distinct = q.distinct.1;
        },
        refl,
      )

-- The last pointer, after `c` has left the list.
unlink-last :
    (pre : List ℕ) (c : ℕ) (suf : List ℕ) (l : ℕ)
    → typed l ≡ get_last? (pre ++ c ∷ suf)
    → has 0 (pre ++ suf) ≡ false
    → has c suf ≡ false
    → typed (if l == c then erased (get_last? pre) else l) ≡ get_last? (pre ++ suf)
unlink-last [] c [] l h live out = ground arith
unlink-last (x ∷ xs) c [] l h live out =
    let (p, final) = get_last?-cons x xs in
    let nil = append-nil (x ∷ xs) in
    let clear = subst (λ t. has 0 t ≡ false) nil live in
    subst (λ t. typed (if l == c then erased (get_last? (x ∷ xs)) else l) ≡ get_last? t) (sym nil)
      (ground
        (arith, h, final, get_last?-append (x ∷ xs) c, get_last?-nonzero (x ∷ xs) p final clear))
unlink-last pre c (y ∷ ys) l h live out =
    let (p, final) = get_last?-cons y ys in
    rw (get_last?-append_cons pre y ys) (
      ground
        (arith, h, final, get_last?-append_cons pre c (y ∷ ys), get_last?-mem (y ∷ ys) p final))

unlink-chain_behind :
    (pre : List ℕ) (p c : ℕ) (suf : List ℕ) (s : Store)
    → IsQueue s (pre ++ c ∷ suf)
    → get_last? pre ≡ some p
    → Linked
        (unlink c (get_last? pre) c s).next
        (typed (unlink c (get_last? pre) c s).queue.first)
        (pre ++ suf)
unfolding unlink
unlink-chain_behind pre p c suf s q final =
    rw (final, unlink) (Linked-skip s.next _ pre p c suf q.chain final q.distinct)

unlink-chain :
    (pre : List ℕ) (c : ℕ) (suf : List ℕ) (s : Store)
    → IsQueue s (pre ++ c ∷ suf)
    → has 0 (pre ++ suf) ≡ false
    → Linked
        (unlink c (get_last? pre) c s).next
        (typed (unlink c (get_last? pre) c s).queue.first)
        (pre ++ suf)
unfolding unlink
unlink-chain [] c [] s q live = ground (arith, q.chain)
unlink-chain [] c (y ∷ ys) s q live =
    let to_y : s.next c ≡ some y = q.chain.1.0 in
    rw (to_y, unlink) (ground (arith, live), q.chain.1.1)
unlink-chain (x ∷ xs) c suf s q live =
    let (p, final) = get_last?-cons x xs in unlink-chain_behind (x ∷ xs) p c suf s q final

-- The node `c`, unlinked from its predecessor, has left the list.
unlink-IsQueue :
    (pre : List ℕ) (c : ℕ) (suf : List ℕ) (s : Store)
    → IsQueue s (pre ++ c ∷ suf)
    → IsQueue (unlink c (get_last? pre) c s) (pre ++ suf)
unfolding unlink
unlink-IsQueue pre c suf s q =
    let (distinct, out) = Distinct-append_middle pre c suf q.distinct in
    let live = (has-append_middle 0 pre c suf q.live).0 in
    record {
      chain = unlink-chain pre c suf s q live;
      last = unlink-last pre c suf s.queue.last q.last live out;
      live = live;
      distinct = distinct;
    }

-- The loop, past the nodes of `pre`, takes the node out of `suf`.
abbrev Removes : Option (Bool × Store) → ℕ → List ℕ → List ℕ → Type 0
Removes r e pre suf = (s' : Store) × (r ≡ some (has e suf, s')) × IsQueue s' (pre ++ erase e suf)

Removes-later :
    (h r : Option (Bool × Store)) (e : ℕ) (pre : List ℕ) (c : ℕ) (suf : List ℕ)
    → (c == e) ≡ false
    → Removes r e (pre ++ c ∷ []) suf
    → Removes (if c == e then h else r) e pre (c ∷ suf)
Removes-later h r e pre c suf miss (s', run, is) =
    (s', ground (arith, run), rw miss (rw (append_assoc pre (c ∷ []) (erase e suf)) at is))

remove_loop-Removes :
    (fuel e : ℕ) (pre suf : List ℕ) (s : Store)
    → IsQueue s (pre ++ suf)
    → length suf < fuel
    → Removes (remove_loop fuel e (get_last? pre) (head? suf) s) e pre suf
unfolding remove_loop
remove_loop-Removes zero e pre suf s q enough = absurd (omega arith)
remove_loop-Removes (suc fuel) e pre [] s q enough = (s, refl, q)
remove_loop-Removes (suc fuel) e pre (c ∷ suf) s q enough = elim (Bool-cases (c == e)) [
  | inl hit ↦
      let same : c ≡ e = ground arith in
      rw (← same, ==_refl c) (_, refl, unlink-IsQueue pre c suf s q)
  | inr miss ↦
      let here : IsQueue s ((pre ++ c ∷ []) ++ suf) = rw (append_assoc pre (c ∷ []) suf) q in
      let link : s.next c ≡ head? suf =
        Linked-head s.next _ suf (Linked-tail s.next _ pre c suf q.chain) in
      let rest = remove_loop-Removes fuel e (pre ++ c ∷ []) suf s here (omega arith) in
      rw link (Removes-later _ _ e pre c suf miss (rw (get_last?-append pre c) at rest))
]

-- `remove`, given a round for each node and one more, ends; it says whether the node was queued,
-- and takes exactly that node out, wherever it stands.
pub remove-IsQueue :
    (s : Store) (xs : List ℕ) (e fuel : ℕ)
    → IsQueue s xs
    → length xs < fuel
    → (s' : Store) × (remove fuel e s ≡ some (has e xs, s')) × IsQueue s' (erase e xs)
unfolding remove
remove-IsQueue s xs e fuel q enough =
    rw (Linked-head s.next _ xs q.chain, remove) (remove_loop-Removes fuel e [] xs s q enough)
