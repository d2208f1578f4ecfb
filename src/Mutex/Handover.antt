-- ===== src/Mutex/Handover.antt =====
-- src/lib.rs: every step of every caller keeps the mutex's invariant, the handoff included.
use xutex.Prelude.{
  ℕ, ◌+◌, ◌≤◌, ◌<◌, ◌≡◌, Bool, true, false, Bool-cases, inl, inr, refl, List, [], ◌∷◌, ◌==◌,
  if◌then◌else◌, arith, count, count_at, total, total-eq-zero, total-update, weight-le-total,
  update,
}
use xutex.Mutex.Steps.{
  Place, idle, handing, Caller, View, Mutex, view, put, new_mutex, begin_call, hand_over, act_from,
  Action, calls, takes_step, act, acts, Actors,
}
use xutex.Mutex.Invariant.{
  Inv, Before, Moved, owns, tags, in_hand, linked, Fresh, act_alone-Moved, begin_call-Moved,
}

module _ {n : ℕ} {s : Mutex} (inv : Inv n s) (i : ℕ) (lt : i < n) where
  view-Before : Before i (view i s)
  view-Before = record {
    owned = omega (arith, inv.owned, weight-le-total owns n s.caller i lt);
    tag = omega (arith, inv.tag, weight-le-total tags n s.caller i lt);
    places = omega (arith, inv.places i, weight-le-total (in_hand i) n s.caller i lt);
    fresh = inv.fresh i;
    empty = inv.empty;
  }

  put-Inv : {v : View} → Moved i (view i s) v → Inv n (put i s v)
  put-Inv {v} m = record {
    owned = omega (arith, inv.owned, m.owned, total-update owns n s.caller i v.caller lt);
    tag = omega (arith, inv.tag, m.tag, total-update tags n s.caller i v.caller lt);
    places = λ j.
        count_at s.caller v.caller i j linked _ _ _ _ _ _ (inv.places j) (m.places j)
          (omega (arith, total-update (in_hand j) n s.caller i v.caller lt));
    fresh = λ j. elim (Bool-cases (j == i)) [
      | inl mover ↦ rw mover m.fresh
      | inr other ↦ rw other (inv.fresh j)
    ];
    empty = m.empty;
    among = λ j h. elim (Bool-cases (j == i)) [
      | inl mover ↦ ground (arith, lt)
      | inr other ↦ inv.among j (rw other at h)
    ];
  }

  module _ (j : ℕ) (here : (s.caller i).place ≡ handing j) where
    in_hand_one : in_hand j (s.caller i) ≡ 1
    in_hand_one = rw here (ground arith)

    receiver_linked : linked (s.caller j) ≡ 1
    receiver_linked =
        let most : linked (s.caller j) ≤ 1 = linked-le (s.caller j) in
        omega (arith, most, inv.places j, in_hand_one, weight-le-total (in_hand j) n s.caller i lt)
      where
        linked-le : (c : Caller) → linked c ≤ 1
        linked-le c = ground arith

    giver_unlinked : linked (s.caller i) ≡ 0
    giver_unlinked = rw here refl

    apart : (i == j) ≡ false
    apart = elim (Bool-cases (i == j)) [
      | inl same ↦
          let e : i ≡ j = ground arith in
          let unlinked : linked (s.caller j) ≡ 0 = rw e at giver_unlinked in
          absurd (omega (arith, receiver_linked))
      | inr other ↦ other
    ]

    abbrev receiver : Caller
    receiver = record (s.caller j) { handed = true }

    abbrev giver : Caller
    giver = record (s.caller i) { place = idle }

    abbrev after : ℕ → Caller
    after = update (update s.caller j receiver) i giver

    after-sum :
        (w : Caller → ℕ)
        → w giver + w receiver + total w n s.caller
          ≡ w (s.caller i) + w (s.caller j) + total w n after
    after-sum w =
        let first =
          total-update w n s.caller j receiver (inv.among j (omega (arith, receiver_linked))) in
        let second = total-update w n (update s.caller j receiver) i giver lt in
        omega (arith, first, rw apart at second)

    -- A property of every caller: of the giver, of the receiver, and of the others.
    after_cases :
        (P : ℕ → Caller → Type 0)
        → P i giver
        → P j receiver
        → ((x : ℕ) → (x == i) ≡ false → (x == j) ≡ false → P x (s.caller x))
        → (x : ℕ) → P x (after x)
    after_cases P at_i at_j at_x x = elim (Bool-cases (x == i)) [
      | inl same ↦ let e : x ≡ i = ground arith in rw (same, e) at_i
      | inr other ↦ rw other (elim (Bool-cases (x == j)) [
        | inl hit ↦ let e : x ≡ j = ground arith in rw (hit, e) at_j
        | inr miss ↦ rw miss (at_x x other miss)
      ])
    ]

    receiver-owns : owns receiver ≡ 1 + owns (s.caller j)
    receiver-owns = ground (arith, receiver_linked)

    giver_owned : owns (s.caller i) ≡ 1
    giver_owned = rw (owns, here) refl

    giver_untagged : tags (s.caller i) ≡ 0
    giver_untagged = rw here refl

    receiver_free : (x : ℕ) → (in_hand x receiver ≡ in_hand x (s.caller j)) × (linked receiver ≡ 0)
    receiver_free x = (refl, ground (arith, receiver_linked))

    held_at : (x : ℕ) → in_hand x (s.caller i) ≡ (if x == j then 1 else 0)
    held_at x = rw here refl

    after-places : (x : ℕ) → count x s.queue + total (in_hand x) n after ≡ linked (after x)
    after-places =
        after_cases (λ x c. count x s.queue + total (in_hand x) n after ≡ linked c)
          (ground (arith, inv.places i, after-sum (in_hand i), held_at i, apart, giver_unlinked))
          (ground (
            arith,
            inv.places j,
            after-sum (in_hand j),
            held_at j,
            receiver_linked,
            receiver_free j,
          ))
          (λ x other miss. ground (arith, inv.places x, after-sum (in_hand x), held_at x))

    hand_over-Inv : Inv n (hand_over i j s)
    unfolding hand_over
    hand_over-Inv = rw (apart, hand_over) after-Inv
      where
        after-Inv : Inv n (record s { caller = after })
        after-Inv = record {
          owned = omega (arith, inv.owned, after-sum owns, receiver-owns, giver_owned);
          tag = omega (arith, inv.tag, after-sum tags, giver_untagged);
          places = after-places;
          fresh =
              after_cases (λ x c. Fresh c) tt (ground (arith, receiver_linked))
                (λ x other miss. inv.fresh x);
          empty = inv.empty;
          among =
              after_cases (λ x c. 0 < linked c → x < n) (λ l. lt)
                (λ l. inv.among j (omega (arith, receiver_linked)))
                (λ x other miss l. inv.among x l);
        }

  act_from-Inv : (w : Bool) (p : Place) → (s.caller i).place ≡ p → Inv n (act_from w i p s)
  unfolding act_from
  act_from-Inv w (handing j) e = hand_over-Inv j e
  act_from-Inv w p e = put-Inv (act_alone-Moved w i (view i s) view-Before p e)

  begun-Inv : (r : _) → Inv n (put i s (begin_call r (s.caller i).place (view i s)))
  begun-Inv r = put-Inv (begin_call-Moved true i (view i s) view-Before r _ refl)

pub new_mutex-Inv : (n : ℕ) → Inv n new_mutex
new_mutex-Inv n = record {
  owned = total-eq-zero owns n new_mutex.caller (λ i lt. refl);
  tag = total-eq-zero tags n new_mutex.caller (λ i lt. refl);
  places = λ j. omega (arith, total-eq-zero (in_hand j) n new_mutex.caller (λ i lt. refl));
  fresh = λ j. tt;
  empty = λ b. refl;
  among = λ j h. absurd (omega arith);
}

pub acts-Inv : {n : ℕ} (es : List Action) (s : Mutex) → Inv n s → Actors n es → Inv n (acts es s)
unfolding acts act
acts-Inv [] s inv a = inv
acts-Inv (calls i r ∷ es) s inv (lt, a) = acts-Inv es (act (calls i r) s) (begun-Inv inv i lt r) a
acts-Inv (takes_step w i ∷ es) s inv (lt, a) =
    acts-Inv es (act (takes_step w i) s) (act_from-Inv inv i lt w _ refl) a
