-- ===== src/Notify/Moves.antt =====
-- src/notify.rs: the steps of a caller that touch no node but its own and leave the generation.
use xutex.Prelude.{
  ℕ, ◌≡◌, Bool, true, false, [], ◌∷◌, arith, inl, inr, count-append, count-erase, count-pos_of_has,
  erase_fresh, Bool-cases, not, ◌&&◌,
}
use xutex.Notify.Steps.{
  Onward, NotifyPlace, taking, flagging, claiming, unlocking, storing, restoring, unpublishing,
  one_popping, bumping, all_popping, leave_removing, NotifyWord, NotifyView, same_words, consider,
  take_permit, admit, raise_flag, claim_permit, lock_nodes, onward_place, unlock_nodes, drop_nodes,
  notify_first, store_permit, renotify, restore_permit, pop_oldest, await_told, leave_nodes,
  pass_on, notify_alone, NotifyCall, begin_notify,
}
use xutex.Notify.Invariant.{Before, Moved}

-- Whether the step of a caller at a place changes the generation or pops by it.
abbrev pub changes : NotifyPlace → Bool
changes bumping = true
changes all_popping = true
changes _ = false

words_same : (a b : NotifyWord) → same_words a b ≡ true → b ≡ a
words_same a b e = ground arith

module _ (w : Bool) (i : ℕ) (v : NotifyView) (b : Before i v) where
  take_permit-Moved :
      (again : Bool) (g : ℕ) (cur : NotifyWord)
      → v.caller.place ≡ taking again g cur
      → Moved i v (take_permit w again g cur v)
  unfolding take_permit consider
  take_permit-Moved again g cur e = elim (Bool-cases (not w && same_words v.core.word cur)) [
    | inl ok ↦
        let same = words_same v.core.word cur (ground arith) in
        rw (ok, same) (ground (arith, b.known, b.announced, b.emptied, b.raised))
    | inr failed ↦ rw failed (ground (arith, b.known, b.announced, b.emptied, b.raised))
  ]

  store_permit-Moved :
      (cur : NotifyWord) → v.caller.place ≡ storing cur → Moved i v (store_permit cur v)
  unfolding store_permit
  store_permit-Moved cur e = elim (Bool-cases (same_words v.core.word cur)) [
    | inl ok ↦
        let same = words_same v.core.word cur ok in
        let unflagged : cur.has_queue ≡ false = ground (arith, b.known.at) in
        let bare : v.core.word.has_queue ≡ false = rw same at unflagged in
        rw (ok, same) (ground (arith, b.known, b.announced, b.emptied, b.raised))
    | inr failed ↦ rw failed (ground (arith, b.known, b.announced, b.emptied, b.raised))
  ]

  restore_permit-Moved :
      (cur : NotifyWord) → v.caller.place ≡ restoring cur → Moved i v (restore_permit w cur v)
  unfolding restore_permit renotify
  restore_permit-Moved cur e = elim (Bool-cases (not w && same_words v.core.word cur)) [
    | inl ok ↦
        let same = words_same v.core.word cur (ground arith) in
        let unflagged : cur.has_queue ≡ false = ground (arith, b.known.at) in
        let bare : v.core.word.has_queue ≡ false = rw same at unflagged in
        rw (ok, same) (ground (arith, b.known, b.announced, b.emptied, b.raised))
    | inr failed ↦ rw failed (ground (arith, b.known, b.announced, b.emptied, b.raised))
  ]

  admit-Moved :
      (g : ℕ) (cur : NotifyWord)
      → v.caller.place ≡ claiming g cur
      → Moved i v (admit i g v.core.word v)
  unfolding admit
  admit-Moved g cur e = record {
    gen = ground (arith, b.known, b.announced, b.emptied, b.raised);
    lock = ground (arith, b.known, b.announced, b.emptied, b.raised);
    places = λ j. ground (arith, b.known.fresh, count-append j v.core.queue (i ∷ []));
    known = ground (arith, b.known, b.announced, b.emptied, b.raised);
    announced = ground (arith, b.known, b.announced, b.emptied, b.raised);
    emptied = ground (arith, b.known, b.announced, b.emptied, b.raised);
    raised = ground (arith, b.known, b.announced, b.emptied, b.raised);
    attended = ground (arith, b.known, b.announced, b.emptied, b.raised);
    stores = ground (arith, b.known, b.announced, b.emptied, b.raised);
    queue = ground (arith, b.known, b.announced, b.emptied, b.raised);
  }

  raise_flag-Moved : (g : ℕ) → v.caller.place ≡ flagging g → Moved i v (raise_flag i g v)
  unfolding raise_flag admit
  raise_flag-Moved g e = record {
    gen = ground (arith, b.known, b.announced, b.emptied, b.raised);
    lock = ground (arith, b.known, b.announced, b.emptied, b.raised);
    places = λ j. ground (arith, b.known.fresh, count-append j v.core.queue (i ∷ []));
    known = ground (arith, b.known, b.announced, b.emptied, b.raised);
    announced = ground (arith, b.known, b.announced, b.emptied, b.raised);
    emptied = ground (arith, b.known, b.announced, b.emptied, b.raised);
    raised = ground (arith, b.known, b.announced, b.emptied, b.raised);
    attended = ground (arith, b.known, b.announced, b.emptied, b.raised);
    stores = ground (arith, b.known, b.announced, b.emptied, b.raised);
    queue = ground (arith, b.known, b.announced, b.emptied, b.raised);
  }

  claim_permit-Moved :
      (g : ℕ) (cur : NotifyWord)
      → v.caller.place ≡ claiming g cur
      → Moved i v (claim_permit w i g cur v)
  unfolding claim_permit admit
  claim_permit-Moved g cur e = elim (Bool-cases (not w && same_words v.core.word cur)) [
    | inl ok ↦
        let same = words_same v.core.word cur (ground arith) in
        rw (ok, same) (ground (arith, b.known, b.announced, b.emptied, b.raised))
    | inr failed ↦ rw failed (admit-Moved g cur e)
  ]

  unlock_nodes-Moved : (k : Onward) → v.caller.place ≡ unlocking k → Moved i v (unlock_nodes k v)
  unfolding unlock_nodes onward_place
  unlock_nodes-Moved k e = ground (arith, b.known, b.announced, b.emptied, b.raised)

  drop_nodes-Moved : (k : Onward) → v.caller.place ≡ unpublishing k → Moved i v (drop_nodes k v)
  unfolding drop_nodes onward_place
  drop_nodes-Moved k e = ground (arith, b.known, b.announced, b.emptied, b.raised)

  pop_oldest-Moved : v.caller.place ≡ one_popping → Moved i v (pop_oldest v)
  unfolding pop_oldest
  pop_oldest-Moved e = ground (arith, b.known, b.announced, b.emptied, b.raised)

  leave_nodes-Moved : v.caller.place ≡ leave_removing → Moved i v (leave_nodes i v)
  unfolding leave_nodes
  leave_nodes-Moved e = record {
    gen = ground (arith, b.known, b.announced, b.emptied, b.raised, erase_fresh i v.core.queue);
    lock = ground (arith, b.known, b.announced, b.emptied, b.raised, erase_fresh i v.core.queue);
    places = λ j. ground (
      arith,
      b.known.fresh,
      count-erase i j v.core.queue,
      erase_fresh i v.core.queue,
      count-pos_of_has i v.core.queue,
      b.places,
    );
    known = ground (arith, b.known, b.announced, b.emptied, b.raised, erase_fresh i v.core.queue);
    announced =
        ground (arith, b.known, b.announced, b.emptied, b.raised, erase_fresh i v.core.queue);
    emptied = ground (arith, b.known, b.announced, b.emptied, b.raised, erase_fresh i v.core.queue);
    raised = ground (arith, b.known, b.announced, b.emptied, b.raised, erase_fresh i v.core.queue);
    attended =
        ground (arith, b.known, b.announced, b.emptied, b.raised, erase_fresh i v.core.queue);
    stores = ground (arith, b.known, b.announced, b.emptied, b.raised, erase_fresh i v.core.queue);
    queue = ground (arith, b.known, b.announced, b.emptied, b.raised, erase_fresh i v.core.queue);
  }

  pub notify_alone-Moved :
      (aux : ℕ → ℕ) (p : NotifyPlace)
      → v.caller.place ≡ p
      → changes p ≡ false
      → Moved i v (notify_alone w aux i p v)
  unfolding notify_alone consider lock_nodes notify_first renotify await_told pass_on
  notify_alone-Moved aux (taking again g cur) e c = take_permit-Moved again g cur e
  notify_alone-Moved aux (flagging g) e c = raise_flag-Moved g e
  notify_alone-Moved aux (claiming g cur) e c = claim_permit-Moved g cur e
  notify_alone-Moved aux (unlocking k) e c = unlock_nodes-Moved k e
  notify_alone-Moved aux (unpublishing k) e c = drop_nodes-Moved k e
  notify_alone-Moved aux (storing cur) e c = store_permit-Moved cur e
  notify_alone-Moved aux (restoring cur) e c = restore_permit-Moved cur e
  notify_alone-Moved aux one_popping e c = pop_oldest-Moved e
  notify_alone-Moved aux leave_removing e c = leave_nodes-Moved e
  notify_alone-Moved aux bumping e c = cc
  notify_alone-Moved aux all_popping e c = cc
  notify_alone-Moved aux _ e c = ground (arith, b.known, b.announced, b.emptied, b.raised)

  pub begin_notify-Moved :
      (c : NotifyCall) (p : NotifyPlace) → v.caller.place ≡ p → Moved i v (begin_notify c p v)
  unfolding begin_notify pass_on
  begin_notify-Moved _ _ e = ground (arith, b.known, b.announced, b.emptied, b.raised)
