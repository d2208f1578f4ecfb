-- ===== src/Mutex/Invariant.antt =====
-- src/lib.rs: who owns the mutex, who has its queue to itself, and where each node is linked.
use xutex.Prelude.{
  ℕ, ◌+◌, ◌≤◌, ◌<◌, ◌≡◌, Bool, true, false, [], ◌∷◌, ◌==◌, if◌then◌else◌, arith, count,
  count-append, count-erase, count-pos_of_has, erase_fresh, total,
}
use xutex.Mutex.Steps.{
  Word, unlocked, locked, updating, tagged, Place, idle, trying, starting, tagging, pushing, parked,
  holding, dropping, retagging, popping, handing, leaving, leave_tagging, removing, awaiting,
  Caller, View, Mutex, try_lock, next_round, start_queue, tag_queue, push_and_publish,
  await_handoff, drop_guard, retag, pop_waiter, seek_queue, leave_queue, act_alone, Request, tries,
  locks, drops_guard, drops_future, begin_call,
}

-- Whether the node of a caller there has been queued, and its wait has not ended.
abbrev pub waits : Place → Bool
waits parked = true
waits leaving = true
waits leave_tagging = true
waits removing = true
waits awaiting = true
waits _ = false

-- Whether a caller there owns the mutex, if no handoff reached it.
abbrev pub owner_place : Place → ℕ
owner_place holding = 1
owner_place dropping = 1
owner_place (retagging w) = 1
owner_place popping = 1
owner_place (handing j) = 1
owner_place _ = 0

abbrev pub owns : Caller → ℕ
owns c = owner_place c.place + (if waits c.place then if c.handed then 1 else 0 else 0)

-- Whether it has the queue to itself.
abbrev pub queue_owner : Place → ℕ
queue_owner pushing = 1
queue_owner popping = 1
queue_owner removing = 1
queue_owner _ = 0

abbrev pub tags : Caller → ℕ
tags c = queue_owner c.place

-- Whether it has popped the node of `j` and not yet signaled it.
abbrev pub in_hand : ℕ → Caller → ℕ
in_hand j c = elim c.place [ handing k ↦ if j == k then 1 else 0 | _ ↦ 0 ]

-- Whether its node is queued or in somebody's hand.
abbrev pub linked : Caller → ℕ
linked c = if waits c.place then if c.handed then 0 else 1 else 0

abbrev pub word_owned : Word → ℕ
word_owned unlocked = 0
word_owned _ = 1

abbrev pub word_tagged : Word → ℕ
word_tagged updating = 1
word_tagged tagged = 1
word_tagged _ = 0

abbrev pub bare : Word → Bool
bare unlocked = true
bare locked = true
bare updating = true
bare _ = false

abbrev pub Fresh : Caller → Type 0
Fresh c = elim c.place [
  | trying ↦ c.handed ≡ false
  | starting ↦ c.handed ≡ false
  | tagging ↦ c.handed ≡ false
  | pushing ↦ c.handed ≡ false
  | _ ↦ Unit {0}
]

pub record Inv (n : ℕ) (s : Mutex) : Type 0 where
  -- The mutex is unlocked, or exactly one caller owns it.
  pub owned : total owns n s.caller ≡ word_owned s.word
  -- The queue is tagged or being made exactly while one caller has it to itself.
  pub tag : total tags n s.caller ≡ word_tagged s.word
  -- A caller that has yet to be signaled is linked once, anyone else is not.
  pub places : (j : ℕ) → count j s.queue + total (in_hand j) n s.caller ≡ linked (s.caller j)
  pub fresh : (j : ℕ) → Fresh (s.caller j)
  pub empty : bare s.word ≡ true → s.queue ≡ []
  pub among : (j : ℕ) → 0 < linked (s.caller j) → j < n

-- What a step of caller `i` may rely on.
pub record Before (i : ℕ) (v : View) : Type 0 where
  pub owned : owns v.caller ≤ word_owned v.word
  pub tag : tags v.caller ≤ word_tagged v.word
  pub places : count i v.queue + in_hand i v.caller ≤ linked v.caller
  pub fresh : Fresh v.caller
  pub empty : bare v.word ≡ true → v.queue ≡ []

-- What it does, if it touches no node but its own.
pub record Moved (i : ℕ) (v v' : View) : Type 0 where
  pub owned : owns v'.caller + word_owned v.word ≡ owns v.caller + word_owned v'.word
  pub tag : tags v'.caller + word_tagged v.word ≡ tags v.caller + word_tagged v'.word
  pub places :
      (j : ℕ)
      → count j v'.queue + in_hand j v'.caller + (if j == i then linked v.caller else 0)
        ≡ count j v.queue + in_hand j v.caller + (if j == i then linked v'.caller else 0)
  pub fresh : Fresh v'.caller
  pub empty : bare v'.word ≡ true → v'.queue ≡ []

module _ (w : Bool) (i : ℕ) (v : View) (b : Before i v) where
  pub act_alone-Moved : (p : Place) → v.caller.place ≡ p → Moved i v (act_alone w i p v)
  unfolding act_alone try_lock next_round start_queue tag_queue push_and_publish await_handoff
      drop_guard retag pop_waiter seek_queue leave_queue
  act_alone-Moved trying e = ground arith
  act_alone-Moved starting e = ground arith
  act_alone-Moved tagging e = ground arith
  act_alone-Moved pushing e = ground (arith, count-append _ v.queue (i ∷ []))
  act_alone-Moved parked e = ground arith
  act_alone-Moved dropping e = ground arith
  act_alone-Moved (retagging seen) e = ground arith
  act_alone-Moved popping e = ground arith
  act_alone-Moved leaving e = ground arith
  act_alone-Moved leave_tagging e = ground arith
  act_alone-Moved removing e = record {
    owned = ground (arith, b.places, count-pos_of_has i v.queue);
    tag = ground arith;
    places = λ j. ground (
      arith,
      b.places,
      count-erase i j v.queue,
      count-pos_of_has i v.queue,
      erase_fresh i v.queue,
    );
    fresh = ground arith;
    empty = ground arith;
  }
  act_alone-Moved awaiting e = ground arith
  act_alone-Moved idle e = ground arith
  act_alone-Moved holding e = ground arith
  act_alone-Moved (handing j) e = ground arith

  pub begin_call-Moved :
      (r : Request) (p : Place) → v.caller.place ≡ p → Moved i v (begin_call r p v)
  unfolding begin_call try_lock
  begin_call-Moved tries idle e = ground arith
  begin_call-Moved locks idle e = ground arith
  begin_call-Moved drops_guard holding e = ground arith
  begin_call-Moved drops_future parked e = ground arith
  begin_call-Moved _ _ e = ground (arith, b.fresh)
