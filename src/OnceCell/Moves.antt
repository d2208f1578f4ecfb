-- ===== src/OnceCell/Moves.antt =====
-- src/once_cell.rs: the steps of a caller that touch no node but its own.
use xutex.Prelude.{
  ℕ, ◌≡◌, Bool, [], ◌∷◌, arith, count-append, count-erase, count-pos_of_has, erase_fresh,
}
use xutex.OnceCell.State.{
  OncePlace, idle, initializing, park_checking, parked, leave_removing, OnceView,
}
use xutex.OnceCell.Steps.{
  check_ready, begin_set, decide, begin_init, write_value, publish, after_complete, lock_waiters,
  pop_all, revert, pop_one, park, continue_at, unlock_waiters, finish_telling, look, read_value,
  leave, leave_signaled, once_alone, OnceCall, gets, gets_or_inits, sets, init_returns, init_fails,
  init_panics, drops_future, begin_once,
}
use xutex.OnceCell.Invariant.{Before, Moved}

module _ (w : Bool) (i : ℕ) (v : OnceView) (b : Before i v) where
  pub once_alone-Moved : (p : OncePlace) → v.caller.place ≡ p → Moved i v (once_alone w i p v)
  unfolding once_alone check_ready begin_set decide begin_init write_value publish after_complete
      lock_waiters pop_all revert pop_one park continue_at unlock_waiters finish_telling look
      read_value leave leave_signaled
  once_alone-Moved park_checking e = record {
    role = ground (arith, b.filled, b.unpublished, b.sound.fresh);
    lock = ground (arith, b.filled, b.unpublished, b.sound.fresh);
    places = λ j. ground (arith, b.sound.fresh, count-append j v.cell.queue (i ∷ []));
    sound = ground (arith, b.filled, b.unpublished, b.sound.fresh);
    filled = ground (arith, b.filled, b.unpublished, b.sound.fresh);
    unpublished = ground (arith, b.filled, b.unpublished, b.sound.fresh);
    stays_ready = ground (arith, b.filled, b.unpublished, b.sound.fresh);
    stays_full = ground (arith, b.filled, b.unpublished, b.sound.fresh);
    attended = ground (arith, b.filled, b.unpublished, b.sound.fresh);
  }
  once_alone-Moved leave_removing e = record {
    role = ground (
      arith,
      b.filled,
      b.unpublished,
      count-pos_of_has i v.cell.queue,
      b.places,
      erase_fresh i v.cell.queue,
    );
    lock = ground (
      arith,
      b.filled,
      b.unpublished,
      count-pos_of_has i v.cell.queue,
      b.places,
      erase_fresh i v.cell.queue,
    );
    places = λ j. ground (
      arith,
      b.places,
      count-erase i j v.cell.queue,
      count-pos_of_has i v.cell.queue,
      erase_fresh i v.cell.queue,
    );
    sound = ground (
      arith,
      b.filled,
      b.unpublished,
      count-pos_of_has i v.cell.queue,
      b.places,
      erase_fresh i v.cell.queue,
    );
    filled = ground (
      arith,
      b.filled,
      b.unpublished,
      count-pos_of_has i v.cell.queue,
      b.places,
      erase_fresh i v.cell.queue,
    );
    unpublished = ground (
      arith,
      b.filled,
      b.unpublished,
      count-pos_of_has i v.cell.queue,
      b.places,
      erase_fresh i v.cell.queue,
    );
    stays_ready = ground (
      arith,
      b.filled,
      b.unpublished,
      count-pos_of_has i v.cell.queue,
      b.places,
      erase_fresh i v.cell.queue,
    );
    stays_full = ground (
      arith,
      b.filled,
      b.unpublished,
      count-pos_of_has i v.cell.queue,
      b.places,
      erase_fresh i v.cell.queue,
    );
    attended = ground (
      arith,
      b.filled,
      b.unpublished,
      count-pos_of_has i v.cell.queue,
      b.places,
      erase_fresh i v.cell.queue,
    );
  }
  once_alone-Moved _ e = ground (arith, b.filled, b.unpublished)

  pub begin_once-Moved :
      (c : OnceCall) (p : OncePlace) → v.caller.place ≡ p → Moved i v (begin_once c p v)
  unfolding begin_once
  begin_once-Moved gets idle e = ground (arith, b.filled, b.unpublished)
  begin_once-Moved gets_or_inits idle e = ground (arith, b.filled, b.unpublished)
  begin_once-Moved (sets x) idle e = ground (arith, b.filled, b.unpublished)
  begin_once-Moved (init_returns x) initializing e = ground (arith, b.filled, b.unpublished)
  begin_once-Moved init_fails initializing e = ground (arith, b.filled, b.unpublished)
  begin_once-Moved init_panics initializing e = ground (arith, b.filled, b.unpublished)
  begin_once-Moved drops_future parked e = ground (arith, b.filled, b.unpublished)
  begin_once-Moved _ _ e = ground (arith, b.sound, b.filled, b.unpublished)
