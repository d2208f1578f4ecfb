-- ===== src/WaitQueue/Awake.antt =====
-- src/wait_queue.rs: the wakeups of the owner of a node that is signaled.
use xutex.Prelude.{
  ℕ, ◌≡◌, ◌⊎◌, ◌==◌, Bool, true, false, inl, inr, refl, Option, none, some, List, [], ◌∷◌, ◌&&◌,
  arith, ==_refl,
}
use xutex.WaitQueue.Handshake.{
  WakerSlot, sync_waker, async_waker, Published, uninit, init_waiting, signaled, OwnerPlace,
  swapping, parking, loading, pending, polling, registering, rechecking, finished, SignalerPlace,
  taking, publishing, unparking, waking, ended, Handshake, register, recheck, owner_step,
  publish_value, signaler_step, HandshakeEvent, owner_runs, signaler_runs, is_polled, poll_again,
  handshake_step, handshake_steps, thread_node, future_node, SameWaker, Polls, handshake_reach,
  wakeup_sent, resumes,
}

abbrev is_sync : WakerSlot → Bool
is_sync sync_waker = true
is_sync _ = false

abbrev is_async : ℕ → WakerSlot → Bool
is_async w (async_waker u) = u == w
is_async w _ = false

abbrev is_uninit : Published → Bool
is_uninit uninit = true
is_uninit _ = false

abbrev is_waiting : Published → Bool
is_waiting init_waiting = true
is_waiting _ = false

abbrev is_out : Published → Bool
is_out signaled = true
is_out _ = false

-- A thread's place and its value, before the value is published.
abbrev thread_early : OwnerPlace → Published → Bool
thread_early swapping v = is_uninit v
thread_early parking v = is_waiting v
thread_early loading v = is_waiting v
thread_early _ v = false

-- While it is to be unparked, and at the end.
abbrev thread_late : OwnerPlace → Published → Bool
thread_late parking v = is_out v
thread_late loading v = is_out v
thread_late finished v = true
thread_late _ v = false

abbrev thread_end : OwnerPlace → Published → Bool → Bool
thread_end swapping v t = is_out v
thread_end parking v t = is_out v && t
thread_end loading v t = is_out v
thread_end finished v t = true
thread_end _ v t = false

abbrev thread_ok : SignalerPlace → Handshake → Bool
thread_ok taking h = is_sync h.slot && thread_early h.owner h.value
thread_ok (publishing u) h = is_sync u && thread_early h.owner h.value
thread_ok unparking h = thread_late h.owner h.value
thread_ok (waking w) h = false
thread_ok ended h = thread_end h.owner h.value h.token

-- A future's place, whose wakers are all `w`: before its waker is taken, before its value is
-- published, and after that.
abbrev future_armed : ℕ → OwnerPlace → Bool
future_armed w (pending u) = u == w
future_armed w (polling u) = u == w
future_armed w (registering u) = u == w
future_armed w _ = false

abbrev future_early : ℕ → OwnerPlace → Bool
future_early w (rechecking u) = u == w
future_early w o = future_armed w o

abbrev future_late : ℕ → OwnerPlace → Bool
future_late w finished = true
future_late w o = future_early w o

abbrev future_end : ℕ → OwnerPlace → Bool → Bool
future_end w (pending u) b = (u == w) && b
future_end w (registering u) b = (u == w) && b
future_end w o b = future_late w o

abbrev future_ok : ℕ → SignalerPlace → Handshake → Bool
future_ok w taking h = is_async w h.slot && (is_waiting h.value && future_armed w h.owner)
future_ok w (publishing u) h = is_async w u && (is_waiting h.value && future_early w h.owner)
future_ok w unparking h = false
future_ok w (waking u) h = (u == w) && (is_out h.value && future_late w h.owner)
future_ok w ended h = is_out h.value && future_end w h.owner (h.woken w)

module _ (w : Bool) (h : Handshake) where
  thread_owner_kept :
      (o : OwnerPlace) (s : SignalerPlace)
      → h.owner ≡ o
      → h.signaler ≡ s
      → thread_ok s h ≡ true
      → thread_ok s (owner_step w o h) ≡ true
  unfolding owner_step register recheck
  thread_owner_kept o s at at' ok = ground arith

  thread_signaler_kept :
      (s : SignalerPlace)
      → h.signaler ≡ s
      → thread_ok s h ≡ true
      → thread_ok (signaler_step s h).signaler (signaler_step s h) ≡ true
  unfolding signaler_step publish_value
  thread_signaler_kept s at ok = ground arith

module _ (x : Bool) (w : ℕ) (h : Handshake) where
  future_owner_kept :
      (o : OwnerPlace) (s : SignalerPlace)
      → h.owner ≡ o
      → h.signaler ≡ s
      → future_ok w s h ≡ true
      → future_ok w s (owner_step x o h) ≡ true
  unfolding owner_step register recheck
  future_owner_kept o s at at' ok = ground (arith, ==_refl w)

  future_signaler_kept :
      (s : SignalerPlace)
      → h.signaler ≡ s
      → future_ok w s h ≡ true
      → future_ok w (signaler_step s h).signaler (signaler_step s h) ≡ true
  unfolding signaler_step publish_value
  future_signaler_kept s at ok = ground (arith, ==_refl w)

  future_poll_kept :
      (o : OwnerPlace) (s : SignalerPlace)
      → h.owner ≡ o
      → h.signaler ≡ s
      → future_ok w s h ≡ true
      → future_ok w s (poll_again w o h) ≡ true
  unfolding poll_again
  future_poll_kept o s at at' ok = ground (arith, ==_refl w)

  thread_poll_kept :
      (o : OwnerPlace) (s : SignalerPlace)
      → h.owner ≡ o
      → thread_ok s h ≡ true
      → thread_ok s (poll_again w o h) ≡ true
  unfolding poll_again
  thread_poll_kept o s at ok = ground arith

owner_step-signaler :
    (x : Bool) (o : OwnerPlace) (h : Handshake) → (owner_step x o h).signaler ≡ h.signaler
unfolding owner_step register recheck
owner_step-signaler x o h = ground arith

poll_again-signaler :
    (w : ℕ) (o : OwnerPlace) (h : Handshake) → (poll_again w o h).signaler ≡ h.signaler
unfolding poll_again
poll_again-signaler w o h = ground arith

thread_steps_kept :
    (es : List HandshakeEvent) (h : Handshake)
    → thread_ok h.signaler h ≡ true
    → thread_ok (handshake_steps es h).signaler (handshake_steps es h) ≡ true
unfolding handshake_steps handshake_step owner_step poll_again
thread_steps_kept [] h ok = ok
thread_steps_kept (owner_runs x ∷ es) h ok =
    thread_steps_kept es (owner_step x h.owner h)
      (rw (owner_step-signaler x h.owner h) (thread_owner_kept x h h.owner h.signaler refl refl ok))
thread_steps_kept (signaler_runs ∷ es) h ok =
    thread_steps_kept es (signaler_step h.signaler h)
      (thread_signaler_kept true h h.signaler refl ok)
thread_steps_kept (is_polled u ∷ es) h ok =
    thread_steps_kept es (poll_again u h.owner h)
      (rw (poll_again-signaler u h.owner h) (thread_poll_kept true u h h.owner h.signaler refl ok))

future_steps_kept :
    (w : ℕ) (es : List HandshakeEvent) (h : Handshake)
    → SameWaker w es
    → future_ok w h.signaler h ≡ true
    → future_ok w (handshake_steps es h).signaler (handshake_steps es h) ≡ true
unfolding handshake_steps handshake_step owner_step poll_again
future_steps_kept w [] h same ok = ok
future_steps_kept w (owner_runs x ∷ es) h same ok =
    future_steps_kept w es (owner_step x h.owner h) same (
      rw (owner_step-signaler x h.owner h)
        (future_owner_kept x w h h.owner h.signaler refl refl ok))
future_steps_kept w (signaler_runs ∷ es) h same ok =
    future_steps_kept w es (signaler_step h.signaler h) same
      (future_signaler_kept true w h h.signaler refl ok)
future_steps_kept w (is_polled u ∷ es) h (e, same) ok = rw e (
    future_steps_kept w es (poll_again w h.owner h) same (
      rw (poll_again-signaler w h.owner h)
        (future_poll_kept true w h h.owner h.signaler refl refl ok)))

abbrev Woken : (v : ℕ) → Handshake → Type 0
Woken v h =
    (h.value ≡ signaled)
    × (wakeup_sent h ≡ true)
    × ((handshake_steps (resumes v h.owner) h).owner ≡ finished)

thread-Woken :
    (v : ℕ) (h : Handshake)
    → thread_ok ended h ≡ true
    → (h.owner ≡ parking) ⊎ ((u : ℕ) × (h.owner ≡ pending u))
    → Woken v h
unfolding handshake_steps handshake_step owner_step poll_again
thread-Woken v h ok (inl at) = ground arith
thread-Woken v h ok (inr (u, at)) = absurd (ground arith)

future-Woken :
    (w v : ℕ) (h : Handshake)
    → future_ok w ended h ≡ true
    → (h.owner ≡ parking) ⊎ ((u : ℕ) × (h.owner ≡ pending u))
    → Woken v h
unfolding handshake_steps handshake_step owner_step poll_again
future-Woken w v h ok (inl at) = absurd (ground arith)
future-Woken w v h ok (inr (u, at)) =
    let e : u ≡ w = ground arith in
    let out : h.value ≡ signaled = ground arith in
    let told : h.woken w ≡ true = ground arith in (out, rw (at, e) told, rw (at, out) refl)

-- For the node of a thread, or of a future that is polled with one waker only, that has been popped,
-- and any order of steps of its owner and its signaler, polls and early returns of `park` included: if
-- the signaler has ended, then an owner that waits finds the signal's value, the wakeup that it waits
-- for has been sent, and it finishes once it resumes, a future with any waker.
pub handshake-wakes :
    (k : Option ℕ) (es : List HandshakeEvent) (v : ℕ)
    → Polls k es
    → (handshake_reach k es).signaler ≡ ended
    → ((handshake_reach k es).owner ≡ parking)
      ⊎ ((u : ℕ) × ((handshake_reach k es).owner ≡ pending u))
    → ((handshake_reach k es).value ≡ signaled)
      × (wakeup_sent (handshake_reach k es) ≡ true)
      × ((handshake_steps (resumes v (handshake_reach k es).owner) (handshake_reach k es)).owner
          ≡ finished)
handshake-wakes none es v same over waits =
    thread-Woken v (handshake_reach none es) (rw over at (thread_steps_kept es thread_node refl))
      waits
handshake-wakes (some w) es v same over waits =
    future-Woken w v (handshake_reach (some w) es)
      (rw over at (future_steps_kept w es (future_node w) same (ground (arith, ==_refl w)))) waits
