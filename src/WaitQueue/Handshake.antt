-- ===== src/WaitQueue/Handshake.antt =====
-- src/wait_queue.rs and src/waker.rs: the owner of a queued node, a thread that parks or a future that
-- is polled, and the signaler that has popped the node; a step goes up to and with the next access to
-- memory that both share. A future is polled again while it waits, and its wakers are numbers.
use xutex.Prelude.{
  ℕ, ◌≡◌, Bool, true, false, Option, none, some, List, [], ◌∷◌, if◌then◌else◌, ◌||◌, update,
}

pub data WakerSlot : Type 0 where
  no_waker sync_waker : WakerSlot
  async_waker : (w : ℕ) → WakerSlot

-- `Signal::value`
pub data Published : Type 0 where
  uninit init_waiting signaled : Published

-- Where the owner stands.
pub data OwnerPlace : Type 0 where
  swapping : OwnerPlace  -- a thread, before it swaps in SIGNAL_INIT_WAITING
  parking : OwnerPlace  -- before `park` returns
  loading : OwnerPlace  -- before it loads the value again
  pending : (w : ℕ) → OwnerPlace  -- a future, last polled with the waker `w`
  polling : (w : ℕ) → OwnerPlace  -- before its load
  registering : (w : ℕ) → OwnerPlace  -- `rearm`, before `register`
  rechecking : (w : ℕ) → OwnerPlace  -- before it loads the value again
  finished : OwnerPlace

-- Where the signaler stands in `signal_node`.
pub data SignalerPlace : Type 0 where
  taking : SignalerPlace
  publishing : WakerSlot → SignalerPlace
  unparking : SignalerPlace
  waking : (w : ℕ) → SignalerPlace
  ended : SignalerPlace

-- The node; `token` is the thread's, `woken` says which wakers were woken and not polled since.
pub record Handshake : Type 0 where
  pub value : Published
  pub slot : WakerSlot
  pub owner : OwnerPlace
  pub signaler : SignalerPlace
  pub token : Bool
  pub woken : ℕ → Bool

abbrev pub is_signaled : Published → Bool
is_signaled signaled = true
is_signaled _ = false

-- `DynamicWaker::register`, and what `rearm` makes of its outcome.
unfoldable pub register : ℕ → Handshake → Handshake
register w h = record h {
  slot = async_waker w;
  owner = elim h.slot [ no_waker ↦ rechecking w | _ ↦ pending w ];
}

-- The rest of `rearm`.
unfoldable pub recheck : ℕ → Handshake → Handshake
recheck w h =
    if is_signaled h.value
    then record h { owner = finished }
    else record h { owner = pending w; woken = update h.woken w true }

-- A step of the owner; `spurious` lets `park` return without a token.
unfoldable pub owner_step : (spurious : Bool) → OwnerPlace → Handshake → Handshake
unfolding register recheck
owner_step w swapping h = record h {
  value = init_waiting;
  owner = if is_signaled h.value then finished else parking;
}
owner_step w parking h = if w || h.token then record h { token = false; owner = loading } else h
owner_step w loading h = record h { owner = if is_signaled h.value then finished else parking }
owner_step w (polling u) h = record h {
  owner = if is_signaled h.value then finished else registering u;
}
owner_step w (registering u) h = register u h
owner_step w (rechecking u) h = recheck u h
owner_step w _ h = h

-- The publication of the value, and whom to wake.
unfoldable pub publish_value : WakerSlot → Handshake → Handshake
publish_value no_waker h = record h { value = signaled; signaler = ended }
publish_value sync_waker h = record h {
  value = signaled;
  signaler = elim h.value [ init_waiting ↦ unparking | _ ↦ ended ];
}
publish_value (async_waker w) h = record h { value = signaled; signaler = waking w }

-- A step of `signal_node`.
unfoldable pub signaler_step : SignalerPlace → Handshake → Handshake
unfolding publish_value
signaler_step taking h = record h { slot = no_waker; signaler = publishing h.slot }
signaler_step (publishing u) h = publish_value u h
signaler_step unparking h = record h { token = true; signaler = ended }
signaler_step (waking w) h = record h { woken = update h.woken w true; signaler = ended }
signaler_step ended h = h

-- What happens next: a step of either, or a future that waits is polled with a waker.
pub data HandshakeEvent : Type 0 where
  owner_runs : (spurious : Bool) → HandshakeEvent
  signaler_runs : HandshakeEvent
  is_polled : (w : ℕ) → HandshakeEvent

unfoldable pub poll_again : ℕ → OwnerPlace → Handshake → Handshake
poll_again w (pending u) h = record h { owner = polling w; woken = update h.woken w false }
poll_again w _ h = h

unfoldable pub handshake_step : HandshakeEvent → Handshake → Handshake
handshake_step (owner_runs w) h = owner_step w h.owner h
handshake_step signaler_runs h = signaler_step h.signaler h
handshake_step (is_polled w) h = poll_again w h.owner h

unfoldable pub handshake_steps : List HandshakeEvent → Handshake → Handshake
handshake_steps [] h = h
handshake_steps (e ∷ es) h = handshake_steps es (handshake_step e h)

-- A thread's node that has just been popped, and a future's, last polled with the waker `w`.
abbrev pub thread_node : Handshake
thread_node = record {
  value = uninit;
  slot = sync_waker;
  owner = swapping;
  signaler = taking;
  token = false;
  woken = λ _. false;
}

abbrev pub future_node : ℕ → Handshake
future_node w = record {
  value = init_waiting;
  slot = async_waker w;
  owner = pending w;
  signaler = taking;
  token = false;
  woken = λ _. false;
}

-- Every poll is with the waker `w`.
abbrev pub SameWaker : ℕ → List HandshakeEvent → Type 0
SameWaker w [] = Unit {0}
SameWaker w (is_polled u ∷ es) = (u ≡ w) × SameWaker w es
SameWaker w (owner_runs s ∷ es) = SameWaker w es
SameWaker w (signaler_runs ∷ es) = SameWaker w es

-- The node of a thread, or of a future with its waker.
abbrev pub node_of : Option ℕ → Handshake
node_of none = thread_node
node_of (some w) = future_node w

abbrev pub Polls : Option ℕ → List HandshakeEvent → Type 0
Polls none es = Unit {0}
Polls (some w) es = SameWaker w es

abbrev pub handshake_reach : Option ℕ → List HandshakeEvent → Handshake
handshake_reach k es = handshake_steps es (node_of k)

-- Whether the wakeup that an owner waits for has been sent.
abbrev pub wakeup_sent : Handshake → Bool
wakeup_sent h = elim h.owner [ parking ↦ h.token | pending u ↦ h.woken u | _ ↦ true ]

-- What an owner that was woken does.
abbrev pub resumes : (w : ℕ) → OwnerPlace → List HandshakeEvent
resumes w parking = owner_runs false ∷ owner_runs false ∷ []
resumes w _ = is_polled w ∷ owner_runs false ∷ []
