-- ===== src/EventSub/Reading.antt =====
-- Proofs about the session and the read loop.
use seraphbot.Base.{
  ◌≡◌, refl, ap, ◌⊎◌, inl, inr, Bool, true, false, not, List, [], ◌∷◌, ◌++◌, map, if◌then◌else◌,
  Text,
}
use seraphbot.Net.{Outcome, value, failed, Failure, Net, JsonLibrary}
use seraphbot.EventSub.{
  after_tls, EventSub, Socket, read_loop, do_read, read_welcome, store_session, connect,
}

-- Messages that were read before anything else happened.
abbrev pub as_reads : List Text → List (Outcome Text)
as_reads = map value

read_loop_lem :
    (msgs : List Text) (e : Failure) (later : List (Outcome Text))
    → read_loop true (as_reads msgs ++ (failed e ∷ later)) ≡ msgs
unfolding read_loop
read_loop_lem [] e later = refl
read_loop_lem (msg ∷ msgs) e later = ap (◌∷◌ msg) (read_loop_lem msgs e later)

guarded_read : Bool → Bool → List (Outcome Text) → List Text
guarded_read socket has_callback reads = if not socket then [] else read_loop has_callback reads

guarded_read_lem :
    (socket has_callback : Bool) (msgs : List Text) (e : Failure) (later : List (Outcome Text))
    → socket ≡ true
    → has_callback ≡ true
    → guarded_read socket has_callback (as_reads msgs ++ (failed e ∷ later)) ≡ msgs
unfolding guarded_read
guarded_read_lem true true msgs e later connected listening = read_loop_lem msgs e later
guarded_read_lem false _ msgs e later connected listening = cc
guarded_read_lem true false msgs e later connected listening = cc

-- With a socket and a callback each message is handed on once, in order, up to the first read that
-- fails, and none after it.
pub do_read_lem :
    (s : EventSub) (msgs : List Text) (e : Failure) (later : List (Outcome Text))
    → s.socket ≡ true
    → s.has_callback ≡ true
    → do_read s (as_reads msgs ++ (failed e ∷ later)) ≡ msgs
unfolding do_read guarded_read
do_read_lem s msgs e later = guarded_read_lem s.socket s.has_callback msgs e later

-- What `connect` leaves: a session with its id; or a failure, with the session as it was or with
-- the socket set alone.
abbrev pub Connected : {W : Type 0} → EventSub → Outcome (Unit {0}) × (EventSub × W) → Type 0
Connected s (o, (s', w)) =
    ((id : Text) × (o ≡ value tt) × (s' ≡ record s { socket = true; session_id = id }))
    ⊎ ((e : Failure) × (o ≡ failed e) × ((s' ≡ s) ⊎ (s' ≡ record s { socket = true })))

store_session-Connected :
    {W : Type 0} (s : EventSub) (p : Outcome Text × W)
    → Connected s (store_session (record s { socket = true }) p)
unfolding store_session
store_session-Connected s (value id, w) = inl (id, refl, refl)
store_session-Connected s (failed e, w) = inr (e, refl, inr refl)

module _ (net : Net) (json : JsonLibrary) where
  opened-Connected :
      (ws : Socket net.World) (s : EventSub) (p : Outcome (Unit {0}) × net.World)
      → Connected s (after_tls net json ws s p)
  unfolding after_tls
  opened-Connected ws s (value _, w) = store_session-Connected s (read_welcome net json ws s.cfg w)
  opened-Connected ws s (failed e, w) = inr (e, refl, inl refl)

  -- A connection that fails, at whatever step, keeps the session id, and changes at most whether the
  -- socket is set; one that succeeds sets the socket and changes nothing but it and the session id.
  pub connect_cases :
      (ws : Socket net.World) (s : EventSub) (w : net.World)
      → Connected s (connect net json ws (s, w))
  unfolding connect
  connect_cases ws s w = opened-Connected ws s (ws.open_tls s.cfg.host s.cfg.port w)
