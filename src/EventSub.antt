-- ===== src/EventSub.antt =====
-- src/tw/eventsub.cpp, include/seraphbot/tw/eventsub.hpp and src/tw/chat/read.cpp: the EventSub
-- session over a WebSocket, and its subscriptions.
pub mod Reading
pub mod Closing
use seraphbot.Base.{
  ℕ, zero, suc, ◌+◌, ◌-◌, ◌*◌, ◌/◌, ◌%◌, ◌^◌, ◌≤◌, ◌<◌, String, ◌≡◌, refl, sym, ap, ◌∙◌, ◌≢◌, ◌↔◌,
  ◌⊎◌, inl, inr, Bool, true, false, not, ◌&&◌, ◌||◌, Option, none, some, List, [], ◌∷◌, ◌++◌, map,
  append-nil, append_assoc, arith, ltb, leb, ◌==◌, if◌then◌else◌, ==_iff, Bool-cases, Option-cases,
  length, drop, take, length-append, drop-length_append, All, All-append, All-mono, any_of, Text,
  codes, text_eq, text_eq_iff, text_eq_refl, starts_with, starts_with-append, starts_with-split,
  is_empty, to_lower, lower, to_lower_idem, lower_idem, is_space, to_text, ℤ, pos, negsuc, pos_part,
  neg_part, sub_ℕ, ltb_ℤ, clamp, clamp_bounds,
}
use seraphbot.Https.{ClientConfig, strip_oauth_prefix, https_post}
use seraphbot.Net.{
  Outcome, value, failed, Failure, other_error, Net, JsonLibrary, Run, ◌>>=◌, ◌>>◌, pure, throw,
  change, or_throw,
}

-- `socket` says whether `m_wss` is set, `has_callback` whether `m_callback` is.
pub record EventSub : Type 0 where
  pub cfg : ClientConfig
  pub socket : Bool
  pub has_callback : Bool
  pub session_id : Text

unfoldable pub new_eventsub : ClientConfig → EventSub
new_eventsub cfg = record { cfg = cfg; socket = false; has_callback = false; session_id = [] }

-- `start` stores the callback.
unfoldable pub start : EventSub → EventSub
start e = record e { has_callback = true }

-- The loop of `doRead` over what the reads give, up to the first that fails. A message is handed
-- on if there is a callback by then; the result is the messages handed on.
unfoldable pub read_loop : Bool → List (Outcome Text) → List Text
read_loop has_callback [] = []
read_loop has_callback (failed e ∷ reads) = []
read_loop has_callback (value msg ∷ reads) =
    (if has_callback then msg ∷ [] else []) ++ read_loop has_callback reads

unfoldable pub do_read : EventSub → List (Outcome Text) → List Text
do_read e reads = if not e.socket then [] else read_loop e.has_callback reads

-- The WebSocket: the connection with its TLS handshake, the upgrade to a WebSocket, and one read.
pub record Socket (World : Type 0) : Type 0 where
  pub open_tls : Text → Text → Run World (Unit {0})
  pub upgrade : Text → Run World (Unit {0})
  pub read : Run World Text

-- The header fields that name the client and its token.
unfoldable pub client_headers : ClientConfig → List (Text × Text)
client_headers cfg =
    (codes "Client-Id", cfg.client_id)
    ∷ (codes "Authorization", codes "Bearer " ++ strip_oauth_prefix cfg.access_token)
    ∷ []

abbrev bad_json : Failure
bad_json = other_error (codes "json")

abbrev no_session : Failure
no_session = other_error (codes "Failed to extract session.id from welcome message")

abbrev subscription_failed : Failure
subscription_failed = other_error (codes "EventSub subscription failed")

-- The session id is stored at the end of `connect` alone.
unfoldable pub store_session :
    {World : Type 0} → EventSub → Outcome Text × World → Outcome (Unit {0}) × (EventSub × World)
store_session e (value id, w) = (value tt, (record e { session_id = id }, w))
store_session e (failed f, w) = (failed f, (e, w))

module _ (net : Net) (json : JsonLibrary) where
  open net use {World, sleep}
  open json use {Json, parse, dump, contains, at, string_of, text, object}

  -- `jsn.at("payload").at("session").at("id").get<std::string>()`, where any exception is replaced.
  session_of : Json → Run World Text
  session_of jsn = do
    payload ← or_throw (at jsn (codes "payload")) no_session
    session ← or_throw (at payload (codes "session")) no_session
    id ← or_throw (at session (codes "id")) no_session
    or_throw (string_of id) no_session

  -- The upgrade on `/ws` and the welcome message.
  unfoldable pub read_welcome : Socket World → ClientConfig → Run World Text
  unfolding session_of
  read_welcome ws cfg = do
    ws.upgrade cfg.host
    welcome ← ws.read
    jsn ← or_throw (parse welcome) bad_json
    session_of jsn

  -- `m_wss` is set between the two handshakes.
  unfoldable pub after_tls :
      Socket World → EventSub → Outcome (Unit {0}) × World → Outcome (Unit {0}) × (EventSub × World)
  after_tls ws e (value _, w) = store_session (record e { socket = true }) (read_welcome ws e.cfg w)
  after_tls ws e (failed f, w) = (failed f, (e, w))

  unfoldable pub connect : Socket World → Run (EventSub × World) (Unit {0})
  unfolding after_tls
  connect ws (e, w) = after_tls ws e (ws.open_tls e.cfg.host e.cfg.port w)

  -- The body of a subscription.
  unfoldable pub subscription_request : EventSub → Text → Text → Json
  subscription_request e type version = object (
      (codes "type", text type)
      ∷ (codes "version", text version)
      ∷ (
        codes "condition",
        object (
            (codes "broadcaster_user_id", text e.cfg.broadcaster_id)
            ∷ (codes "user_id", text e.cfg.broadcaster_id)
            ∷ []),
      )
      ∷ (
        codes "transport",
        object (
            (codes "method", text (codes "websocket"))
            ∷ (codes "session_id", text e.session_id)
            ∷ []),
      )
      ∷ [])

  -- The response is checked, then there is a pause of 300 milliseconds.
  unfoldable pub subscribe : EventSub → Text → Text → Run World (Unit {0})
  subscribe e type version = do
    body ← or_throw (dump (subscription_request e type version)) bad_json
    resp ←
        https_post net e.cfg.helix_host e.cfg.helix_port (codes "/helix/eventsub/subscriptions")
          body (client_headers e.cfg ++ ((codes "Content-Type", codes "application/json") ∷ []))
    sub_response ← or_throw (parse resp) bad_json
    if contains sub_response (codes "error") then throw subscription_failed else change (sleep 300)

  -- `Read::requestSubscription`
  unfoldable pub request_subscription : EventSub → Run World (Unit {0})
  request_subscription e = subscribe e (codes "channel.chat.message") (codes "1")
