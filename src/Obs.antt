-- ===== src/Obs.antt =====
-- include/seraphbot/obs/obsservice.hpp: the commands for OBS Studio over its WebSocket. A step gives
-- `none` where the code dereferences the null pointer that `m_ws` is up to the first connection.
pub mod Steps
pub mod Video
pub mod Connecting
pub mod Playing
pub mod Unresolved
pub mod Finding
use mathlib.Core.Path.{◌≡◌}
use seraphbot.Base.{
  ℕ, zero, suc, ◌+◌, ◌-◌, ◌*◌, ◌/◌, ◌%◌, ◌^◌, ◌≤◌, ◌<◌, String, refl, sym, ap, ◌∙◌, ◌≢◌, ◌↔◌, ◌⊎◌,
  inl, inr, Bool, true, false, not, ◌&&◌, ◌||◌, Option, none, some, List, [], ◌∷◌, ◌++◌, map,
  append-nil, append_assoc, arith, ltb, leb, ◌==◌, if◌then◌else◌, ==_iff, Bool-cases, Option-cases,
  length, drop, take, length-append, drop-length_append, All, All-append, All-mono, any_of, Text,
  codes, text_eq, text_eq_iff, text_eq_refl, starts_with, starts_with-append, starts_with-split,
  is_empty, to_lower, lower, to_lower_idem, lower_idem, is_space, to_text, ℤ, pos, negsuc, pos_part,
  neg_part, sub_ℕ, ltb_ℤ, clamp, clamp_bounds,
}
use seraphbot.Net.{Outcome, value, failed, Failure, other_error, JsonLibrary}
use Steps.{Step, ◌>>=◌, ◌>>◌, pure, catch, or_throw}

-- Boost.Asio and the WebSocket of Beast; a duration of the timer that is negative is over at once.
pub record ObsNet : Type 1 where
  pub World : Type 0
  pub resolve : Text → Text → World → Outcome (Unit {0}) × World
  pub connect : World → Outcome (Unit {0}) × World
  pub handshake : Text → World → Outcome (Unit {0}) × World
  pub write : Text → World → Outcome (Unit {0}) × World
  pub read : World → Outcome Text × World
  pub sleep : ℤ → World → World

-- `has_ws`: `m_ws` is not null.
pub record ObsService : Type 0 where
  pub obs_host : Text
  pub obs_port : Text
  pub obs_password : Text
  pub has_ws : Bool
  pub connected : Bool
  pub request_id : ℕ

unfoldable pub new_service : Text → ObsService
new_service password = record {
  obs_host = codes "192.168.1.2";
  obs_port = codes "4455";
  obs_password = password;
  has_ws = false;
  connected = false;
  request_id = 1;
}

abbrev pub bad_json : Failure
bad_json = other_error (codes "json")

-- `generateAuthResponse`
unfoldable pub generate_auth_response : Text → Text → Text
generate_auth_response challenge salt = []

-- `m_request_id++`, of 64 bits.
unfoldable pub next_id : ObsService → ObsService
next_id o = record o { request_id = (o.request_id + 1) % 2 ^ 64 }

module _ (net : ObsNet) (json : JsonLibrary) where
  open net use {World, resolve, connect, handshake, write, read, sleep}
  open json use {
    Json, parse, dump, contains, index, string_of, items, value_integer, integer_of, is_true, text,
    integer, boolean, object,
  }

  abbrev pub Obs : Type 0 → Type 0
  Obs A = Step (ObsService × World) A

  -- A step of the outside, and one of the members alone.
  abbrev pub outside : {A : Type 0} → (World → Outcome A × World) → Obs A
  outside m (o, w) = let (r, w') = m w in some (r, (o, w'))

  abbrev pub set_members : (ObsService → ObsService) → Obs (Unit {0})
  set_members f (o, w) = some (value tt, (f o, w))

  -- `m_ws->`
  abbrev pub on_ws : {A : Type 0} → (World → Outcome A × World) → Obs A
  on_ws m (o, w) = elim o.has_ws [ true ↦ outside m (o, w) | false ↦ none ]

  unfoldable pub member : Json → String → Obs Json
  member j key = or_throw (index j (codes key)) bad_json

  -- The number of a request, which is taken as the request is built.
  unfoldable pub take_id : Obs ℕ
  take_id (o, w) = some (value o.request_id, (next_id o, w))

  -- A request of the operation 6; `requestData` may be missing.
  unfoldable pub request : Text → List (Text × Json) → ℕ → Json
  request type request_data id = object (
      (codes "op", integer (pos 6))
      ∷ (
        codes "d",
        object (
            (codes "requestType", text type)
            ∷ (request_data ++ ((codes "requestId", integer (pos id)) ∷ []))),
      )
      ∷ [])

  unfoldable pub request_data : List (Text × Json) → List (Text × Json)
  request_data fields = (codes "requestData", object fields) ∷ []

  -- `sendMessage` and `receiveMessage`
  unfoldable pub send_message : Json → Obs (Unit {0})
  send_message message = do msg_str ← or_throw (dump message) bad_json; on_ws (write msg_str)

  unfoldable pub receive_message : Obs Json
  receive_message = do response ← on_ws read; or_throw (parse response) bad_json

  -- `response.contains("d") && response["d"].contains(key)`
  unfoldable pub has_member : Json → String → Obs Bool
  unfolding member
  has_member response key =
      if not (contains response (codes "d"))
      then pure false
      else (do d ← member response "d"; pure (contains d (codes key)))

  unfoldable pub authenticate : Obs (Unit {0})
  unfolding take_id has_member member
  authenticate = do
    id ← take_id
    send_message (request (codes "GetAuthRequired") [] id)
    response ← receive_message
    found ← has_member response "authRequired"
    if not found then pure tt else (do
      d ← member response "d"
      required ← member d "authRequired"
      if not (is_true required) then pure tt else (do
        challenge_json ← member d "challenge"
        challenge ← or_throw (string_of challenge_json) bad_json
        salt_json ← member d "salt"
        salt ← or_throw (string_of salt_json) bad_json
        send_message (
            object (
              (codes "op", integer (pos 1))
              ∷ (
                codes "d",
                object (
                    (codes "rpcVersion", integer (pos 1))
                    ∷ (codes "authentication", text (generate_auth_response challenge salt))
                    ∷ []),
              )
              ∷ []))))

  -- The steps up to the end of the handshake, and of the authentication.
  unfoldable pub shake_hands : Text → Text → Obs (Unit {0})
  shake_hands host password = do
    outside connect
    outside (handshake host)
    if is_empty password then pure tt else authenticate

  -- What follows in the `try` block of `connectToOBS` once the address is known.
  unfoldable pub dial : Text → Text → Obs Bool
  dial host password = do
    set_members (λ o. record o { has_ws = true })
    shake_hands host password
    set_members (λ o. record o { connected = true })
    pure true

  -- The service of `async_resolve` is the password.
  unfoldable pub open_ws : Obs Bool
  open_ws s =
      (outside (resolve s.0.obs_host s.0.obs_password) >>= λ _. dial s.0.obs_host s.0.obs_password)
        s

  unfoldable pub connect_to_obs : Obs Bool
  connect_to_obs =
      catch open_ws (λ e. set_members (λ s. record s { connected = false }) >> pure false)

  unfoldable pub unless_connected : Bool → Obs (Unit {0})
  unless_connected true = pure tt
  unless_connected false = connect_to_obs >>= λ _. pure tt

  -- `if (!m_connected)`, in `sendOBSCommand` and in `playVideo`; the result is not looked at.
  unfoldable pub ensure_connected : Obs (Unit {0})
  ensure_connected s = unless_connected s.0.connected s

  unfoldable pub send_obs_command : Json → Obs Json
  send_obs_command command = ensure_connected >> send_message command >> receive_message
