-- ===== src/TwitchService.antt =====
-- src/core/twitch_service.cpp and include/seraphbot/core/twitch_service.hpp: the states of the
-- connection to Twitch. The part of a coroutine behind its first `co_await` is a function of its
-- own, which takes what was awaited.
pub mod Events
pub mod Owners
pub mod Session
pub mod Invariant
pub mod Safety
pub mod Delivery
use seraphbot.Base.{
  ℕ, zero, suc, ◌+◌, ◌-◌, ◌*◌, ◌/◌, ◌%◌, ◌^◌, ◌≤◌, ◌<◌, String, ◌≡◌, refl, sym, ap, ◌∙◌, ◌≢◌, ◌↔◌,
  ◌⊎◌, inl, inr, Bool, true, false, not, ◌&&◌, ◌||◌, Option, none, some, List, [], ◌∷◌, ◌++◌, map,
  append-nil, append_assoc, arith, ltb, leb, ◌==◌, if◌then◌else◌, ==_iff, Bool-cases, Option-cases,
  length, drop, take, length-append, drop-length_append, All, All-append, All-mono, any_of, Text,
  codes, text_eq, text_eq_iff, text_eq_refl, starts_with, starts_with-append, starts_with-split,
  is_empty, to_lower, lower, to_lower_idem, lower_idem, is_space, to_text, ℤ, pos, negsuc, pos_part,
  neg_part, sub_ℕ, ltb_ℤ, clamp, clamp_bounds,
}
use seraphbot.Auth
use seraphbot.Auth.{TwitchUserInfo, login}
use seraphbot.Auth.User.{fetch_user_info}
use seraphbot.ChatSend.{send_chat_message}
use seraphbot.EventSub.{EventSub, Socket, new_eventsub, start, connect, request_subscription}
use seraphbot.Https.{ClientConfig}
use seraphbot.Net.{Outcome, value, failed, Failure, what, Net, JsonLibrary, Run, ◌>>=◌, ◌>>◌, pure}

pub data State : Type 0 where
  disconnected logging_in logged_in connecting_to_chat chat_connected error : State

-- `chat_read` says whether `m_chat_read` is set; `chat_send` is the copy of the configuration that
-- `m_chat_send` holds. `statuses` are the texts the status callback was given.
pub record TwitchService : Type 0 where
  pub config : ClientConfig
  pub state : State
  pub current_user : Text
  pub eventsub : Option EventSub
  pub chat_read : Bool
  pub chat_send : Option ClientConfig
  pub has_status_callback : Bool
  pub statuses : List Text

unfoldable pub new_twitch_service : ClientConfig → TwitchService
new_twitch_service cfg = record {
  config = cfg;
  state = disconnected;
  current_user = [];
  eventsub = none;
  chat_read = false;
  chat_send = none;
  has_status_callback = false;
  statuses = [];
}

unfoldable pub set_status_callback : TwitchService → TwitchService
set_status_callback s = record s { has_status_callback = true }

unfoldable pub set_state : State → Text → TwitchService → TwitchService
set_state state status s = record s {
  state = state;
  statuses =
      if s.has_status_callback && not (is_empty status)
      then s.statuses ++ (status ∷ [])
      else s.statuses;
}

unfoldable pub is_disconnected : State → Bool
is_disconnected disconnected = true
is_disconnected _ = false

-- `canConnectToChat`
unfoldable pub can_connect : State → Bool
can_connect logged_in = true
can_connect _ = false

-- `canSendMessages`
unfoldable pub can_send : State → Bool
can_send chat_connected = true
can_send _ = false

-- `startLogin`: the result says whether the login coroutine was spawned.
unfoldable pub start_login : TwitchService → Bool × TwitchService
start_login s =
    if not (is_disconnected s.state)
    then (false, s)
    else (true, set_state logging_in (codes "Starting login process...") s)

-- The configuration with what the login gave.
logged_in_config : TwitchUserInfo → Text → Text → ClientConfig → ClientConfig
logged_in_config user token client_id cfg = record cfg {
  access_token = token;
  broadcaster_id = user.id;
  client_id = client_id;
}

-- The login coroutine behind its two `co_await`, with the token and the client id of `m_auth`.
unfoldable pub finish_login : Outcome TwitchUserInfo → Text → Text → TwitchService → TwitchService
unfolding logged_in_config
finish_login (value user) token client_id s =
    set_state logged_in (codes "Logged in as " ++ user.display_name) (record s {
      current_user = user.display_name;
      config = logged_in_config user token client_id s.config;
    })
finish_login (failed e) token client_id s = set_state error (codes "Login failed: " ++ what e) s

unfoldable pub setup_chat_services : TwitchService → TwitchService
setup_chat_services s = record s {
  eventsub = some (new_eventsub s.config);
  chat_read = true;
  chat_send = some s.config;
}

-- `connectToChat` up to its first `co_await`; the result says whether it goes on.
unfoldable pub begin_connect : TwitchService → Bool × TwitchService
begin_connect s = if not (can_connect s.state) then (false, s) else (
  true,
  setup_chat_services (set_state connecting_to_chat (codes "Connecting to chat...") s),
)

-- `connectToChat` behind its last `co_await`.
unfoldable pub finish_connect : Outcome (Unit {0}) → TwitchService → TwitchService
finish_connect (value _) s = set_state chat_connected (codes "Connected to chat") s
finish_connect (failed e) s = set_state error (codes "Chat connection failed: " ++ what e) s

-- What `sendMessage` spawns, if anything: the coroutine that sends the message.
unfoldable pub send_message : Text → TwitchService → Option Text
send_message message s = if not (can_send s.state) then none else some message

-- The reporting of a failure by the coroutine of `sendMessage`.
unfoldable pub finish_send : Outcome (Unit {0}) → TwitchService → TwitchService
finish_send (value _) s = s
finish_send (failed e) s = record s {
  statuses =
      if s.has_status_callback
      then s.statuses ++ ((codes "Failed to send message: " ++ what e) ∷ [])
      else s.statuses;
}

unfoldable pub disconnect : TwitchService → TwitchService
disconnect s = record (set_state disconnected (codes "Disconnected") s) {
  chat_read = false;
  chat_send = none;
  eventsub = none;
  current_user = [];
}

-- The subscriptions that `connectToChat` spawns and does not await.
abbrev pub other_subscriptions : List (Text × Text)
other_subscriptions =
    (codes "channel.update", codes "2")
    ∷ (codes "channel.ad_break.begin", codes "1")
    ∷ (codes "channel.chat.clear", codes "1")
    ∷ (codes "channel.chat.clear_user_messages", codes "1")
    ∷ (codes "channel.chat.message_delete", codes "1")
    ∷ (codes "channel.chat.notification", codes "1")
    ∷ (codes "stream.online", codes "1")
    ∷ []

module _ (net : Net) (json : JsonLibrary) where
  open net use {World, sleep}

  -- What the login coroutine awaits.
  unfoldable pub login_task :
      (ℕ → ℕ)
      → (Text → Run World (Unit {0}))
      → (Text → Option ℕ)
      → Run (Auth.State net json) TwitchUserInfo
  login_task dis open_browser get_time = do
    login net json dis open_browser
    fetch_user_info net json get_time

  -- The callback is stored by a coroutine that runs during the pause.
  listen : Run (EventSub × World) (Unit {0})
  listen (e, w) = (value tt, (start e, sleep 500 w))

  -- `m_chat_read->requestSubscription()`
  subscribe_to_chat : Run (EventSub × World) (Unit {0})
  subscribe_to_chat (e, w) = let (o, w') = request_subscription net json e w in (o, (e, w'))

  -- What `connectToChat` awaits.
  unfoldable pub connect_task : Socket World → Run (EventSub × World) (Unit {0})
  unfolding listen subscribe_to_chat
  connect_task ws = do connect net json ws; listen; subscribe_to_chat

  -- The coroutine that `sendMessage` spawned; `none` where it dereferences a null `m_chat_send`.
  unfoldable pub send_task : Text → TwitchService → World → Option (Outcome (Unit {0}) × World)
  send_task message s w = elim s.chat_send [
    | none ↦ none
    | some cfg ↦ some (send_chat_message net json cfg message s.config.broadcaster_id w)
  ]
