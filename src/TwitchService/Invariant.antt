-- ===== src/TwitchService/Invariant.antt =====
-- Proofs about the session: what its state says of the coroutines that run and of the objects
-- they use.
use seraphbot.Base.{ℕ, ◌<◌, ◌≡◌, Bool, true, false, Option, none, some, arith, Text}
use seraphbot.Auth.{TwitchUserInfo}
use seraphbot.EventSub.{EventSub}
use seraphbot.Https.{ClientConfig}
use seraphbot.Net.{Outcome}
use seraphbot.TwitchService.{
  State, logging_in, connecting_to_chat, chat_connected, error, start_login, finish_login,
  begin_connect, finish_connect, finish_send, disconnect, is_disconnected, can_connect, set_state,
  setup_chat_services, new_twitch_service, set_status_callback,
}
use seraphbot.TwitchService.Session.{
  Session, Button, login_button, connect_button, logout_button, disconnect_button, reset_button,
  has_button, one_if, press, start_connect, end_login, end_connect, end_send, Step, pressed,
  login_ended, connect_started, connect_ended, send_ended, Reachable, initial, with_callback, next,
  start_session,
}

abbrev pub is_some {ℓ} : {A : Type ℓ} → Option A → Bool
is_some none = false
is_some (some a) = true

-- How many coroutines of each kind a state has.
abbrev pub logins_of : State → ℕ
logins_of logging_in = 1
logins_of _ = 0

abbrev pub connects_of : State → ℕ
connects_of connecting_to_chat = 1
connects_of _ = 0

-- Whether the chat services exist: `some false` if they do not, `none` if it is open.
abbrev pub services_of : State → Option Bool
services_of connecting_to_chat = some true
services_of chat_connected = some true
services_of error = none
services_of _ = some false

abbrev pub Agrees : Option Bool → Bool → Type 0
Agrees none b = Unit
Agrees (some expected) b = b ≡ expected

pub record Inv (x : Session) : Type 0 where
  pub logins : x.logins ≡ logins_of x.service.state
  pub connects : x.connects ≡ connects_of x.service.state
  pub reading : Agrees (services_of x.service.state) x.service.chat_read
  pub sending : Agrees (services_of x.service.state) (is_some x.service.chat_send)
  pub session : Agrees (services_of x.service.state) (is_some x.service.eventsub)

press-Inv :
    (b : Button) (x : Session) → has_button x.service.state b ≡ true → Inv x → Inv (press b x)
unfolding press has_button start_login set_state is_disconnected one_if disconnect
press-Inv login_button x shown h = ground arith
press-Inv connect_button x shown h = ground arith
press-Inv logout_button x shown h = ground arith
press-Inv disconnect_button x shown h = ground arith
press-Inv reset_button x shown h = ground arith

end_login-Inv :
    (o : Outcome TwitchUserInfo) (token client_id : Text) (x : Session)
    → 0 < x.logins
    → Inv x
    → Inv (end_login o token client_id x)
unfolding end_login finish_login set_state
end_login-Inv o token client_id x running h = ground arith

start_connect-Inv : (x : Session) → Inv x → Inv (start_connect x)
unfolding start_connect begin_connect can_connect setup_chat_services set_state one_if
start_connect-Inv x h = ground arith

end_connect-Inv :
    (o : Outcome (Unit {0})) (e : EventSub) (x : Session)
    → 0 < x.connects
    → Inv x
    → Inv (end_connect o e x)
unfolding end_connect finish_connect set_state
end_connect-Inv o e x running h = ground arith

end_send-Inv : (o : Outcome (Unit {0})) (x : Session) → Inv x → Inv (end_send o x)
unfolding end_send finish_send
end_send-Inv o x h = ground arith

Step-Inv : {x y : Session} → Step x y → Inv x → Inv y
Step-Inv (pressed b x shown) h = press-Inv b x shown h
Step-Inv (login_ended o token client_id x running) h = end_login-Inv o token client_id x running h
Step-Inv (connect_started x waiting) h = start_connect-Inv x h
Step-Inv (connect_ended o e x running) h = end_connect-Inv o e x running h
Step-Inv (send_ended o x) h = end_send-Inv o x h

start-Inv : (cfg : ClientConfig) → Inv (start_session (new_twitch_service cfg))
unfolding start_session new_twitch_service
start-Inv cfg = ground arith

start_with_callback-Inv :
    (cfg : ClientConfig) → Inv (start_session (set_status_callback (new_twitch_service cfg)))
unfolding start_session new_twitch_service set_status_callback
start_with_callback-Inv cfg = ground arith

pub Reachable-Inv : {cfg : ClientConfig} {x : Session} → Reachable cfg x → Inv x
Reachable-Inv {cfg} initial = start-Inv cfg
Reachable-Inv {cfg} with_callback = start_with_callback-Inv cfg
Reachable-Inv (next r s) = Step-Inv s (Reachable-Inv r)
