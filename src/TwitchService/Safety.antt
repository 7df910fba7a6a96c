-- ===== src/TwitchService/Safety.antt =====
-- Proofs about every session that the buttons and the coroutines can lead to, and about what a
-- disconnection leaves behind.
use seraphbot.Base.{
  ◌+◌, ◌≤◌, ◌<◌, ◌≡◌, refl, ◌⊎◌, inl, inr, Bool, true, false, none, some, arith, Text,
}
use seraphbot.Https.{ClientConfig}
use seraphbot.Net.{Net, JsonLibrary}
use seraphbot.TwitchService.{
  TwitchService, State, disconnected, logging_in, logged_in, connecting_to_chat, chat_connected,
  error, start_login, finish_login, begin_connect, finish_connect, finish_send, disconnect,
  is_disconnected, can_connect, can_send, set_state, setup_chat_services, send_message, send_task,
}
use seraphbot.TwitchService.Session.{
  Session, Button, login_button, connect_button, logout_button, disconnect_button, reset_button,
  has_button, press, start_connect, end_login, end_connect, end_send, Step, pressed, login_ended,
  connect_started, connect_ended, send_ended, Reachable,
}
use seraphbot.TwitchService.Invariant.{Inv, is_some, Reachable-Inv}

-- While a coroutine of `connectToChat` waits for Twitch, the state is ConnectingToChat and the
-- objects that the coroutine goes on to use are set, in every session that can be reached.
pub connecting_has_services :
    {cfg : ClientConfig} {x : Session}
    → Reachable cfg x
    → 0 < x.connects
    → (x.service.state ≡ connecting_to_chat)
      × (x.service.chat_read ≡ true)
      × (is_some x.service.chat_send ≡ true)
      × (is_some x.service.eventsub ≡ true)
connecting_has_services r running = let h = Reachable-Inv r in ground arith

-- Logging in and connecting to the chat never run at the same time, nor either of them twice, in
-- every session that can be reached.
pub one_coroutine : {cfg : ClientConfig} {x : Session} → Reachable cfg x → x.logins + x.connects ≤ 1
one_coroutine r = let h = Reachable-Inv r in ground arith

-- In every session that can be reached, if a message may be sent then the object that sends it is
-- set, and no login and no connection is under way.
pub sendable_is_ready :
    {cfg : ClientConfig} {x : Session}
    → Reachable cfg x
    → can_send x.service.state ≡ true
    → (is_some x.service.chat_send ≡ true) × (x.logins ≡ 0) × (x.connects ≡ 0)
unfolding can_send
sendable_is_ready r ready = let h = Reachable-Inv r in ground arith

state_cases :
    (st : State)
    → (st ≡ disconnected)
      ⊎ ((st ≡ logging_in)
          ⊎ ((st ≡ logged_in)
              ⊎ ((st ≡ connecting_to_chat) ⊎ ((st ≡ chat_connected) ⊎ (st ≡ error)))))
state_cases disconnected = inl refl
state_cases logging_in = inr (inl refl)
state_cases logged_in = inr (inr (inl refl))
state_cases connecting_to_chat = inr (inr (inr (inl refl)))
state_cases chat_connected = inr (inr (inr (inr (inl refl))))
state_cases error = inr (inr (inr (inr (inr refl))))

-- No session that can be reached is stuck: it is disconnected, or a login or a connection is under
-- way, or there is a button that disconnects.
pub can_go_back :
    {cfg : ClientConfig} {x : Session}
    → Reachable cfg x
    → (x.service.state ≡ disconnected)
      ⊎ ((0 < x.logins + x.connects)
          ⊎ ((b : Button) × (has_button x.service.state b ≡ true)
              × ((press b x).service.state ≡ disconnected)))
unfolding has_button press disconnect set_state
can_go_back {x = x} r =
    let h = Reachable-Inv r in
    elim (state_cases x.service.state) [
      | inl gone ↦ inl gone
      | inr (inl st) ↦ inr (inl (ground arith))
      | inr (inr (inl st)) ↦ inr (inr (logout_button, rw st refl, refl))
      | inr (inr (inr (inl st))) ↦ inr (inl (ground arith))
      | inr (inr (inr (inr (inl st)))) ↦ inr (inr (disconnect_button, rw st refl, refl))
      | inr (inr (inr (inr (inr st)))) ↦ inr (inr (reset_button, rw st refl, refl))
    ]

-- The order of the states, and the ways back.
unfoldable pub edge : State → State → Bool
edge disconnected logging_in = true
edge logging_in logged_in = true
edge logging_in error = true
edge logged_in connecting_to_chat = true
edge logged_in disconnected = true
edge connecting_to_chat chat_connected = true
edge connecting_to_chat error = true
edge chat_connected disconnected = true
edge error disconnected = true
edge _ _ = false

-- A step keeps the state, or follows an edge.
abbrev Follows : Session → Session → Type 0
Follows x y = (y.service.state ≡ x.service.state) ⊎ (edge x.service.state y.service.state ≡ true)

press-Follows :
    (b : Button) (x : Session) → has_button x.service.state b ≡ true → Follows x (press b x)
unfolding edge press has_button start_login is_disconnected disconnect set_state
press-Follows login_button x shown = ground arith
press-Follows connect_button x shown = inl refl
press-Follows logout_button x shown = ground arith
press-Follows disconnect_button x shown = ground arith
press-Follows reset_button x shown = ground arith

Inv-Step-Follows : {x y : Session} → Step x y → Inv x → Follows x y
unfolding edge end_login finish_login start_connect begin_connect can_connect setup_chat_services
    end_connect finish_connect end_send finish_send set_state
Inv-Step-Follows (pressed b x shown) h = press-Follows b x shown
Inv-Step-Follows (login_ended o token client_id x running) h = ground arith
Inv-Step-Follows (connect_started x waiting) h = ground arith
Inv-Step-Follows (connect_ended o e x running) h = ground arith
Inv-Step-Follows (send_ended o x) h = ground arith

-- From a session that can be reached, a step keeps the state or follows the order Disconnected,
-- LoggingIn, LoggedIn, ConnectingToChat, ChatConnected, with Error behind LoggingIn and
-- ConnectingToChat, and the way back to Disconnected from LoggedIn, ChatConnected and Error.
pub Step-follows_edges :
    {cfg : ClientConfig} {x y : Session}
    → Reachable cfg x
    → Step x y
    → (y.service.state ≡ x.service.state) ⊎ (edge x.service.state y.service.state ≡ true)
Step-follows_edges r s = Inv-Step-Follows s (Reachable-Inv r)

-- Behind `disconnect` a login is possible again, and neither a connection nor a message starts.
pub disconnect_closes :
    (s : TwitchService) (message : Text)
    → ((start_login (disconnect s)).0 ≡ true)
      × (begin_connect (disconnect s) ≡ (false, disconnect s))
      × (send_message message (disconnect s) ≡ none)
unfolding start_login begin_connect send_message is_disconnected can_connect can_send disconnect
    set_state
disconnect_closes s message = (refl, refl, refl)

module _ (net : Net) (json : JsonLibrary) where
  -- A message whose coroutine was spawned while connected, but runs behind a `disconnect`,
  -- dereferences a null pointer.
  pub send_after_disconnect :
      (s : TwitchService) (message : Text) (w : net.World)
      → can_send s.state ≡ true
      → (send_message message s ≡ some message)
        × (send_task net json message (disconnect s) w ≡ none)
  unfolding send_message send_task disconnect set_state
  send_after_disconnect s message w ready = (rw ready refl, refl)
