-- ===== src/TwitchService/Session.antt =====
-- The service as the application drives it: the buttons of src/ui/imgui_manager.cpp
-- (`manageAuth`), which include/seraphbot/viewmodels/auth_viewmodel.hpp passes on, and the
-- coroutines of src/core/twitch_service.cpp that run in between. A frame of the interface and a
-- piece of a coroutine up to its next `co_await` are one step each.
use seraphbot.Base.{ℕ, suc, ◌+◌, ◌-◌, ◌<◌, ◌≡◌, Bool, true, false, some, Text}
use seraphbot.Https.{ClientConfig}
use seraphbot.TwitchService
use seraphbot.Net.{Outcome}
use seraphbot.EventSub.{EventSub}
use seraphbot.Auth.{TwitchUserInfo}

-- The buttons that `manageAuth` draws in a state.
pub data Button : Type 0 where
  login_button connect_button logout_button disconnect_button reset_button : Button

unfoldable pub has_button : TwitchService.State → Button → Bool
has_button TwitchService.State.disconnected login_button = true
has_button TwitchService.State.logged_in connect_button = true
has_button TwitchService.State.logged_in logout_button = true
has_button TwitchService.State.chat_connected disconnect_button = true
has_button TwitchService.State.error reset_button = true
has_button _ _ = false

-- The service, how many login coroutines wait for Twitch, how many connections were asked for and
-- did not start, and how many wait for Twitch.
pub record Session : Type 0 where
  pub service : TwitchService.TwitchService
  pub logins : ℕ
  pub requested : ℕ
  pub connects : ℕ

unfoldable pub start_session : TwitchService.TwitchService → Session
start_session service = record { service = service; logins = 0; requested = 0; connects = 0 }

-- A coroutine more if one was spawned.
unfoldable pub one_if : Bool → ℕ
one_if true = 1
one_if false = 0

unfoldable pub press : Button → Session → Session
press login_button x =
    let (spawned, service) = TwitchService.start_login x.service in
    record x { service = service; logins = one_if spawned + x.logins }
press connect_button x = record x { requested = suc x.requested }
press logout_button x = record x { service = TwitchService.disconnect x.service }
press disconnect_button x = record x { service = TwitchService.disconnect x.service }
press reset_button x = record x { service = TwitchService.disconnect x.service }

-- A coroutine of `connectToChat` starts to run.
unfoldable pub start_connect : Session → Session
start_connect x =
    let (goes_on, service) = TwitchService.begin_connect x.service in
    record x {
      service = service;
      requested = x.requested - 1;
      connects = one_if goes_on + x.connects;
    }

unfoldable pub end_login : Outcome TwitchUserInfo → Text → Text → Session → Session
end_login o token client_id x = record x {
  service = TwitchService.finish_login o token client_id x.service;
  logins = x.logins - 1;
}

-- What `connect_task` left of the session over the WebSocket is stored with its end.
unfoldable pub end_connect : Outcome (Unit {0}) → EventSub → Session → Session
end_connect o e x = record x {
  service = TwitchService.finish_connect o (record x.service { eventsub = some e });
  connects = x.connects - 1;
}

unfoldable pub end_send : Outcome (Unit {0}) → Session → Session
end_send o x = record x { service = TwitchService.finish_send o x.service }

-- One step, with what allows it.
pub data Step : Session → Session → Type 0 where
  pressed : (b : Button) (x : Session) → has_button x.service.state b ≡ true → Step x (press b x)
  login_ended :
      (o : Outcome TwitchUserInfo) (token client_id : Text) (x : Session)
      → 0 < x.logins
      → Step x (end_login o token client_id x)
  connect_started : (x : Session) → 0 < x.requested → Step x (start_connect x)
  connect_ended :
      (o : Outcome (Unit {0})) (e : EventSub) (x : Session)
      → 0 < x.connects
      → Step x (end_connect o e x)
  send_ended : (o : Outcome (Unit {0})) (x : Session) → Step x (end_send o x)

-- What a session can become from its start, with or without a status callback.
pub data Reachable (cfg : ClientConfig) : Session → Type 0 where
  initial : Reachable cfg (start_session (TwitchService.new_twitch_service cfg))
  with_callback :
      Reachable cfg
        (start_session (TwitchService.set_status_callback (TwitchService.new_twitch_service cfg)))
  next : {x y : Session} → Reachable cfg x → Step x y → Reachable cfg y
