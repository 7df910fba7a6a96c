-- ===== src/Tests/Service.antt =====
-- Runs of the service: a login, a connection to the chat, and what arrives there.
use seraphbot.Base.{◌+◌, ◌≤◌, ◌<◌, ◌≡◌, refl, ◌⊎◌, true, none, some, List, [], arith, codes}
use seraphbot.Auth.{TwitchUserInfo}
use seraphbot.EventSub.{new_eventsub}
use seraphbot.Https.{ClientConfig, default_client_config}
use seraphbot.Net.{value}
use seraphbot.TwitchService.Owners
use seraphbot.TwitchService.Owners.{
  Suspended, Owners, resume, reading, release, connect_store, setup_owners, connects,
  logged_in_store,
}
use seraphbot.TwitchService.Owners.Lifetimes.{Reachable-resume, resume-release}
use seraphbot.TwitchService.{
  can_connect, TwitchService, State, disconnected, connecting_to_chat, logged_in,
  new_twitch_service, start_login, begin_connect, send_message, send_task, disconnect, can_send,
}
use seraphbot.TwitchService.Invariant.{is_some}
use seraphbot.TwitchService.Safety.{
  connecting_has_services, one_coroutine, sendable_is_ready, can_go_back, edge, Step-follows_edges,
}
use seraphbot.TwitchService.Session.{
  Session, Button, login_button, connect_button, has_button, press, start_connect, end_login,
  end_connect, Step, pressed, login_ended, connect_started, connect_ended, Reachable, initial, next,
  start_session,
}

abbrev ann : TwitchUserInfo
ann = record {
  id = codes "1";
  login = codes "ann";
  display_name = codes "Ann";
  broadcaster_type = [];
  description = [];
  created_at = 0;
  profile_image_url = [];
  view_count = 0;
  offline_image_url = [];
  email = [];
}

abbrev cfg : ClientConfig
cfg = default_client_config

abbrev before_login : Session
before_login = start_session (new_twitch_service cfg)

abbrev while_login : Session
while_login = press login_button before_login

abbrev after_login : Session
after_login = end_login (value ann) (codes "token") (codes "client") while_login

abbrev asked : Session
asked = press connect_button after_login

abbrev connecting : Session
connecting = start_connect asked

abbrev connected : Session
connected = end_connect (value tt) (new_eventsub cfg) connecting

logged_in-Reachable : Reachable cfg after_login
unfolding has_button start_session new_twitch_service press seraphbot.TwitchService.Session.one_if
    start_login seraphbot.TwitchService.is_disconnected
logged_in-Reachable =
    next (next initial (pressed login_button before_login refl))
      (login_ended (value ann) (codes "token") (codes "client") while_login (omega arith))

connecting-Reachable : Reachable cfg connecting
unfolding has_button end_login seraphbot.TwitchService.finish_login
    seraphbot.TwitchService.set_state press
connecting-Reachable =
    next (next logged_in-Reachable (pressed connect_button after_login refl))
      (connect_started asked (omega arith))

connected-Reachable : Reachable cfg connected
unfolding start_connect seraphbot.TwitchService.Session.one_if begin_connect
    seraphbot.TwitchService.can_connect press end_login seraphbot.TwitchService.finish_login
    seraphbot.TwitchService.set_state
connected-Reachable =
    next connecting-Reachable (connect_ended (value tt) (new_eventsub cfg) connecting (omega arith))

connecting_has_services_example :
    (connecting.service.state ≡ connecting_to_chat)
    × (connecting.service.chat_read ≡ true)
    × (is_some connecting.service.chat_send ≡ true)
    × (is_some connecting.service.eventsub ≡ true)
unfolding start_connect seraphbot.TwitchService.Session.one_if begin_connect
    seraphbot.TwitchService.can_connect press end_login seraphbot.TwitchService.finish_login
    seraphbot.TwitchService.set_state
connecting_has_services_example = connecting_has_services connecting-Reachable (omega arith)

one_coroutine_example : connecting.logins + connecting.connects ≤ 1
one_coroutine_example = one_coroutine connecting-Reachable

sendable_is_ready_example :
    (is_some connected.service.chat_send ≡ true) × (connected.logins ≡ 0) × (connected.connects ≡ 0)
unfolding can_send end_connect seraphbot.TwitchService.finish_connect
    seraphbot.TwitchService.set_state
sendable_is_ready_example = sendable_is_ready connected-Reachable refl

can_go_back_example :
    (after_login.service.state ≡ disconnected)
    ⊎ ((0 < after_login.logins + after_login.connects)
        ⊎ ((b : Button) × (has_button after_login.service.state b ≡ true)
            × ((press b after_login).service.state ≡ disconnected)))
can_go_back_example = can_go_back logged_in-Reachable

Step-follows_edges_example :
    (connected.service.state ≡ connecting.service.state)
    ⊎ (edge connecting.service.state connected.service.state ≡ true)
unfolding start_connect seraphbot.TwitchService.Session.one_if begin_connect
    seraphbot.TwitchService.can_connect press end_login seraphbot.TwitchService.finish_login
    seraphbot.TwitchService.set_state
Step-follows_edges_example =
    Step-follows_edges connecting-Reachable
      (connect_ended (value tt) (new_eventsub cfg) connecting (omega arith))

-- Behind a connection that was asked for: the coroutine in `EventSub::connect`.
abbrev connecting_owners : Owners
connecting_owners = record {
  state = connecting_to_chat;
  eventsub = some 0;
  chat_read = some 0;
  fresh = 1;
}

Reachable-resume_example :
    (r : List Suspended × Owners) × (resume (Owners.connecting 0) true connecting_owners ≡ some r)
unfolding connect_store setup_owners can_connect
Reachable-resume_example =
    Reachable-resume (Owners.connecting 0) true [] [] connecting_owners
      (Owners.next Owners.initial (connects logged_in_store))

resume-release_example : resume (reading 0) true (release connecting_owners) ≡ none
resume-release_example = resume-release (reading 0) connecting_owners refl
