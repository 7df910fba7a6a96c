-- ===== src/Application/Frame.antt =====
-- src/application.cpp: `initialize` and the loop of `run`, a frame of which shows the windows one
-- after the other; and `shutdown`, which the program does not call.
use seraphbot.Base.{
  ℕ, ◌≡◌, refl, ap, inl, inr, Bool, true, false, ◌||◌, List, [], ◌∷◌, ◌++◌, arith, if◌then◌else◌,
  Bool-cases, any_of, Text, codes,
}
use seraphbot.AppState.{AppState, new_app_state, push_chat_message}
use seraphbot.Chat.{ChatMessage}
use seraphbot.Connections.{ConnectionManager, new_connection_manager}
use seraphbot.Discord.{Notifications}
use seraphbot.Https.{ClientConfig}
use seraphbot.LuaHost.{Host}
use seraphbot.Obs.{ObsService, new_service}
use seraphbot.TwitchService.{
  TwitchService, State, disconnected, logging_in, logged_in, connecting_to_chat, chat_connected,
  error, can_send, start_login, new_twitch_service, set_status_callback,
}
use seraphbot.Ui.{
  AuthButtons, DiscordInput, ChatInput, ImGuiManager, Task, login_task, connect_task, message_task,
  notification_task, manage_auth, manage_discord, manage_chat, auth_buttons, spawn_login,
  new_manager,
}
use seraphbot.Ui.Sending.{is_bad, manage_chat_bad}
use seraphbot.Application.{Application, receive}
use seraphbot.Application.Messages.{receive-HasChat}

-- What the windows show and change.
pub record Windows : Type 0 where
  pub connection : ConnectionManager
  pub tw_service : TwitchService
  pub notifications : Notifications
  pub obs : ObsService
  pub ui_manager : ImGuiManager

-- `initialize`: the three groups of objects, and the status callback.
unfoldable pub initialize : ℕ → ClientConfig → Windows
initialize thread_count cfg = record {
  connection = new_connection_manager thread_count;
  tw_service = set_status_callback (new_twitch_service cfg);
  notifications = record { cfg = cfg; webhook_url = [] };
  obs = new_service (codes "testpassword");
  ui_manager = new_manager new_app_state;
}

-- The status callback.
unfoldable pub receive_status : Text → AppState → AppState
receive_status status s = record s { last_status = status }

-- Which of the pointers that `shutdown` resets are set; `initializeUi` has moved the backend out.
pub record Parts : Type 0 where
  pub ui_manager : Bool
  pub ui_backend : Bool
  pub tw_service : Bool
  pub app_state : Bool
  pub conn : Bool

abbrev pub initialized_parts : Parts
initialized_parts = record {
  ui_manager = true;
  ui_backend = false;
  tw_service = true;
  app_state = true;
  conn = true;
}

unfoldable pub shutdown : Parts → Parts
shutdown p = record p {
  ui_manager = false;
  ui_backend = false;
  tw_service = false;
  app_state = false;
  conn = false;
}

-- What is typed and pressed in one frame.
pub record FrameInput : Type 0 where
  pub auth : AuthButtons
  pub discord : DiscordInput
  pub chat : ChatInput

pub record FrameResult : Type 0 where
  pub windows : Windows
  pub tasks : List Task
  pub thrown : Bool

-- The body of the loop: the window "Chat" sees what the buttons of "Auth" have done.
unfoldable pub frame : FrameInput → Windows → FrameResult
frame i w =
    let (auth_tasks, service) = manage_auth i.auth w.tw_service in
    let (discord_tasks, n) = manage_discord i.discord w.notifications in
    let chat = manage_chat i.chat service w.ui_manager in
    record {
      windows = record w { tw_service = service; notifications = n; ui_manager = chat.manager };
      tasks = auth_tasks ++ (discord_tasks ++ chat.tasks);
      thrown = chat.thrown;
    }

-- The loop up to `shouldClose`, or up to an exception.
unfoldable pub run_frames : List FrameInput → Windows → FrameResult
run_frames [] w = record { windows = w; tasks = []; thrown = false }
run_frames (i ∷ inputs) w =
    let r = frame i w in
    let rest = run_frames inputs r.windows in
    if r.thrown then r else record rest { tasks = r.tasks ++ rest.tasks }

abbrev pub is_message : Task → Bool
is_message login_task = false
is_message connect_task = false
is_message (message_task msg) = true
is_message (notification_task msg) = false

any_of-append :
    (l r : List Task) → any_of is_message (l ++ r) ≡ (any_of is_message l || any_of is_message r)
any_of-append [] r = refl
any_of-append (login_task ∷ l) r = any_of-append l r
any_of-append (connect_task ∷ l) r = any_of-append l r
any_of-append (message_task msg ∷ l) r = refl
any_of-append (notification_task msg ∷ l) r = any_of-append l r

auth_no_message :
    (b : AuthButtons) (st : State) (s : TwitchService)
    → any_of is_message (auth_buttons b st s).0 ≡ false
unfolding auth_buttons spawn_login start_login
auth_no_message b disconnected s = ground arith
auth_no_message b logging_in s = ground arith
auth_no_message b logged_in s = ground arith
auth_no_message b connecting_to_chat s = ground arith
auth_no_message b chat_connected s = ground arith
auth_no_message b error s = ground arith

discord_no_message :
    (i : DiscordInput) (n : Notifications) → any_of is_message (manage_discord i n).0 ≡ false
unfolding manage_discord
discord_no_message i n = ground arith

can_send_connected : (st : State) → can_send st ≡ true → st ≡ chat_connected
unfolding can_send
can_send_connected disconnected h = cc
can_send_connected logging_in h = cc
can_send_connected logged_in h = cc
can_send_connected connecting_to_chat h = cc
can_send_connected chat_connected h = refl
can_send_connected error h = cc

chat_closed :
    (i : ChatInput) (s : TwitchService) (m : ImGuiManager)
    → can_send s.state ≡ false
    → (manage_chat i s m).tasks ≡ []
unfolding manage_chat
chat_closed i s m h = rw h refl

chat_message_connected :
    (i : ChatInput) (s : TwitchService) (m : ImGuiManager)
    → any_of is_message (manage_chat i s m).tasks ≡ true
    → s.state ≡ chat_connected
chat_message_connected i s m h = elim (Bool-cases (can_send s.state)) [
  | inl e ↦ can_send_connected s.state e
  | inr e ↦ let closed = ap (any_of is_message) (chat_closed i s m e) in cc
]

-- Whatever is pressed in whichever windows: a frame that spawns a message leaves the service
-- connected to the chat.
pub frame_message_connected :
    (i : FrameInput) (w : Windows)
    → any_of is_message (frame i w).tasks ≡ true
    → (frame i w).windows.tw_service.state ≡ chat_connected
unfolding frame manage_auth
frame_message_connected i w h =
    let (auth_tasks, service) = auth_buttons i.auth w.tw_service.state w.tw_service in
    let (discord_tasks, n) = manage_discord i.discord w.notifications in
    let chat_tasks = (manage_chat i.chat service w.ui_manager).tasks in
    chat_message_connected i.chat service w.ui_manager (
      ground (
        arith,
        any_of-append auth_tasks (discord_tasks ++ chat_tasks),
        any_of-append discord_tasks chat_tasks,
        auth_no_message i.auth w.tw_service.state w.tw_service,
        discord_no_message i.discord w.notifications,
        h,
      ))

any_of_behind :
    {A : Type 0} (p : A → Bool) (l r : List A) → any_of p r ≡ true → any_of p (l ++ r) ≡ true
any_of_behind p [] r h = h
any_of_behind p (x ∷ l) r h = ground (arith, any_of_behind p l r h)

-- A chat message whose colour is no number, whatever command it holds and whatever its handler
-- does, makes the window "Chat" throw where it is shown next, while messages can be sent.
pub receive_bad :
    (host : Host) (msg : ChatMessage) (s : Application host.Function × host.World) (i : ChatInput)
    (service : TwitchService) (buffer : Text)
    → is_bad msg ≡ true
    → can_send service.state ≡ true
    → let m : ImGuiManager = record {
      state = (receive host msg s).1.0.app_state;
      message_input = buffer;
    } in
      (manage_chat i service m).thrown ≡ true
unfolding push_chat_message
receive_bad host msg s i service buffer bad h =
    rw (receive-HasChat host msg s)
      (manage_chat_bad i service _ h (
        any_of_behind is_bad s.0.app_state.chat_log _
          (any_of_behind is_bad s.0.app_state.pending_messages (msg ∷ []) (rw bad refl)))).0
