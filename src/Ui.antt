-- ===== src/Ui.antt =====
-- src/ui/imgui_manager.cpp with the view models of include/seraphbot/viewmodels: the windows, each
-- as a function of what is typed and pressed in a frame. What they draw is in Drawing.
pub mod Colour
pub mod Frames
pub mod Steps
pub mod Calls
pub mod Drawing
pub mod Window
pub mod Sending
use seraphbot.Base.{
  ℕ, zero, suc, ◌+◌, ◌-◌, ◌*◌, ◌/◌, ◌%◌, ◌^◌, ◌≤◌, ◌<◌, String, ◌≡◌, refl, sym, ap, ◌∙◌, ◌≢◌, ◌↔◌,
  ◌⊎◌, inl, inr, Bool, true, false, not, ◌&&◌, ◌||◌, Option, none, some, List, [], ◌∷◌, ◌++◌, map,
  append-nil, append_assoc, arith, ltb, leb, ◌==◌, if◌then◌else◌, ==_iff, Bool-cases, Option-cases,
  length, drop, take, length-append, drop-length_append, All, All-append, All-mono, any_of, Text,
  codes, text_eq, text_eq_iff, text_eq_refl, starts_with, starts_with-append, starts_with-split,
  is_empty, to_lower, lower, to_lower_idem, lower_idem, is_space, to_text, ℤ, pos, negsuc, pos_part,
  neg_part, sub_ℕ, ltb_ℤ, clamp, clamp_bounds,
}
use seraphbot.AppState.{AppState, process_pending_messages}
use seraphbot.Chat.{ChatMessage}
use seraphbot.Discord.{Notifications, set_webhook_url}
use seraphbot.TwitchService.{
  TwitchService, State, disconnected, logging_in, logged_in, connecting_to_chat, chat_connected,
  error, can_send, start_login, send_message, disconnect,
}
use Colour.{ImVec4, hex_to_im_vec4}

-- The coroutines that the view models spawn.
pub data Task : Type 0 where
  login_task connect_task : Task
  message_task notification_task : Text → Task

-- The buttons of the window "Auth"; `log_out` is Logout, Disconnect or Reset.
pub record AuthButtons : Type 0 where
  pub log_in : Bool
  pub connect : Bool
  pub log_out : Bool

-- `AuthVM::login`
unfoldable pub spawn_login : Bool × TwitchService → List Task × TwitchService
spawn_login (true, s) = (login_task ∷ [], s)
spawn_login (false, s) = ([], s)

-- The switch of `manageAuth`.
unfoldable pub auth_buttons : AuthButtons → State → TwitchService → List Task × TwitchService
unfolding spawn_login
auth_buttons b disconnected s = if b.log_in then spawn_login (start_login s) else ([], s)
auth_buttons b logging_in s = ([], s)
auth_buttons b logged_in s =
    (if b.connect then connect_task ∷ [] else [], if b.log_out then disconnect s else s)
auth_buttons b connecting_to_chat s = ([], s)
auth_buttons b chat_connected s = ([], if b.log_out then disconnect s else s)
auth_buttons b error s = ([], if b.log_out then disconnect s else s)

-- The view model holds the state since `syncFrom`.
unfoldable pub manage_auth : AuthButtons → TwitchService → List Task × TwitchService
manage_auth b s = auth_buttons b s.state s

-- The window "Discord Settings": the two texts are the buffers behind this frame's input.
pub record DiscordInput : Type 0 where
  pub webhook_url : Text
  pub apply : Bool
  pub notification_text : Text
  pub test : Bool

unfoldable pub manage_discord : DiscordInput → Notifications → List Task × Notifications
manage_discord i n = (
  if i.test then notification_task i.notification_text ∷ [] else [],
  if i.apply then set_webhook_url i.webhook_url n else n,
)

-- The window "Chat": what the buffer of the input holds up to its first null character, behind this
-- frame's input, and whether Enter or the button "Send" was pressed.
pub record ChatInput : Type 0 where
  pub typed : Text
  pub enter : Bool
  pub send_button : Bool

pub record Line : Type 0 where
  pub color : ImVec4
  pub user : Text
  pub text : Text

-- `m_message_input` and the state that the manager refers to.
pub record ImGuiManager : Type 0 where
  pub state : AppState
  pub message_input : Text

unfoldable pub new_manager : AppState → ImGuiManager
new_manager s = record { state = s; message_input = [] }

-- `thrown`: an exception leaves `manageChat`.
pub record ChatResult : Type 0 where
  pub manager : ImGuiManager
  pub lines : List Line
  pub tasks : List Task
  pub thrown : Bool

-- The loop that draws the log; `none` is the exception of a colour.
unfoldable pub draw_log : List ChatMessage → Option (List Line)
draw_log [] = some []
draw_log (msg ∷ log) = elim (hex_to_im_vec4 msg.color) [
  | none ↦ none
  | some color ↦ elim (draw_log log) [
    | none ↦ none
    | some lines ↦ some (record { color = color; user = msg.user; text = msg.text } ∷ lines)
  ]
]

-- `ChatVM::sendMessage`
unfoldable pub spawn_message : Option Text → List Task
spawn_message none = []
spawn_message (some msg) = message_task msg ∷ []

-- One of the two ways to send what was typed: the messages, and what the buffer holds then.
unfoldable pub submit : TwitchService → Bool → Text → List Task × Text
submit service pressed buffer =
    if pressed && not (is_empty buffer)
    then (spawn_message (send_message buffer service), [])
    else ([], buffer)

-- What follows the drawing.
unfoldable pub chat_input :
    ChatInput → TwitchService → AppState → Option (List Line) → Text → ChatResult
chat_input i service s none buffer = record {
  manager = record { state = s; message_input = buffer };
  lines = [];
  tasks = [];
  thrown = true;
}
chat_input i service s (some lines) buffer =
    let (sent, left) = submit service i.enter i.typed in
    let (sent', left') = submit service i.send_button left in
    record {
      manager = record { state = s; message_input = left' };
      lines = lines;
      tasks = sent ++ sent';
      thrown = false;
    }

unfoldable pub manage_chat : ChatInput → TwitchService → ImGuiManager → ChatResult
unfolding chat_input
manage_chat i service m =
    if can_send service.state
    then (let s = process_pending_messages m.state in
        chat_input i service s (draw_log s.chat_log) m.message_input)
    else record { manager = m; lines = []; tasks = []; thrown = false }
