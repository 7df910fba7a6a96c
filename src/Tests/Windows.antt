-- ===== src/Tests/Windows.antt =====
-- Runs of the windows and of the notification.
use seraphbot.Base.{
  ℕ, zero, suc, ◌+◌, ◌-◌, ◌*◌, ◌/◌, ◌%◌, ◌^◌, ◌≤◌, ◌<◌, String, ◌≡◌, refl, sym, ap, ◌∙◌, ◌≢◌, ◌↔◌,
  ◌⊎◌, inl, inr, Bool, true, false, not, ◌&&◌, ◌||◌, Option, none, some, List, [], ◌∷◌, ◌++◌, map,
  append-nil, append_assoc, arith, ltb, leb, ◌==◌, if◌then◌else◌, ==_iff, Bool-cases, Option-cases,
  length, drop, take, length-append, drop-length_append, All, All-append, All-mono, any_of, Text,
  codes, text_eq, text_eq_iff, text_eq_refl, starts_with, starts_with-append, starts_with-split,
  is_empty, to_lower, lower, to_lower_idem, lower_idem, is_space, to_text, ℤ, pos, negsuc, pos_part,
  neg_part, sub_ℕ, ltb_ℤ, clamp, clamp_bounds,
}
use seraphbot.AppState.{new_app_state, push_chat_message, process_pending_messages, AppState}
use seraphbot.Application.{Application, receive, new_application}
use seraphbot.Application.Frame.{frame_message_connected, run_frames, FrameInput, Windows, frame}
use seraphbot.Application.Arriving.{receive_text, receive_text_command}
use seraphbot.Application.{Handler, commands_handler, run_handler, register_native}
use seraphbot.Application.Entry.{main, run_end, terminated, receive_terminates}
use seraphbot.Application.Drawing.{frames_calls, frame_open, frames_calls_nested}
use seraphbot.Application.Lifetime.{
  program_calls, is_terminated, initialize_end, all_live, program_calls_lem,
}
use seraphbot.Ui.Window.{allow_all, nothing_live}
use seraphbot.Ui.Calls.{accept_all}
use seraphbot.Ui.Drawing.{Answers}
use seraphbot.Chat.{ChatMessage}
use seraphbot.CommandParser.{new_parser, register_command}
use seraphbot.CommandParser.Quoting.{quote_tokens}
use seraphbot.LuaEngine.{new_engine}
use seraphbot.Net.{JsonLibrary}
use seraphbot.TwitchService.Events.{notification_type}
use seraphbot.Cooldown.{is_on_cooldown}
use seraphbot.Cooldown.History.{Event, used, reset, tracker_of, refused, is_on_cooldown-tracker_of}
use seraphbot.Discord.{Notifications, stream_info}
use seraphbot.Discord.Sending.{stream_info_sizes, HasSizes}
use seraphbot.Https.{default_client_config}
use seraphbot.Tests.Video.{obs_new}
use seraphbot.Tests.Worlds.{quiet_net, flat_json, log_host, message_of, hug}
use seraphbot.TwitchService
use seraphbot.TwitchService.{new_twitch_service, TwitchService, chat_connected, can_send}
use seraphbot.Ui.{
  manage_auth, auth_buttons, manage_discord, draw_log, submit, spawn_message, chat_input,
  AuthButtons, DiscordInput, ChatInput, ImGuiManager, manage_chat, new_manager,
}
use seraphbot.Ui.Colour.Hex.{hex_to_im_vec4-print_byte, print_byte}
use seraphbot.Ui.Colour.{stoul, ImVec4, hex_to_im_vec4}
use seraphbot.Ui.Steps.{Reachable-after_frame, after_frame}
use seraphbot.TwitchService.Session.{Reachable, initial, start_session}
use seraphbot.Ui.Sending.{manage_chat_sends, sent_once}

stream_info_sizes_example : HasSizes (stream_info quiet_net flat_json default_client_config 0).0
stream_info_sizes_example = stream_info_sizes quiet_net flat_json default_client_config 0

abbrev notifications : Notifications
notifications = record { cfg = default_client_config; webhook_url = codes "/api/webhooks/1" }

abbrev chatting : TwitchService
chatting = record {
  config = default_client_config;
  state = chat_connected;
  current_user = codes "Ann";
  eventsub = none;
  chat_read = true;
  chat_send = some default_client_config;
  has_status_callback = false;
  statuses = [];
}

-- One message in the queue, in white.
abbrev chat_state : AppState
chat_state = record {
  chat_log = [];
  last_status = [];
  show_debug_window = false;
  auto_scroll_chat = true;
  pending_messages = message_of (codes "Ann") (codes "hi") [] ∷ [];
}

abbrev chat_manager : ImGuiManager
chat_manager = record { state = chat_state; message_input = [] }

-- Enter and the button in one frame.
abbrev both_ways : ChatInput
both_ways = record { typed = codes "yo"; enter = true; send_button = true }

abbrev white : ImVec4
white = record { red = 255; green = 255; blue = 255; alpha = 255 }

manage_chat_sends_example :
    let r = manage_chat both_ways chatting chat_manager in
    (r.thrown ≡ false)
    × (r.lines ≡ record { color = white; user = codes "Ann"; text = codes "hi" } ∷ [])
    × ((r.tasks, r.manager.message_input) ≡ sent_once true (codes "yo"))
unfolding can_send draw_log hex_to_im_vec4 stoul seraphbot.Ui.Colour.has_hash is_space
    seraphbot.Ui.Colour.signed seraphbot.Ui.Colour.prefixed seraphbot.Ui.Colour.number
    seraphbot.Ui.Colour.hex_digit seraphbot.Ui.Colour.colour_of seraphbot.Ui.Colour.digits
manage_chat_sends_example = manage_chat_sends both_ways chatting chat_manager _ refl refl

abbrev no_auth : AuthButtons
no_auth = record { log_in = false; connect = false; log_out = false }

abbrev no_discord : DiscordInput
no_discord = record { webhook_url = []; apply = false; notification_text = []; test = false }

abbrev windows : Windows
windows = record {
  connection = record { work_guard = true; stopped = false; thread_pool = []; thread_count = 0 };
  tw_service = chatting;
  notifications = notifications;
  obs = obs_new;
  ui_manager = record chat_manager { state = record chat_state { pending_messages = [] } };
}

abbrev one_frame : FrameInput
one_frame = record { auth = no_auth; discord = no_discord; chat = both_ways }

frame_message_connected_example :
    (frame one_frame windows).windows.tw_service.state ≡ chat_connected
unfolding frame manage_auth auth_buttons manage_discord manage_chat can_send draw_log
    process_pending_messages submit is_empty seraphbot.TwitchService.send_message spawn_message
    chat_input
frame_message_connected_example = frame_message_connected one_frame windows refl

-- A colour that is no number.
abbrev pink : ChatMessage
pink = record { user = codes "Ann"; text = codes "hi"; color = codes "#pink!!"; badges = [] }

abbrev history : List Event
history = used (codes "hug") (codes "Ann") 5_000_000_000 ∷ reset ∷ []

is_on_cooldown-tracker_of_example :
    is_on_cooldown (tracker_of history) (codes "hug") (codes "Bob") hug 9_000_000_000
    ≡ refused history (codes "hug") (codes "Bob") hug 9_000_000_000
is_on_cooldown-tracker_of_example =
    is_on_cooldown-tracker_of history (codes "hug") (codes "Bob") hug 9_000_000_000

-- A text is a chat message that says the text, and every other string of it is the text too.
abbrev chat_json : JsonLibrary
chat_json = record flat_json {
  index = λ j key.
      if text_eq key (codes "message_type")
      then some (codes "notification")
      else if text_eq key (codes "subscription_type")
      then some (codes "channel.chat.message")
      else some j;
}

abbrev asks : Text
asks = codes "!" ++ quote_tokens (codes "commands") []

abbrev asking : ChatMessage
asking = record { user = asks; text = asks; color = asks; badges = [] }

abbrev application : Application Text
application = record {
  app_state = new_app_state;
  command_parser = register_native log_host (new_parser (Handler Text));
  command_engine = new_engine;
}

receive_text_command_example :
    receive_text chat_json log_host asks (application, [])
    ≡ (run_handler log_host commands_handler
        (record { message = asking; command = codes "commands"; args = [] })
        (record application { app_state = push_chat_message asking new_app_state }, [])).1
unfolding register_native register_command new_parser notification_type text_eq
    seraphbot.TwitchService.Events.chat_message_of is_empty seraphbot.Base.Dict.lookup
    seraphbot.Base.Dict.insert to_lower
receive_text_command_example =
    receive_text_command chat_json log_host asks asks asking (codes "commands") [] commands_handler
      application [] refl refl refl (λ e. cc) tt refl

-- A login is pressed in a first frame.
abbrev log_in : AuthButtons
log_in = record no_auth { log_in = true }

Reachable-after_frame_example :
    Reachable default_client_config
      (after_frame log_in (start_session (new_twitch_service default_client_config)))
Reachable-after_frame_example =
    Reachable-after_frame log_in (start_session (new_twitch_service default_client_config)) initial

hex_to_im_vec4-print_byte_example :
    (hex_to_im_vec4 (b'#' ∷ (print_byte 255 ++ (print_byte 127 ++ print_byte 9)))
      ≡ some (record { red = 255; green = 127; blue = 9; alpha = 255 }))
    × (hex_to_im_vec4
          (b'#' ∷ (print_byte 255 ++ (print_byte 127 ++ (print_byte 9 ++ print_byte 64))))
        ≡ some (record { red = 255; green = 127; blue = 9; alpha = 64 }))
hex_to_im_vec4-print_byte_example =
    hex_to_im_vec4-print_byte 255 127 9 64 (omega arith) (omega arith) (omega arith) (omega arith)

receive_terminates_example :
    main none (
      run_end (
        run_frames (one_frame ∷ []) (record windows {
          ui_manager = record {
            state = (receive log_host pink (new_application log_host, [])).1.0.app_state;
            message_input = [];
          };
        })))
    ≡ terminated
unfolding hex_to_im_vec4 can_send manage_auth auth_buttons seraphbot.Ui.Colour.has_hash
    seraphbot.Ui.Colour.stoul is_space seraphbot.Ui.Colour.signed seraphbot.Ui.Colour.prefixed
    seraphbot.Ui.Colour.number seraphbot.Ui.Colour.hex_digit
receive_terminates_example =
    receive_terminates log_host pink (new_application log_host, []) one_frame [] windows refl refl

-- The button Exit of the open menu File.
abbrev answers : Answers
answers = record {
  menu_bar = true;
  file_menu = true;
  exit = true;
  view_menu = false;
  at_end = true;
}

frames_calls_nested_example :
    accept_all (frames_calls ((answers, one_frame) ∷ (answers, one_frame) ∷ []) windows).calls [] 0
    ≡ some (frame_open (run_frames (one_frame ∷ one_frame ∷ []) windows).thrown)
frames_calls_nested_example =
    frames_calls_nested ((answers, one_frame) ∷ (answers, one_frame) ∷ []) windows

program_calls_lem_example :
    allow_all (program_calls true true (run_end (frame one_frame windows))) nothing_live
    ≡ some (
        if is_terminated (main (initialize_end true true) (run_end (frame one_frame windows)))
        then all_live
        else nothing_live)
program_calls_lem_example = program_calls_lem true true (run_end (frame one_frame windows))
