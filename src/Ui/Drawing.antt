-- ===== src/Ui/Drawing.antt =====
-- src/ui/imgui_manager.cpp: what a frame draws, as the sequence of its calls; what the windows do
-- with what is pressed is the parent's. include/seraphbot/ui/imgui_backend_opengl.hpp is the backend.
pub mod Nesting
pub mod Showing
use seraphbot.Base.{
  ℕ, zero, suc, ◌+◌, ◌-◌, ◌*◌, ◌/◌, ◌%◌, ◌^◌, ◌≤◌, ◌<◌, String, ◌≡◌, refl, sym, ap, ◌∙◌, ◌≢◌, ◌↔◌,
  ◌⊎◌, inl, inr, Bool, true, false, not, ◌&&◌, ◌||◌, Option, none, some, List, [], ◌∷◌, ◌++◌, map,
  append-nil, append_assoc, arith, ltb, leb, ◌==◌, if◌then◌else◌, ==_iff, Bool-cases, Option-cases,
  length, drop, take, length-append, drop-length_append, All, All-append, All-mono, any_of, Text,
  codes, text_eq, text_eq_iff, text_eq_refl, starts_with, starts_with-append, starts_with-split,
  is_empty, to_lower, lower, to_lower_idem, lower_idem, is_space, to_text, ℤ, pos, negsuc, pos_part,
  neg_part, sub_ℕ, ltb_ℤ, clamp, clamp_bounds,
}
use seraphbot.AppState.{process_pending_messages}
use seraphbot.Chat.{ChatMessage}
use seraphbot.Discord.{Notifications, set_webhook_url, get_webhook_url}
use seraphbot.TwitchService.{
  TwitchService, State, disconnected, logging_in, logged_in, connecting_to_chat, chat_connected,
  error, can_send,
}
use seraphbot.TwitchService.Session.{
  Button, login_button, connect_button, logout_button, disconnect_button, reset_button, has_button,
}
use seraphbot.Ui.{AuthButtons, DiscordInput, ChatInput, ImGuiManager}
use seraphbot.Ui.Calls.{
  push_text_wrap_pos, begin_child, end_menu_bar, end_menu, input_text, new_frame, begin_menu_bar,
  window_should_close, formatted_text, swap_buffers, menu_item, wrapped_text, glfw_new_frame,
  next_item_width, end_child, dock_space, plain_text, same_line, scroll_here, opengl_new_frame,
  render_draw_data, separator, pop_style_var, push_style_var, pop_text_wrap_pos, end_window,
  begin_menu, begin_window, clear_buffers, render, colored_text, button, UiCall, Drawn, poll_events,
}
use seraphbot.Ui.Colour.{hex_to_im_vec4, ImVec4}

-- What ImGui answers where the docking window asks, and whether the log is scrolled to its end.
pub record Answers : Type 0 where
  pub menu_bar : Bool
  pub file_menu : Bool
  pub exit : Bool
  pub view_menu : Bool
  pub at_end : Bool

-- Calls that are made only if ImGui answered so.
abbrev pub where_true : Bool → List UiCall → List UiCall
where_true b calls = if b then calls else []

-- The rest is drawn if no exception came first.
unfoldable pub then_draw : Drawn → List UiCall → Drawn
then_draw d calls = record d { calls = d.calls ++ (if d.thrown then [] else calls) }

unfoldable pub dock_menus : Answers → List UiCall
dock_menus a =
    (begin_menu (codes "File") a.file_menu
      ∷ where_true a.file_menu (
          separator
          ∷ menu_item (codes "Exit") a.exit
          ∷ (where_true a.exit (window_should_close ∷ []) ++ (end_menu ∷ []))))
    ++ ((begin_menu (codes "View") a.view_menu ∷ where_true a.view_menu (end_menu ∷ []))
        ++ (end_menu_bar ∷ []))

-- `manageDocking`
unfoldable pub docking_calls : Answers → List UiCall
docking_calls a =
    push_style_var
    ∷ push_style_var
    ∷ begin_window (codes "DockSpace")
    ∷ pop_style_var 2
    ∷ dock_space
    ∷ begin_menu_bar a.menu_bar
    ∷ (where_true a.menu_bar (dock_menus a) ++ (end_window ∷ []))

-- `manageFloating`; the argument is a float, which is left out.
unfoldable pub floating_calls : List UiCall
floating_calls = begin_window (codes "StatusBar") ∷ plain_text (codes "FPS: %.1F") ∷ end_window ∷ []

-- The texts of the switch of `manageAuth`, which come before the buttons.
unfoldable pub state_items : TwitchService → State → List UiCall
state_items s disconnected = []
state_items s logging_in = plain_text (codes "Logging in...") ∷ []
state_items s logged_in = formatted_text (codes "Logged in as: %s") s.current_user ∷ []
state_items s connecting_to_chat = plain_text (codes "Connecting to chat...") ∷ []
state_items s chat_connected = formatted_text (codes "Connected! User: %s") s.current_user ∷ []
state_items s error =
    colored_text (record { red = 255; green = 0; blue = 0; alpha = 255 }) (codes "Error occurred")
      []
    ∷ []

-- The button with its label, and what ImGui answers to it.
unfoldable pub button_call : AuthButtons → Button → UiCall
button_call b login_button = button (codes "Login to Twitch") b.log_in
button_call b connect_button = button (codes "Connect to Chat") b.connect
button_call b logout_button = button (codes "Logout") b.log_out
button_call b disconnect_button = button (codes "Disconnect") b.log_out
button_call b reset_button = button (codes "Reset") b.log_out

-- In the order of the source.
abbrev all_buttons : List Button
all_buttons = login_button ∷ connect_button ∷ logout_button ∷ disconnect_button ∷ reset_button ∷ []

-- The buttons that the session has in the state.
unfoldable pub drawn_buttons : AuthButtons → State → List Button → List UiCall
drawn_buttons b st [] = []
drawn_buttons b st (x ∷ xs) =
    if has_button st x then button_call b x ∷ drawn_buttons b st xs else drawn_buttons b st xs

-- The switch of `manageAuth`.
unfoldable pub auth_items : AuthButtons → TwitchService → State → List UiCall
auth_items b s st = state_items s st ++ drawn_buttons b st all_buttons

-- `manageAuth`
unfoldable pub auth_calls : AuthButtons → TwitchService → List UiCall
auth_calls b s = begin_window (codes "Auth") ∷ (auth_items b s s.state ++ (end_window ∷ []))

-- `manageDiscord`: the URL is shown behind the button that sets it, as a format of its own.
unfoldable pub discord_calls : DiscordInput → Notifications → List UiCall
discord_calls i n =
    begin_window (codes "Discord Settings")
    ∷ plain_text (codes "Discord WebHook URL")
    ∷ same_line
    ∷ next_item_width
    ∷ input_text (codes "##webhookurl") false
    ∷ button (codes "Apply") i.apply
    ∷ same_line
    ∷ plain_text (get_webhook_url (if i.apply then set_webhook_url i.webhook_url n else n))
    ∷ input_text (codes "##notification_message") false
    ∷ same_line
    ∷ button (codes "Test") i.test
    ∷ end_window
    ∷ []

-- A message of the log with what is drawn behind it; without a colour, the exception.
unfoldable pub line_calls : ChatMessage → Option ImVec4 → Drawn → Drawn
line_calls msg none rest = record { calls = []; thrown = true }
line_calls msg (some color) rest = record rest {
  calls =
      colored_text color (codes "%s: ") msg.user ∷ same_line ∷ wrapped_text msg.text ∷ rest.calls;
}

-- The loop over the log.
unfoldable pub log_calls : List ChatMessage → Drawn
log_calls [] = record { calls = []; thrown = false }
log_calls (msg ∷ log) = line_calls msg (hex_to_im_vec4 msg.color) (log_calls log)

-- What is drawn behind the log while messages can be sent.
unfoldable pub input_calls : Answers → ChatInput → List UiCall
input_calls a i =
    pop_text_wrap_pos
    ∷ (where_true a.at_end (scroll_here ∷ [])
        ++ (end_child
            ∷ next_item_width
            ∷ input_text (codes "##message") i.enter
            ∷ same_line
            ∷ button (codes "Send") i.send_button
            ∷ []))

-- The body of `manageChat`; the log is the one behind `processPendingMessages`.
unfoldable pub chat_items : Answers → ChatInput → List ChatMessage → Bool → Drawn
chat_items a i log true =
    let d = then_draw (log_calls log) (input_calls a i) in
    record d { calls = begin_child (codes "ScrollingRegion") ∷ push_text_wrap_pos ∷ d.calls }
chat_items a i log false = record {
  calls = plain_text (codes "Connect to chat to send messages") ∷ [];
  thrown = false;
}

-- `manageChat`
unfoldable pub chat_calls : Answers → ChatInput → TwitchService → ImGuiManager → Drawn
chat_calls a i service m =
    let d =
      then_draw
        (chat_items a i (process_pending_messages m.state).chat_log (can_send service.state))
        (end_window ∷ []) in
    record d { calls = begin_window (codes "Chat") ∷ d.calls }

-- `poll` and `beginFrame`, with `newFrame` of the backend
unfoldable pub begin_frame : List UiCall
begin_frame = poll_events ∷ clear_buffers ∷ opengl_new_frame ∷ glfw_new_frame ∷ new_frame ∷ []

-- `endFrame`, `render` and `swapBuffers`
unfoldable pub end_frame : List UiCall
end_frame = render ∷ render_draw_data ∷ swap_buffers ∷ []
