-- ===== src/Ui/Drawing/Nesting.antt =====
-- src/ui/imgui_manager.cpp: what the windows begin, they end.
use seraphbot.Base.{
  ℕ, ◌≡◌, refl, inl, inr, Bool, true, false, Option, none, some, List, [], ◌∷◌, ◌++◌, arith,
  if◌then◌else◌, Bool-cases, Text,
}
use seraphbot.Discord.{Notifications}
use seraphbot.AppState.{AppState, process_pending_messages}
use seraphbot.Chat.{ChatMessage}
use seraphbot.TwitchService.{
  TwitchService, State, disconnected, logging_in, logged_in, connecting_to_chat, chat_connected,
  error, can_send,
}
use seraphbot.Ui.{
  chat_input, manage_chat, Line, draw_log, AuthButtons, DiscordInput, ChatInput, ImGuiManager,
}
use seraphbot.Ui.Calls.{
  end_window, UiCall, Drawn, Scope, Open, accept_all, accept, accept_all-append, in_window,
  in_child, in_text_wrap,
}
use seraphbot.Ui.Drawing.{
  button_call, drawn_buttons, state_items, line_calls, then_draw, chat_calls, chat_items, log_calls,
  input_calls, auth_calls, auth_items, discord_calls, dock_menus, floating_calls, Answers,
  docking_calls,
}
use seraphbot.Ui.Colour.{ImVec4, hex_to_im_vec4}
use seraphbot.TwitchService.Session.{has_button}

-- Calls that leave open what was open, wherever they are made in a frame.
abbrev pub IsNested : List UiCall → Type 0
IsNested calls =
    (x : Scope) (l : List Scope) (n : ℕ)
    → accept_all calls (x ∷ l) n ≡ some (record { scopes = x ∷ l; style_vars = n })

pub append-IsNested : (xs ys : List UiCall) → IsNested xs → IsNested ys → IsNested (xs ++ ys)
append-IsNested xs ys hx hy x l n = rw (accept_all-append xs ys (x ∷ l) n, hx x l n) (hy x l n)

docking_cases :
    (menu_bar file_menu exit view_menu at_end : Bool)
    → IsNested (
        docking_calls (record {
          menu_bar = menu_bar;
          file_menu = file_menu;
          exit = exit;
          view_menu = view_menu;
          at_end = at_end;
        }))
unfolding accept docking_calls dock_menus
docking_cases false file_menu exit view_menu at_end x l n = refl
docking_cases true false exit false at_end x l n = refl
docking_cases true false exit true at_end x l n = refl
docking_cases true true false false at_end x l n = refl
docking_cases true true false true at_end x l n = refl
docking_cases true true true false at_end x l n = refl
docking_cases true true true true at_end x l n = refl

pub docking_calls-IsNested : (a : Answers) → IsNested (docking_calls a)
docking_calls-IsNested a = docking_cases a.menu_bar a.file_menu a.exit a.view_menu a.at_end

pub floating_calls-IsNested : IsNested floating_calls
unfolding floating_calls accept
floating_calls-IsNested x l n = refl

auth_items-IsNested :
    (b : AuthButtons) (s : TwitchService) (st : State) → IsNested (auth_items b s st)
unfolding auth_items accept state_items drawn_buttons button_call has_button
auth_items-IsNested b s disconnected x l n = refl
auth_items-IsNested b s logging_in x l n = refl
auth_items-IsNested b s logged_in x l n = refl
auth_items-IsNested b s connecting_to_chat x l n = refl
auth_items-IsNested b s chat_connected x l n = refl
auth_items-IsNested b s error x l n = refl

pub auth_calls-IsNested : (b : AuthButtons) (s : TwitchService) → IsNested (auth_calls b s)
unfolding auth_calls accept
auth_calls-IsNested b s x l n =
    rw
      (
        accept_all-append (auth_items b s s.state) (end_window ∷ []) (in_window ∷ x ∷ l) n,
        auth_items-IsNested b s s.state in_window (x ∷ l) n,
      )
      refl

pub discord_calls-IsNested : (i : DiscordInput) (n : Notifications) → IsNested (discord_calls i n)
unfolding discord_calls accept
discord_calls-IsNested i n x l k = refl

line_calls-IsNested :
    (msg : ChatMessage) (color : Option ImVec4) (rest : Drawn)
    → IsNested rest.calls
    → IsNested (line_calls msg color rest).calls
unfolding line_calls accept
line_calls-IsNested msg none rest h x l n = refl
line_calls-IsNested msg (some color) rest h x l n = h x l n

log_calls-IsNested : (log : List ChatMessage) → IsNested (log_calls log).calls
unfolding log_calls
log_calls-IsNested [] x l n = refl
log_calls-IsNested (msg ∷ log) x l n =
    line_calls-IsNested msg (hex_to_im_vec4 msg.color) (log_calls log) (log_calls-IsNested log) x l
      n

-- What is left open where an exception left the log, and otherwise.
abbrev pub log_open : Bool → List Scope → ℕ → Open
log_open false l n = record { scopes = l; style_vars = n }
log_open true l n = record { scopes = in_text_wrap ∷ in_child ∷ l; style_vars = n }

abbrev pub window_open : Bool → List Scope → ℕ → Open
window_open false l n = record { scopes = l; style_vars = n }
window_open true l n = log_open true (in_window ∷ l) n

input_calls_lem :
    (at_end menu_bar file_menu exit view_menu : Bool) (i : ChatInput) (x : Scope) (l : List Scope)
    (n : ℕ)
    → let a : Answers = record {
      menu_bar = menu_bar;
      file_menu = file_menu;
      exit = exit;
      view_menu = view_menu;
      at_end = at_end;
    } in
      accept_all (input_calls a i) (in_text_wrap ∷ in_child ∷ x ∷ l) n
      ≡ some (log_open false (x ∷ l) n)
unfolding input_calls accept
input_calls_lem false menu_bar file_menu exit view_menu i x l n = refl
input_calls_lem true menu_bar file_menu exit view_menu i x l n = refl

log_then_input :
    (a : Answers) (i : ChatInput) (calls : List UiCall) (thrown : Bool) (x : Scope) (l : List Scope)
    (n : ℕ)
    → IsNested calls
    → accept_all
        (calls ++ (if thrown then [] else input_calls a i))
        (in_text_wrap ∷ in_child ∷ x ∷ l)
        n
      ≡ some (log_open thrown (x ∷ l) n)
log_then_input a i calls true x l n h =
    rw
      (
        accept_all-append calls [] (in_text_wrap ∷ in_child ∷ x ∷ l) n,
        h in_text_wrap (in_child ∷ x ∷ l) n,
      )
      refl
log_then_input a i calls false x l n h =
    rw
      (
        accept_all-append calls (input_calls a i) (in_text_wrap ∷ in_child ∷ x ∷ l) n,
        h in_text_wrap (in_child ∷ x ∷ l) n,
      )
      (input_calls_lem a.at_end a.menu_bar a.file_menu a.exit a.view_menu i x l n)

chat_items_lem :
    (a : Answers) (i : ChatInput) (log : List ChatMessage) (can : Bool) (x : Scope) (l : List Scope)
    (n : ℕ)
    → accept_all (chat_items a i log can).calls (x ∷ l) n
      ≡ some (log_open (chat_items a i log can).thrown (x ∷ l) n)
unfolding chat_items then_draw accept
chat_items_lem a i log false x l n = refl
chat_items_lem a i log true x l n =
    log_then_input a i (log_calls log).calls (log_calls log).thrown x l n (log_calls-IsNested log)

then_end :
    (calls : List UiCall) (thrown : Bool) (x : Scope) (l : List Scope) (n : ℕ)
    → accept_all calls (in_window ∷ x ∷ l) n ≡ some (log_open thrown (in_window ∷ x ∷ l) n)
    → accept_all (calls ++ (if thrown then [] else end_window ∷ [])) (in_window ∷ x ∷ l) n
      ≡ some (window_open thrown (x ∷ l) n)
unfolding accept
then_end calls true x l n h = rw (accept_all-append calls [] (in_window ∷ x ∷ l) n, h) refl
then_end calls false x l n h =
    rw (accept_all-append calls (end_window ∷ []) (in_window ∷ x ∷ l) n, h) refl

pub chat_calls_lem :
    (a : Answers) (i : ChatInput) (s : TwitchService) (m : ImGuiManager) (x : Scope)
    (l : List Scope) (n : ℕ)
    → accept_all (chat_calls a i s m).calls (x ∷ l) n
      ≡ some (window_open (chat_calls a i s m).thrown (x ∷ l) n)
unfolding chat_calls then_draw accept
chat_calls_lem a i s m x l n =
    let log = (process_pending_messages m.state).chat_log in
    let d = chat_items a i log (can_send s.state) in
    then_end d.calls d.thrown x l n
      (chat_items_lem a i log (can_send s.state) (in_window) (x ∷ l) n)

abbrev pub is_none : Option (List Line) → Bool
is_none none = true
is_none (some lines) = false

log_calls-draw_log : (log : List ChatMessage) → (log_calls log).thrown ≡ is_none (draw_log log)
unfolding log_calls draw_log line_calls
log_calls-draw_log [] = refl
log_calls-draw_log (msg ∷ log) = ground (arith, log_calls-draw_log log)

chat_input_thrown :
    (a : Answers) (i : ChatInput) (s : TwitchService) (state : AppState) (buffer : Text)
    (o : Option (List Line))
    → (chat_input i s state o buffer).thrown ≡ is_none o
unfolding chat_input
chat_input_thrown a i s state buffer none = refl
chat_input_thrown a i s state buffer (some lines) = refl

pub chat_calls-manage_chat :
    (a : Answers) (i : ChatInput) (s : TwitchService) (m : ImGuiManager)
    → (chat_calls a i s m).thrown ≡ (manage_chat i s m).thrown
unfolding chat_calls chat_items then_draw manage_chat
chat_calls-manage_chat a i s m =
    let state = process_pending_messages m.state in
    elim (Bool-cases (can_send s.state)) [
      | inl e ↦
          rw
            (
              e,
              log_calls-draw_log state.chat_log,
              chat_input_thrown a i s state m.message_input (draw_log state.chat_log),
            )
            refl
      | inr e ↦ rw e refl
    ]
