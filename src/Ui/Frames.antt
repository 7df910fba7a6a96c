-- ===== src/Ui/Frames.antt =====
-- The window "Auth" over several frames, without the coroutines that it spawns.
use seraphbot.Base.{ℕ, ◌+◌, ◌≤◌, ◌≡◌, refl, List, [], ◌∷◌, ◌++◌, arith}
use seraphbot.TwitchService.{
  TwitchService, State, disconnected, logging_in, logged_in, connecting_to_chat, chat_connected,
  error, start_login, set_state, disconnect, is_disconnected,
}
use seraphbot.Ui.{
  AuthButtons, Task, login_task, connect_task, message_task, notification_task, manage_auth,
  auth_buttons,
}

-- What is spawned in a sequence of frames.
unfoldable pub auth_frames : List AuthButtons → TwitchService → List Task × TwitchService
auth_frames [] s = ([], s)
auth_frames (b ∷ frames) s =
    let (tasks, s') = manage_auth b s in
    let (later, s'') = auth_frames frames s' in (tasks ++ later, s'')

abbrev pub login_count : List Task → ℕ
login_count [] = 0
login_count (login_task ∷ tasks) = 1 + login_count tasks
login_count (connect_task ∷ tasks) = login_count tasks
login_count (message_task msg ∷ tasks) = login_count tasks
login_count (notification_task msg ∷ tasks) = login_count tasks

login_count-append : (l r : List Task) → login_count (l ++ r) ≡ login_count l + login_count r
login_count-append [] r = omega arith
login_count-append (login_task ∷ l) r = omega (arith, login_count-append l r)
login_count-append (connect_task ∷ l) r = login_count-append l r
login_count-append (message_task msg ∷ l) r = login_count-append l r
login_count-append (notification_task msg ∷ l) r = login_count-append l r

-- How many logins the window can still spawn.
abbrev pub logins_left : State → ℕ
logins_left logging_in = 0
logins_left connecting_to_chat = 0
logins_left disconnected = 1
logins_left logged_in = 1
logins_left chat_connected = 1
logins_left error = 1

auth_buttons_bound :
    (b : AuthButtons) (st : State) (s : TwitchService)
    → s.state ≡ st
    → login_count (auth_buttons b st s).0 + logins_left (auth_buttons b st s).1.state
      ≤ logins_left st
unfolding auth_buttons start_login set_state disconnect is_disconnected
auth_buttons_bound b disconnected s h = ground arith
auth_buttons_bound b logging_in s h = ground arith
auth_buttons_bound b logged_in s h = ground arith
auth_buttons_bound b connecting_to_chat s h = ground arith
auth_buttons_bound b chat_connected s h = ground arith
auth_buttons_bound b error s h = ground arith

-- However many frames and buttons, before a coroutine changes the state the window spawns at most
-- one login, and none while a login or a connection to the chat is under way.
pub auth_frames_bound :
    (frames : List AuthButtons) (s : TwitchService)
    → login_count (auth_frames frames s).0 ≤ logins_left s.state
unfolding auth_frames manage_auth
auth_frames_bound [] s = omega arith
auth_frames_bound (b ∷ frames) s =
    let (tasks, s') = auth_buttons b s.state s in
    omega (
      arith,
      login_count-append tasks (auth_frames frames s').0,
      auth_buttons_bound b s.state s refl,
      auth_frames_bound frames s',
    )
