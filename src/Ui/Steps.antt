-- ===== src/Ui/Steps.antt =====
-- The window "Auth" among the steps of the service, which the coroutines make as well.
use mathlib.Core.Path.{subst}
use seraphbot.Base.{
  ℕ, suc, ◌+◌, ◌≡◌, refl, sym, ap, Bool, true, false, List, [], ◌∷◌, arith, if◌then◌else◌,
}
use seraphbot.Https.{ClientConfig}
use seraphbot.TwitchService.{
  TwitchService, State, disconnected, logging_in, logged_in, connecting_to_chat, chat_connected,
  error, start_login, disconnect,
}
use seraphbot.TwitchService.Session.{
  Session, Button, login_button, connect_button, logout_button, disconnect_button, reset_button,
  has_button, press, one_if, pressed, Reachable, next,
}
use seraphbot.Ui.{
  AuthButtons, Task, login_task, connect_task, message_task, notification_task, manage_auth,
  auth_buttons, spawn_login,
}

-- The coroutines that a frame spawned; those of messages and notifications change no state here.
abbrev pub spawn_all : List Task → Session → Session
spawn_all [] x = x
spawn_all (login_task ∷ tasks) x = spawn_all tasks (record x { logins = 1 + x.logins })
spawn_all (connect_task ∷ tasks) x = spawn_all tasks (record x { requested = suc x.requested })
spawn_all (message_task msg ∷ tasks) x = spawn_all tasks x
spawn_all (notification_task msg ∷ tasks) x = spawn_all tasks x

abbrev pub after_tasks : List Task × TwitchService → Session → Session
after_tasks (tasks, service) x = record (spawn_all tasks x) { service = service }

-- A session behind a frame.
unfoldable pub after_frame : AuthButtons → Session → Session
after_frame b x = after_tasks (manage_auth b x.service) x

-- What the code of `login` does is what the button of the session does.
after_tasks-spawn_login :
    (x : Session) (r : Bool × TwitchService)
    → after_tasks (spawn_login r) x ≡ record x { service = r.1; logins = one_if r.0 + x.logins }
unfolding spawn_login one_if
after_tasks-spawn_login x (true, s) = refl
after_tasks-spawn_login x (false, s) =
    ap (λ (n : ℕ). record x { service = s; logins = n }) (omega arith)

module _ {cfg : ClientConfig} where
  log_in-Reachable :
      (go : Bool) (x : Session)
      → x.service.state ≡ disconnected
      → Reachable cfg x
      → Reachable cfg
          (after_tasks (if go then spawn_login (start_login x.service) else ([], x.service)) x)
  unfolding press has_button
  log_in-Reachable false x e r = r
  log_in-Reachable true x e r =
      subst (Reachable cfg) (sym (after_tasks-spawn_login x (start_login x.service)))
        (next r (pressed login_button x (rw e refl)))

  log_out-Reachable :
      (go : Bool) (b : Button) (x : Session)
      → press b x ≡ record x { service = disconnect x.service }
      → has_button x.service.state b ≡ true
      → Reachable cfg x
      → Reachable cfg (record x { service = if go then disconnect x.service else x.service })
  log_out-Reachable false b x same h r = r
  log_out-Reachable true b x same h r = subst (Reachable cfg) same (next r (pressed b x h))

  connect-Reachable :
      (go out : Bool) (x : Session)
      → x.service.state ≡ logged_in
      → Reachable cfg x
      → Reachable cfg (
          after_tasks
            (if go then connect_task ∷ [] else [], if out then disconnect x.service else x.service)
            x)
  unfolding press has_button
  connect-Reachable false out x e r = log_out-Reachable out logout_button x refl (rw e refl) r
  connect-Reachable true out x e r =
      log_out-Reachable out logout_button (press connect_button x) refl (rw e refl)
        (next r (pressed connect_button x (rw e refl)))

  auth_buttons-Reachable :
      (b : AuthButtons) (st : State) (x : Session)
      → x.service.state ≡ st
      → Reachable cfg x
      → Reachable cfg (after_tasks (auth_buttons b st x.service) x)
  unfolding auth_buttons press has_button
  auth_buttons-Reachable b disconnected x e r = log_in-Reachable b.log_in x e r
  auth_buttons-Reachable b logging_in x e r = r
  auth_buttons-Reachable b logged_in x e r = connect-Reachable b.connect b.log_out x e r
  auth_buttons-Reachable b connecting_to_chat x e r = r
  auth_buttons-Reachable b chat_connected x e r =
      log_out-Reachable b.log_out disconnect_button x refl (rw e refl) r
  auth_buttons-Reachable b error x e r =
      log_out-Reachable b.log_out reset_button x refl (rw e refl) r

  -- Whatever buttons of the window "Auth" are pressed in a frame, also two of them: the frame takes
  -- a session that the steps can reach to one that they can reach.
  pub Reachable-after_frame :
      (b : AuthButtons) (x : Session) → Reachable cfg x → Reachable cfg (after_frame b x)
  unfolding after_frame manage_auth
  Reachable-after_frame b x r = auth_buttons-Reachable b x.service.state x refl r
