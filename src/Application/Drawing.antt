-- ===== src/Application/Drawing.antt =====
-- src/application.cpp: what the body of the loop in `run` draws, which src/ui/imgui_manager.cpp
-- describes window by window.
use seraphbot.Base.{
  ◌≡◌, refl, ap, ◌∙◌, inl, inr, Bool, true, false, some, List, [], ◌∷◌, ◌++◌, if◌then◌else◌,
  Bool-cases,
}
use seraphbot.Ui.Calls.{
  Open, accept_all-append, accept_all, nothing_open, accept, UiCall, Drawn, in_frame,
}
use seraphbot.Application.Frame.{FrameResult, run_frames, FrameInput, Windows, frame}
use seraphbot.Ui.{manage_auth}
use seraphbot.Ui.Drawing.{
  discord_calls, end_frame, floating_calls, begin_frame, auth_calls, chat_calls, then_draw,
  docking_calls, Answers,
}
use seraphbot.Ui.Drawing.Nesting.{
  discord_calls-IsNested, auth_calls-IsNested, floating_calls-IsNested, docking_calls-IsNested,
  chat_calls-manage_chat, append-IsNested, chat_calls_lem, window_open, IsNested,
}

-- The windows up to the chat.
unfoldable pub settings_calls : Answers → FrameInput → Windows → List UiCall
settings_calls a i w =
    docking_calls a
    ++ (floating_calls
        ++ (auth_calls i.auth w.tw_service ++ discord_calls i.discord w.notifications))

unfoldable pub frame_calls : Answers → FrameInput → Windows → Drawn
frame_calls a i w =
    let (auth_tasks, service) = manage_auth i.auth w.tw_service in
    let chat = then_draw (chat_calls a i.chat service w.ui_manager) end_frame in
    record chat { calls = begin_frame ++ (settings_calls a i w ++ chat.calls) }

-- Frames behind a frame, up to an exception.
unfoldable pub next_frames : Drawn → Drawn → Drawn
next_frames d rest = if d.thrown then d else record rest { calls = d.calls ++ rest.calls }

-- The loop up to `shouldClose`, or up to an exception.
unfoldable pub frames_calls : List (Answers × FrameInput) → Windows → Drawn
frames_calls [] w = record { calls = []; thrown = false }
frames_calls ((a, i) ∷ inputs) w =
    next_frames (frame_calls a i w) (frames_calls inputs (frame i w).windows)

settings_calls-IsNested :
    (a : Answers) (i : FrameInput) (w : Windows) → IsNested (settings_calls a i w)
unfolding settings_calls
settings_calls-IsNested a i w =
    let auth = auth_calls i.auth w.tw_service in
    let discord = discord_calls i.discord w.notifications in
    append-IsNested (docking_calls a) (floating_calls ++ (auth ++ discord))
      (docking_calls-IsNested a)
      (append-IsNested floating_calls (auth ++ discord) floating_calls-IsNested (
        append-IsNested auth discord (auth_calls-IsNested i.auth w.tw_service)
          (discord_calls-IsNested i.discord w.notifications)))

-- What an exception in a frame leaves open, and otherwise.
abbrev pub frame_open : Bool → Open
frame_open false = nothing_open
frame_open true = window_open true (in_frame ∷ []) 0

then_end_frame :
    (calls : List UiCall) (thrown : Bool)
    → accept_all calls (in_frame ∷ []) 0 ≡ some (window_open thrown (in_frame ∷ []) 0)
    → accept_all (calls ++ (if thrown then [] else end_frame)) (in_frame ∷ []) 0
      ≡ some (frame_open thrown)
unfolding accept end_frame
then_end_frame calls true h = rw (accept_all-append calls [] (in_frame ∷ []) 0, h) refl
then_end_frame calls false h = rw (accept_all-append calls end_frame (in_frame ∷ []) 0, h) refl

frame_calls_thrown :
    (a : Answers) (i : FrameInput) (w : Windows) → (frame_calls a i w).thrown ≡ (frame i w).thrown
unfolding frame_calls then_draw frame
frame_calls_thrown a i w =
    chat_calls-manage_chat a i.chat (manage_auth i.auth w.tw_service).1 w.ui_manager

frame_calls_nested :
    (a : Answers) (i : FrameInput) (w : Windows)
    → accept_all (frame_calls a i w).calls [] 0 ≡ some (frame_open (frame i w).thrown)
unfolding frame_calls then_draw frame begin_frame accept
frame_calls_nested a i w =
    let (auth_tasks, service) = manage_auth i.auth w.tw_service in
    let chat = chat_calls a i.chat service w.ui_manager in
    rw
      (
        accept_all-append (settings_calls a i w)
            (chat.calls ++ (if chat.thrown then [] else end_frame)) (in_frame ∷ []) 0,
        settings_calls-IsNested a i w in_frame [] 0,
        then_end_frame chat.calls chat.thrown
            (chat_calls_lem a i.chat service w.ui_manager in_frame [] 0),
        chat_calls-manage_chat a i.chat service w.ui_manager,
      )
      refl

abbrev pub inputs_of : List (Answers × FrameInput) → List FrameInput
inputs_of [] = []
inputs_of ((a, i) ∷ inputs) = i ∷ inputs_of inputs

next_frames_lem :
    (d rest : Drawn) (r later : FrameResult)
    → d.thrown ≡ r.thrown
    → accept_all d.calls [] 0 ≡ some (frame_open r.thrown)
    → accept_all rest.calls [] 0 ≡ some (frame_open later.thrown)
    → accept_all (next_frames d rest).calls [] 0
      ≡ some (
          frame_open
            (if r.thrown then r else record later { tasks = r.tasks ++ later.tasks }).thrown)
unfolding next_frames
next_frames_lem d rest r later e h k = elim (Bool-cases r.thrown) [
  | inl t ↦ rw (e, t) (h ∙ ap (λ b. some (frame_open b)) t)
  | inr t ↦ rw (e, t, accept_all-append d.calls rest.calls [] 0, h, t) k
]

-- However many frames, whatever is pressed and answered in them: no call is made out of place. All
-- that the frames begin is ended, unless an exception leaves the loop; then the window "Chat", its
-- child and its text wrap are open in a frame.
pub frames_calls_nested :
    (inputs : List (Answers × FrameInput)) (w : Windows)
    → accept_all (frames_calls inputs w).calls [] 0
      ≡ some (frame_open (run_frames (inputs_of inputs) w).thrown)
unfolding frames_calls run_frames
frames_calls_nested [] w = refl
frames_calls_nested ((a, i) ∷ inputs) w =
    next_frames_lem (frame_calls a i w) (frames_calls inputs (frame i w).windows) (frame i w)
      (run_frames (inputs_of inputs) (frame i w).windows) (frame_calls_thrown a i w)
      (frame_calls_nested a i w) (frames_calls_nested inputs (frame i w).windows)
