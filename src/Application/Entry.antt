-- ===== src/Application/Entry.antt =====
-- src/main.cpp: how the program ends.
use seraphbot.Base.{◌≡◌, refl, true, Option, none, some, List, ◌∷◌, if◌then◌else◌, ℤ, pos}
use seraphbot.Chat.{ChatMessage}
use seraphbot.LuaHost.{Host}
use seraphbot.TwitchService.{can_send}
use seraphbot.Ui.{ImGuiManager, manage_auth}
use seraphbot.Ui.Sending.{is_bad}
use seraphbot.Application.{Application, receive}
use seraphbot.Application.Frame.{Windows, FrameInput, FrameResult, frame, run_frames, receive_bad}

-- An exception by what `main` tells apart: whether it is a `std::runtime_error`.
pub data Thrown : Type 0 where
  runtime_error other_exception : Thrown

pub data Ending : Type 0 where
  exited : ℤ → Ending
  terminated : Ending

-- What leaves `initialize`, which returns true otherwise, and `run`, which returns 0 otherwise.
unfoldable pub main : Option Thrown → Option Thrown → Ending
main (some runtime_error) run = exited (pos 0)
main (some other_exception) run = terminated
main none (some runtime_error) = exited (pos 0)
main none (some other_exception) = terminated
main none none = exited (pos 0)

-- The exception of a colour is `std::invalid_argument`.
unfoldable pub run_end : FrameResult → Option Thrown
run_end r = if r.thrown then some other_exception else none

run_frames_thrown :
    (i : FrameInput) (inputs : List FrameInput) (w : Windows)
    → (frame i w).thrown ≡ true
    → (run_frames (i ∷ inputs) w).thrown ≡ true
unfolding run_frames
run_frames_thrown i inputs w h = rw h refl

main_thrown : (r : FrameResult) → r.thrown ≡ true → main none (run_end r) ≡ terminated
unfolding main run_end
main_thrown r h = rw h refl

-- A chat message whose colour is no number, whatever command it holds and whatever its handler
-- does, terminates the program in the next frame, if messages can be sent behind the buttons of
-- that frame.
pub receive_terminates :
    (host : Host) (msg : ChatMessage) (s : Application host.Function × host.World) (i : FrameInput)
    (inputs : List FrameInput) (w : Windows)
    → is_bad msg ≡ true
    → can_send (manage_auth i.auth w.tw_service).1.state ≡ true
    → let m : ImGuiManager = record w.ui_manager { state = (receive host msg s).1.0.app_state } in
      main none (run_end (run_frames (i ∷ inputs) (record w { ui_manager = m }))) ≡ terminated
unfolding frame
receive_terminates host msg s i inputs w bad h = main_thrown _ (
    run_frames_thrown i inputs _ (
      receive_bad host msg s i.chat (manage_auth i.auth w.tw_service).1 w.ui_manager.message_input
        bad h))
