-- ===== src/Application/Lifetime.antt =====
-- src/application.cpp and src/main.cpp: the window of src/ui/imgui_manager.cpp from the start of the
-- program to its end. `initializeUi` makes it, and the destructor of the application frees it.
use seraphbot.Base.{
  ◌≡◌, refl, Bool, true, false, not, Option, none, some, List, [], ◌++◌, if◌then◌else◌,
}
use seraphbot.Application.Entry.{
  Thrown, runtime_error, other_exception, Ending, exited, terminated, main,
}
use seraphbot.Ui.Window.{
  Live, WindowCall, init_window, construct, destruct, constructed, allow_all, allow, nothing_live,
  backend_init, backend_shutdown,
}

-- What leaves `initialize`: `initWindow` throws `std::runtime_error`.
unfoldable pub initialize_end : Bool → Bool → Option Thrown
initialize_end glfw window =
    if (construct (init_window glfw window)).thrown then some runtime_error else none

-- The calls of the program. An exception that nothing catches ends it without destructors; one of
-- the constructor leaves no manager to destroy.
unfoldable pub ending_calls : Bool → Ending → List WindowCall
ending_calls made terminated = []
ending_calls made (exited code) = if made then destruct constructed else []

unfoldable pub program_calls : Bool → Bool → Option Thrown → List WindowCall
program_calls glfw window run =
    let c = construct (init_window glfw window) in
    c.calls ++ ending_calls (not c.thrown) (main (initialize_end glfw window) run)

abbrev pub is_terminated : Ending → Bool
is_terminated terminated = true
is_terminated (exited code) = false

abbrev pub all_live : Live
all_live = record {
  glfw = true;
  window = true;
  current = true;
  context = true;
  glfw_backend = true;
  opengl_backend = true;
}

-- Whatever GLFW answers and whatever leaves `run`: no call of the program lacks what it needs, and
-- at the end nothing is left of GLFW, its window, ImGui and the backend, unless the program is
-- terminated, which leaves all of them.
pub program_calls_lem :
    (glfw window : Bool) (run : Option Thrown)
    → allow_all (program_calls glfw window run) nothing_live
      ≡ some
          (if is_terminated (main (initialize_end glfw window) run) then all_live else nothing_live)
unfolding program_calls initialize_end ending_calls main construct init_window destruct allow
    backend_init backend_shutdown
program_calls_lem false window run = refl
program_calls_lem true false run = refl
program_calls_lem true true none = refl
program_calls_lem true true (some runtime_error) = refl
program_calls_lem true true (some other_exception) = refl
