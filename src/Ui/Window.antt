-- ===== src/Ui/Window.antt =====
-- src/ui/imgui_manager.cpp: the window, the context of ImGui and the backend, from the constructor
-- to the destructor, as the calls of GLFW and ImGui; include/seraphbot/ui/imgui_backend_opengl.hpp
-- is the backend. Settings of ImGui, and hints but for their place, are left out.
use seraphbot.Base.{
  ◌≡◌, refl, Bool, true, false, not, ◌&&◌, ◌||◌, Option, none, some, List, [], ◌∷◌, ◌++◌,
  if◌then◌else◌,
}

-- The two answers are those of `glfwInit` and `glfwCreateWindow`.
pub data WindowCall : Type 0 where
  glfw_init create_window : Bool → WindowCall
  window_hint glfw_terminate make_context_current swap_interval destroy_window : WindowCall
  create_context add_font destroy_context : WindowCall
  glfw_backend_init opengl_backend_init opengl_backend_shutdown glfw_backend_shutdown : WindowCall

-- Calls, and whether an exception came behind them.
pub record Called : Type 0 where
  pub calls : List WindowCall
  pub thrown : Bool

-- `init` and `shutdown` of the backend
unfoldable pub backend_init : List WindowCall
backend_init = glfw_backend_init ∷ opengl_backend_init ∷ []

unfoldable pub backend_shutdown : List WindowCall
backend_shutdown = opengl_backend_shutdown ∷ glfw_backend_shutdown ∷ []

-- `initWindow`
unfoldable pub init_window : Bool → Bool → Called
init_window false window = record { calls = glfw_init false ∷ []; thrown = true }
init_window true false = record {
  calls =
      glfw_init true
      ∷ window_hint
      ∷ window_hint
      ∷ window_hint
      ∷ window_hint
      ∷ create_window false
      ∷ glfw_terminate
      ∷ [];
  thrown = true;
}
init_window true true = record {
  calls =
      glfw_init true
      ∷ window_hint
      ∷ window_hint
      ∷ window_hint
      ∷ window_hint
      ∷ create_window true
      ∷ make_context_current
      ∷ swap_interval
      ∷ [];
  thrown = false;
}

-- `initWindowVulkan`
unfoldable pub init_window_vulkan : Bool → Bool → Called
init_window_vulkan false window = record { calls = glfw_init false ∷ []; thrown = true }
init_window_vulkan true false = record {
  calls = glfw_init true ∷ window_hint ∷ create_window false ∷ glfw_terminate ∷ [];
  thrown = true;
}
init_window_vulkan true true = record {
  calls = glfw_init true ∷ window_hint ∷ create_window true ∷ [];
  thrown = false;
}

-- The constructor, behind `initWindow`.
unfoldable pub construct : Called → Called
construct c =
    if c.thrown
    then c
    else record c { calls = c.calls ++ (create_context ∷ add_font ∷ backend_init) }

-- The pointers that the destructor tests.
pub record Pointers : Type 0 where
  pub backend : Bool
  pub context : Bool
  pub window : Bool

-- Those of an object whose constructor did not throw.
abbrev pub constructed : Pointers
constructed = record { backend = true; context = true; window = true }

-- The destructor.
unfoldable pub destruct : Pointers → List WindowCall
destruct p =
    (if p.backend then backend_shutdown else [])
    ++ ((if p.context then destroy_context ∷ [] else [])
        ++ ((if p.window then destroy_window ∷ [] else []) ++ (glfw_terminate ∷ [])))

-- What GLFW and ImGui document: what exists, and what a call needs.
pub record Live : Type 0 where
  pub glfw : Bool
  pub window : Bool
  pub current : Bool
  pub context : Bool
  pub glfw_backend : Bool
  pub opengl_backend : Bool

abbrev pub nothing_live : Live
nothing_live = record {
  glfw = false;
  window = false;
  current = false;
  context = false;
  glfw_backend = false;
  opengl_backend = false;
}

abbrev pub needs : Bool → Live → Option Live
needs true x = some x
needs false x = none

-- What exists behind a call; `none` where the call may not be made.
unfoldable pub allow : WindowCall → Live → Option Live
allow (glfw_init answer) x = some (record x { glfw = answer || x.glfw })
allow window_hint x = needs x.glfw x
allow (create_window answer) x = needs (x.glfw && not x.window) (record x { window = answer })
allow make_context_current x = needs x.window (record x { current = true })
allow swap_interval x = needs x.current x
allow create_context x = needs (not x.context) (record x { context = true })
allow add_font x = needs x.context x
allow glfw_backend_init x =
    needs (x.context && x.window && not x.glfw_backend) (record x { glfw_backend = true })
allow opengl_backend_init x =
    needs (x.context && x.current && not x.opengl_backend) (record x { opengl_backend = true })
allow opengl_backend_shutdown x =
    needs (x.opengl_backend && x.current) (record x { opengl_backend = false })
allow glfw_backend_shutdown x = needs x.glfw_backend (record x { glfw_backend = false })
allow destroy_context x =
    needs (x.context && not x.glfw_backend && not x.opengl_backend) (record x { context = false })
allow destroy_window x =
    needs (x.window && not x.glfw_backend) (record x { window = false; current = false })
allow glfw_terminate x =
    needs (not x.glfw_backend && not x.opengl_backend)
      (record x { glfw = false; window = false; current = false })

abbrev pub and_allow : Option Live → (Live → Option Live) → Option Live
and_allow none f = none
and_allow (some x) f = f x

abbrev pub allow_all : List WindowCall → Live → Option Live
allow_all [] x = some x
allow_all (c ∷ calls) x = and_allow (allow c x) (allow_all calls)

abbrev pub window_only : Bool → Live
window_only current = record nothing_live { glfw = true; window = true; current = current }

-- Behind either way to make the window, whatever GLFW answers: nothing exists if it threw, and
-- otherwise a window, whose context of OpenGL is current only without Vulkan.
pub init_window-Live :
    (glfw window : Bool)
    → let made = init_window glfw window in
      let vulkan = init_window_vulkan glfw window in
      (made.thrown ≡ vulkan.thrown)
      × (allow_all made.calls nothing_live
          ≡ some (if made.thrown then nothing_live else window_only true))
      × (allow_all vulkan.calls nothing_live
          ≡ some (if vulkan.thrown then nothing_live else window_only false))
unfolding init_window init_window_vulkan allow
init_window-Live false window = (refl, refl, refl)
init_window-Live true false = (refl, refl, refl)
init_window-Live true true = (refl, refl, refl)
