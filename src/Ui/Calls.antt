-- ===== src/Ui/Calls.antt =====
-- The calls of ImGui and GLFW that src/ui/imgui_manager.cpp makes to draw a frame, in their order,
-- with what ImGui answers where the code tests it. Getters, and settings of the next window or
-- item other than its width, are left out.
use seraphbot.Base.{
  ℕ, zero, suc, ◌≡◌, refl, Bool, true, false, Option, none, some, List, [], ◌∷◌, ◌++◌,
  if◌then◌else◌, Text,
}
use seraphbot.Ui.Colour.{ImVec4}

pub data UiCall : Type 0 where
  poll_events clear_buffers swap_buffers : UiCall
  opengl_new_frame glfw_new_frame new_frame : UiCall
  render render_draw_data : UiCall
  begin_window begin_child : Text → UiCall
  end_window end_child : UiCall
  push_style_var : UiCall
  pop_style_var : ℕ → UiCall
  dock_space : UiCall
  begin_menu_bar : Bool → UiCall
  begin_menu : Text → Bool → UiCall
  menu_item : Text → Bool → UiCall
  end_menu end_menu_bar : UiCall
  window_should_close : UiCall
  push_text_wrap_pos pop_text_wrap_pos : UiCall
  separator same_line scroll_here : UiCall
  next_item_width : UiCall
  plain_text wrapped_text : Text → UiCall
  formatted_text : Text → Text → UiCall
  colored_text : ImVec4 → Text → Text → UiCall
  button : Text → Bool → UiCall
  input_text : Text → Bool → UiCall

-- Calls, and whether an exception came behind them.
pub record Drawn : Type 0 where
  pub calls : List UiCall
  pub thrown : Bool

-- What ImGui documents: everything that a call begins is ended in the opposite order, in the frame
-- and the window where it was begun. A menu is open only where its call said so.
pub data Scope : Type 0 where
  in_frame in_window in_child in_menu_bar in_menu in_text_wrap : Scope

-- The style variables have a stack of their own.
pub record Open : Type 0 where
  pub scopes : List Scope
  pub style_vars : ℕ

abbrev pub nothing_open : Open
nothing_open = record { scopes = []; style_vars = 0 }

-- A call that is made inside of a frame.
abbrev pub inside : List Scope → ℕ → Option Open
inside [] n = none
inside (x ∷ l) n = some (record { scopes = x ∷ l; style_vars = n })

abbrev pub opened : Scope → List Scope → ℕ → Option Open
opened y [] n = none
opened y (x ∷ l) n = some (record { scopes = y ∷ x ∷ l; style_vars = n })

abbrev pub opened_if : Bool → Scope → List Scope → ℕ → Option Open
opened_if false y l n = inside l n
opened_if true y l n = opened y l n

abbrev pub pop_vars : ℕ → List Scope → ℕ → Option Open
pop_vars zero l n = inside l n
pop_vars (suc k) l zero = none
pop_vars (suc k) l (suc n) = pop_vars k l n

abbrev pub same_scope : Scope → Scope → Bool
same_scope in_frame in_frame = true
same_scope in_window in_window = true
same_scope in_child in_child = true
same_scope in_menu_bar in_menu_bar = true
same_scope in_menu in_menu = true
same_scope in_text_wrap in_text_wrap = true
same_scope _ _ = false

abbrev pub closed : Scope → List Scope → ℕ → Option Open
closed y [] n = none
closed y (x ∷ l) n = if same_scope y x then some (record { scopes = l; style_vars = n }) else none

-- A call that is made outside of a frame.
abbrev pub outside : List Scope → ℕ → List Scope → Option Open
outside [] n l = some (record { scopes = l; style_vars = n })
outside (x ∷ r) n l = none

-- What is open behind a call; `none` where the call may not be made.
unfoldable pub accept : UiCall → List Scope → ℕ → Option Open
accept poll_events l n = outside l n []
accept clear_buffers l n = outside l n []
accept swap_buffers l n = outside l n []
accept opengl_new_frame l n = outside l n []
accept glfw_new_frame l n = outside l n []
accept new_frame l n = outside l n (in_frame ∷ [])
accept render l n = closed in_frame l n
accept render_draw_data l n = outside l n []
accept (begin_window name) l n = opened in_window l n
accept (begin_child name) l n = opened in_child l n
accept end_window l n = closed in_window l n
accept end_child l n = closed in_child l n
accept push_style_var l n = inside l (suc n)
accept (pop_style_var k) l n = pop_vars k l n
accept dock_space l n = inside l n
accept (begin_menu_bar answer) l n = opened_if answer in_menu_bar l n
accept (begin_menu name answer) l n = opened_if answer in_menu l n
accept (menu_item name answer) l n = inside l n
accept end_menu l n = closed in_menu l n
accept end_menu_bar l n = closed in_menu_bar l n
accept window_should_close l n = inside l n
accept push_text_wrap_pos l n = opened in_text_wrap l n
accept pop_text_wrap_pos l n = closed in_text_wrap l n
accept separator l n = inside l n
accept same_line l n = inside l n
accept scroll_here l n = inside l n
accept next_item_width l n = inside l n
accept (plain_text s) l n = inside l n
accept (wrapped_text s) l n = inside l n
accept (formatted_text f s) l n = inside l n
accept (colored_text c f s) l n = inside l n
accept (button name answer) l n = inside l n
accept (input_text name answer) l n = inside l n

abbrev pub and_then : Option Open → (List Scope → ℕ → Option Open) → Option Open
and_then none f = none
and_then (some o) f = f o.scopes o.style_vars

-- What is open behind a sequence of calls.
abbrev pub accept_all : List UiCall → List Scope → ℕ → Option Open
accept_all [] l n = some (record { scopes = l; style_vars = n })
accept_all (c ∷ calls) l n = and_then (accept c l n) (accept_all calls)

and_then_assoc :
    (o : Option Open) (f g h : List Scope → ℕ → Option Open)
    → ((l : List Scope) (n : ℕ) → h l n ≡ and_then (f l n) g)
    → and_then o h ≡ and_then (and_then o f) g
and_then_assoc none f g h same = refl
and_then_assoc (some o) f g h same = same o.scopes o.style_vars

pub accept_all-append :
    (xs ys : List UiCall) (l : List Scope) (n : ℕ)
    → accept_all (xs ++ ys) l n ≡ and_then (accept_all xs l n) (accept_all ys)
accept_all-append [] ys l n = refl
accept_all-append (c ∷ xs) ys l n =
    and_then_assoc (accept c l n) (accept_all xs) (accept_all ys) (accept_all (xs ++ ys))
      (accept_all-append xs ys)
