-- ===== src/Ui/Drawing/Showing.antt =====
-- src/ui/imgui_manager.cpp: that what is drawn is what the other models say of it.
use seraphbot.Base.{◌≡◌, refl, sym, ◌∙◌, false, Option, none, some, List, [], ◌∷◌, arith, codes}
use seraphbot.Chat.{ChatMessage}
use seraphbot.Ui.{draw_log, Line}
use seraphbot.Ui.Calls.{Drawn, wrapped_text, same_line, colored_text, UiCall}
use seraphbot.Ui.Drawing.{line_calls, log_calls}
use seraphbot.Ui.Colour.{ImVec4, hex_to_im_vec4}

-- The calls of lines.
abbrev pub lines_calls : List Line → List UiCall
lines_calls [] = []
lines_calls (x ∷ lines) =
    colored_text x.color (codes "%s: ") x.user ∷ same_line ∷ wrapped_text x.text ∷ lines_calls lines

-- The lines with a message in front.
abbrev pub line_shown : ChatMessage → Option ImVec4 → Option (List Line) → Option (List Line)
line_shown msg none later = none
line_shown msg (some color) none = none
line_shown msg (some color) (some lines) =
    some (record { color = color; user = msg.user; text = msg.text } ∷ lines)

draw_log_cons :
    (msg : ChatMessage) (log : List ChatMessage) (color : Option ImVec4)
    (later : Option (List Line))
    → hex_to_im_vec4 msg.color ≡ color
    → draw_log log ≡ later
    → draw_log (msg ∷ log) ≡ line_shown msg color later
unfolding draw_log
draw_log_cons msg log none later e k = ground (arith, e, k)
draw_log_cons msg log (some color) none e k = ground (arith, e, k)
draw_log_cons msg log (some color) (some lines) e k = ground (arith, e, k)

shown_calls :
    (msg : ChatMessage) (color : Option ImVec4) (rest : Drawn) (later : Option (List Line))
    (lines : List Line)
    → ((l : List Line) → later ≡ some l → rest ≡ record { calls = lines_calls l; thrown = false })
    → line_shown msg color later ≡ some lines
    → line_calls msg color rest ≡ record { calls = lines_calls lines; thrown = false }
unfolding line_calls
shown_calls msg none rest later lines f h = cc
shown_calls msg (some color) rest none lines f h = cc
shown_calls msg (some color) rest (some l) lines f h =
    let e : record { color = color; user = msg.user; text = msg.text } ∷ l ≡ lines = cc in
    rw (sym e, f l refl) refl

-- What is drawn of a log are the lines that the window shows, if no colour throws.
log_calls_shown :
    (log : List ChatMessage) (lines : List Line)
    → draw_log log ≡ some lines
    → log_calls log ≡ record { calls = lines_calls lines; thrown = false }
unfolding log_calls draw_log line_calls
log_calls_shown [] lines h = let e : [] ≡ lines = cc in rw (sym e) refl
log_calls_shown (msg ∷ log) lines h =
    shown_calls msg (hex_to_im_vec4 msg.color) (log_calls log) (draw_log log) lines
      (log_calls_shown log)
      (sym (draw_log_cons msg log (hex_to_im_vec4 msg.color) (draw_log log) refl refl) ∙ h)
