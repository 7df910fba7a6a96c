-- ===== src/Ui/Sending.antt =====
-- Proofs about the window "Chat": what a frame sends, and what a colour that is no number does.
use seraphbot.Base.{
  ◌≡◌, refl, Bool, true, false, not, ◌&&◌, ◌||◌, none, some, List, [], ◌∷◌, ◌++◌, arith,
  if◌then◌else◌, any_of, Text, is_empty,
}
use seraphbot.AppState.Delivery.{process_pending_messages_lem}
use seraphbot.Chat.{ChatMessage}
use seraphbot.TwitchService.{TwitchService, can_send, send_message}
use seraphbot.Ui.{
  ChatInput, ImGuiManager, Line, Task, message_task, draw_log, spawn_message, submit, chat_input,
  manage_chat,
}
use seraphbot.Ui.Colour.{hex_to_im_vec4}

-- The message that was typed, if it is sent, and what the buffer holds then.
abbrev pub sent_once : Bool → Text → List Task × Text
sent_once pressed typed =
    if pressed && not (is_empty typed) then (message_task typed ∷ [], []) else ([], typed)

submit-sent_once :
    (service : TwitchService) (pressed : Bool) (typed : Text)
    → can_send service.state ≡ true
    → submit service pressed typed ≡ sent_once pressed typed
unfolding submit spawn_message send_message
submit-sent_once service pressed typed h = rw h refl

-- Both ways to send, in one frame.
sent_once_twice :
    (enter button : Bool) (typed : Text)
    → (
      (sent_once enter typed).0 ++ (sent_once button (sent_once enter typed).1).0,
      (sent_once button (sent_once enter typed).1).1,
    )
      ≡ sent_once (enter || button) typed
unfolding is_empty
sent_once_twice true true [] = refl
sent_once_twice true true (c ∷ typed) = refl
sent_once_twice true false [] = refl
sent_once_twice true false (c ∷ typed) = refl
sent_once_twice false button typed = refl

-- A colour that `hexToImVec4` throws at.
abbrev pub is_bad : ChatMessage → Bool
is_bad msg = elim (hex_to_im_vec4 msg.color) [ none ↦ true | some v ↦ false ]

draw_log_bad : (log : List ChatMessage) → any_of is_bad log ≡ true → draw_log log ≡ none
unfolding draw_log
draw_log_bad [] h = cc
draw_log_bad (msg ∷ log) h = ground (arith, draw_log_bad log)

-- Where messages can be sent and no colour throws: the window shows the log with the queue behind
-- it, and sends what was typed once, if it is not empty and Enter or the button was pressed, or
-- both; the buffer then is empty, and otherwise it holds what was typed.
pub manage_chat_sends :
    (i : ChatInput) (service : TwitchService) (m : ImGuiManager) (lines : List Line)
    → can_send service.state ≡ true
    → draw_log (m.state.chat_log ++ m.state.pending_messages) ≡ some lines
    → let r = manage_chat i service m in
      (r.thrown ≡ false)
      × (r.lines ≡ lines)
      × ((r.tasks, r.manager.message_input) ≡ sent_once (i.enter || i.send_button) i.typed)
unfolding manage_chat chat_input
manage_chat_sends i service m lines h d =
    rw (h, (process_pending_messages_lem m.state).0, d)
      (
        refl,
        refl,
        rw
            (
              submit-sent_once service i.enter i.typed h,
              submit-sent_once service i.send_button (sent_once i.enter i.typed).1 h,
            )
            (sent_once_twice i.enter i.send_button i.typed),
      )

-- Once a message with a colour that is no number is logged or queued, a window in which messages
-- can be sent throws and sends nothing, and the message stays in the log.
pub manage_chat_bad :
    (i : ChatInput) (service : TwitchService) (m : ImGuiManager)
    → can_send service.state ≡ true
    → any_of is_bad (m.state.chat_log ++ m.state.pending_messages) ≡ true
    → let r = manage_chat i service m in
      (r.thrown ≡ true) × (r.tasks ≡ []) × (any_of is_bad r.manager.state.chat_log ≡ true)
unfolding manage_chat chat_input
manage_chat_bad i service m h b =
    rw (h, (process_pending_messages_lem m.state).0, draw_log_bad _ b) (refl, refl, b)
