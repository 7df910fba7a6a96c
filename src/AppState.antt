-- ===== src/AppState.antt =====
-- src/core/app_state.cpp and include/seraphbot/core/app_state.hpp. Each function holds the mutex
-- for its whole length, so concurrent calls are some sequence of calls.
pub mod Delivery
use seraphbot.Base.{
  ℕ, zero, suc, ◌+◌, ◌-◌, ◌*◌, ◌/◌, ◌%◌, ◌^◌, ◌≤◌, ◌<◌, String, ◌≡◌, refl, sym, ap, ◌∙◌, ◌≢◌, ◌↔◌,
  ◌⊎◌, inl, inr, Bool, true, false, not, ◌&&◌, ◌||◌, Option, none, some, List, [], ◌∷◌, ◌++◌, map,
  append-nil, append_assoc, arith, ltb, leb, ◌==◌, if◌then◌else◌, ==_iff, Bool-cases, Option-cases,
  length, drop, take, length-append, drop-length_append, All, All-append, All-mono, any_of, Text,
  codes, text_eq, text_eq_iff, text_eq_refl, starts_with, starts_with-append, starts_with-split,
  is_empty, to_lower, lower, to_lower_idem, lower_idem, is_space, to_text, ℤ, pos, negsuc, pos_part,
  neg_part, sub_ℕ, ltb_ℤ, clamp, clamp_bounds,
}
use seraphbot.Chat.{ChatMessage}

pub record AppState : Type 0 where
  pub chat_log : List ChatMessage
  pub last_status : Text
  pub show_debug_window : Bool
  pub auto_scroll_chat : Bool
  pub pending_messages : List ChatMessage

unfoldable pub new_app_state : AppState
new_app_state = record {
  chat_log = [];
  last_status = [];
  show_debug_window = false;
  auto_scroll_chat = true;
  pending_messages = [];
}

unfoldable pub push_chat_message : ChatMessage → AppState → AppState
push_chat_message msg s = record s { pending_messages = s.pending_messages ++ (msg ∷ []) }

-- The loop that empties the queue.
drain : List ChatMessage → AppState → AppState
drain [] s = record s { pending_messages = [] }
drain (msg ∷ queue) s =
    drain queue (record s { chat_log = s.chat_log ++ (msg ∷ []); pending_messages = queue })

unfoldable pub process_pending_messages : AppState → AppState
unfolding drain
process_pending_messages s = drain s.pending_messages s

unfoldable pub pending_message_count : AppState → ℕ
pending_message_count s = length s.pending_messages
