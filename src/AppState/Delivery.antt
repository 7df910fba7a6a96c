-- ===== src/AppState/Delivery.antt =====
-- Proofs about the queue of chat messages between the network threads and the user interface.
use seraphbot.Base.{◌≡◌, refl, sym, ap, ◌∙◌, List, [], ◌∷◌, ◌++◌, append-nil, append_assoc, length}
use seraphbot.AppState.{
  AppState, push_chat_message, drain, process_pending_messages, pending_message_count,
}
use seraphbot.Chat.{ChatMessage}

-- A call, by any thread.
pub data Call : Type 0 where
  push : ChatMessage → Call
  process : Call

abbrev pub apply : Call → AppState → AppState
apply (push msg) s = push_chat_message msg s
apply process s = process_pending_messages s

abbrev pub apply_all : List Call → AppState → AppState
apply_all [] s = s
apply_all (c ∷ cs) s = apply_all cs (apply c s)

-- The messages that the calls push, in order.
abbrev pub pushed : List Call → List ChatMessage
pushed [] = []
pushed (push msg ∷ cs) = msg ∷ pushed cs
pushed (process ∷ cs) = pushed cs

-- All messages, those in the log first.
abbrev pub messages : AppState → List ChatMessage
messages s = s.chat_log ++ s.pending_messages

drain_lem :
    (queue : List ChatMessage) (s : AppState)
    → drain queue s ≡ record s { chat_log = s.chat_log ++ queue; pending_messages = [] }
unfolding drain
drain_lem [] s = rw append-nil
drain_lem (msg ∷ queue) s =
    drain_lem queue (record s { chat_log = s.chat_log ++ (msg ∷ []); pending_messages = queue })
    ∙ rw append_assoc

-- Processing appends the whole queue to the log, in order, and leaves it empty.
pub process_pending_messages_lem :
    (s : AppState)
    → (process_pending_messages s
        ≡ record s { chat_log = s.chat_log ++ s.pending_messages; pending_messages = [] })
      × (pending_message_count (process_pending_messages s) ≡ 0)
unfolding process_pending_messages pending_message_count
process_pending_messages_lem s = (
  drain_lem s.pending_messages s,
  ap (λ t. length t.pending_messages) (drain_lem s.pending_messages s),
)

messages-apply : (c : Call) (s : AppState) → messages (apply c s) ≡ messages s ++ pushed (c ∷ [])
unfolding push_chat_message
messages-apply (push msg) s = sym (append_assoc s.chat_log s.pending_messages (msg ∷ []))
messages-apply process s = rw (process_pending_messages_lem s).0 refl

-- Whatever the threads do, no message is lost, doubled or reordered: the log and the queue
-- together are what was there before and all that was pushed since, in the order of the pushes.
pub messages-apply_all :
    (cs : List Call) (s : AppState) → messages (apply_all cs s) ≡ messages s ++ pushed cs
messages-apply_all [] s = sym (append-nil (messages s))
messages-apply_all (push msg ∷ cs) s =
    messages-apply_all cs (push_chat_message msg s)
    ∙ rw (messages-apply (push msg) s) (append_assoc (messages s) (msg ∷ []) (pushed cs))
messages-apply_all (process ∷ cs) s =
    messages-apply_all cs (process_pending_messages s)
    ∙ rw (messages-apply process s) (rw append-nil)
