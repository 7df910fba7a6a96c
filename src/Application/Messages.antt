-- ===== src/Application/Messages.antt =====
-- Proofs about the message callback and the chat log.
use seraphbot.Base.{
  ◌≡◌, refl, ap, ◌∙◌, Bool, true, false, not, Option, none, some, List, [], ◌∷◌, ◌++◌, append-nil,
  append_assoc, if◌then◌else◌, is_empty, lower,
}
use seraphbot.AppState.{AppState, push_chat_message, process_pending_messages}
use seraphbot.AppState.Delivery.{process_pending_messages_lem}
use seraphbot.Base.Dict
use seraphbot.Chat.{ChatMessage}
use seraphbot.CommandParser.{
  CommandContext, CommandParser, HandlerEnd, is_command, parse_command, execute, parse_and_execute,
}
use seraphbot.LuaHost.{Host}
use seraphbot.Application.{
  Application, Handler, lua_handler, reload_handler, commands_handler, register_commands,
  reload_commands, run_handler, receive,
}

-- What every handler keeps, the parser keeps.
module _ {H W : Type 0} (run : H → CommandContext → W → HandlerEnd × W) (P : W → Type 0)
    (keeps : (h : H) (ctx : CommandContext) (w : W) → P w → P (run h ctx w).1) where
  execute-keeps : (o : Option H) (ctx : CommandContext) (w : W) → P w → P (execute run o ctx w).1
  unfolding execute
  execute-keeps none ctx w h = h
  execute-keeps (some handler) ctx w h = keeps handler ctx w h

  guarded-keeps :
      (a b : Bool) (w : W) (r : Bool × W)
      → P w
      → P r.1
      → P (if not a then (false, w) else if b then (false, w) else r).1
  guarded-keeps false b w r h k = h
  guarded-keeps true true w r h k = h
  guarded-keeps true false w r h k = k

  parse_and_execute-keeps :
      (p : CommandParser H) (m : ChatMessage) (w : W) → P w → P (parse_and_execute run p m w).1
  unfolding parse_and_execute
  parse_and_execute-keeps p m w h =
      let (command, args) = parse_command p m.text in
      let found = Dict.lookup (lower command) p.commands in
      let ctx : CommandContext = record { message = m; command = command; args = args } in
      guarded-keeps (is_command p m.text) (is_empty command) w (execute run found ctx w) h
        (execute-keeps found ctx w h)

module _ (host : Host) where
  open host use {World, Function}

  -- The state has this chat.
  abbrev pub HasChat : AppState → Application Function × World → Type 0
  HasChat chat s = s.0.app_state ≡ chat

  run_handler-HasChat :
      (chat : AppState) (h : Handler Function) (ctx : CommandContext)
      (s : Application Function × World)
      → HasChat chat s
      → HasChat chat (run_handler host h ctx s).1
  unfolding run_handler reload_commands register_commands
  run_handler-HasChat chat (lua_handler c) ctx s h = h
  run_handler-HasChat chat reload_handler ctx s h = h
  run_handler-HasChat chat commands_handler ctx s h = h

  pub receive-HasChat :
      (msg : ChatMessage) (s : Application Function × World)
      → HasChat (push_chat_message msg s.0.app_state) (receive host msg s).1
  unfolding receive
  receive-HasChat msg s =
      parse_and_execute-keeps (run_handler host) (HasChat (push_chat_message msg s.0.app_state))
        (run_handler-HasChat (push_chat_message msg s.0.app_state)) s.0.command_parser msg _ refl

  -- The messages one after the other.
  unfoldable pub receive_all :
      List ChatMessage → Application Function × World → Application Function × World
  receive_all [] s = s
  receive_all (msg ∷ msgs) s = receive_all msgs (receive host msg s).1

  queued : List ChatMessage → AppState → AppState
  queued msgs chat = record chat { pending_messages = chat.pending_messages ++ msgs }

  receive_all-pending :
      (msgs : List ChatMessage) (s : Application Function × World)
      → (receive_all msgs s).0.app_state ≡ queued msgs s.0.app_state
  unfolding receive_all push_chat_message queued
  receive_all-pending [] s = rw append-nil
  receive_all-pending (msg ∷ msgs) s =
      receive_all-pending msgs (receive host msg s).1
      ∙ (ap (queued msgs) (receive-HasChat msg s) ∙ rw append_assoc)

  -- Whatever chat messages arrive, commands among them, and whatever their handlers do, the next
  -- processing of the queue puts all of them in the chat log, once each and in their order, behind
  -- what was in the log and in the queue.
  pub receive_all-chat_log :
      (msgs : List ChatMessage) (s : Application Function × World)
      → (process_pending_messages (receive_all msgs s).0.app_state).chat_log
        ≡ s.0.app_state.chat_log ++ (s.0.app_state.pending_messages ++ msgs)
  unfolding queued
  receive_all-chat_log msgs s =
      ap (λ chat. chat.chat_log) (process_pending_messages_lem (receive_all msgs s).0.app_state).0
      ∙ ap (λ chat. chat.chat_log ++ chat.pending_messages) (receive_all-pending msgs s)
