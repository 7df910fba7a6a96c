-- ===== src/Application/Arriving.antt =====
-- src/application.cpp with src/core/twitch_service.cpp: what a text that arrives over the WebSocket
-- sets off, from the notification to the handler of a command.
use seraphbot.Base.{◌≡◌, ap, ◌∙◌, true, some, List, ◌++◌, All, Text, codes, text_eq, lower}
use seraphbot.AppState.{push_chat_message}
use seraphbot.Application.{Application, Handler, run_handler, receive}
use seraphbot.Application.Messages.{receive_all}
use seraphbot.Base.Dict
use seraphbot.Chat.{ChatMessage}
use seraphbot.CommandParser.Dispatch.{said, parse_and_execute_found}
use seraphbot.CommandParser.Quoting.{quote_tokens}
use seraphbot.CommandParser.Tokens.{IsFilled}
use seraphbot.LuaHost.{Host}
use seraphbot.Net.{JsonLibrary}
use seraphbot.TwitchService.Events.{chat_message_of, notification_type, handle_event_sub_message}
use seraphbot.TwitchService.Delivery.{handle_event_sub_message_lem, messages_of}

module _ (json : JsonLibrary) (host : Host) where
  open host use {World, Function}

  -- The callback of the socket, which hands each message to the callback that `setupCallbacks` set.
  unfoldable pub receive_text : Text → Application Function × World → Application Function × World
  receive_text msg s = receive_all host (handle_event_sub_message json true msg) s

  -- A notification of a chat message, which calls a registered command in any case and with any
  -- arguments, each of them quoted and not empty: its handler runs once, for that user and on those
  -- arguments, where the message is in the queue already, and nothing else happens.
  pub receive_text_command :
      (msg : Text) (raw_msg : json.Json) (message : ChatMessage) (command : Text) (args : List Text)
      (handler : Handler Function) (a : Application Function) (w : World)
      → json.parse msg ≡ some raw_msg
      → notification_type json raw_msg ≡ some (codes "channel.chat.message")
      → let m = said (a.command_parser.prefix ++ quote_tokens command args) message in
        chat_message_of json raw_msg ≡ some m
        → IsFilled command
        → All IsFilled args
        → Dict.lookup (lower command) a.command_parser.commands ≡ some handler
        → receive_text msg (a, w)
          ≡ (run_handler host handler
              (record { message = m; command = command; args = args })
              (record a { app_state = push_chat_message m a.app_state }, w)).1
  unfolding receive_text receive_all receive text_eq
  receive_text_command msg raw_msg message command args handler a w parsed notified read hc ha
        found =
      let m = said (a.command_parser.prefix ++ quote_tokens command args) message in
      ap (λ ms. receive_all host ms (a, w))
        (handle_event_sub_message_lem json msg raw_msg (codes "channel.chat.message") parsed
            notified
          ∙ ap messages_of read)
      ∙ ap (λ r. r.1)
          (parse_and_execute_found (run_handler host) a.command_parser command args handler message
            (record a { app_state = push_chat_message m a.app_state }, w) hc ha found)
