-- ===== src/CommandParser/Dispatch.antt =====
-- Proofs about `parseAndExecute`: when a handler runs, on what, and what the result says.
use seraphbot.Base.{
  ◌≡◌, refl, ◌∙◌, ◌⊎◌, Bool, true, false, Option, none, some, List, [], ◌∷◌, ◌++◌, arith, All, Text,
  text_eq_refl, is_empty, lower,
}
use seraphbot.Base.Dict
use seraphbot.Base.Dict.{Dict}
use seraphbot.Chat.{ChatMessage}
use seraphbot.CommandParser.{
  CommandParser, CommandContext, HandlerEnd, returned, has_returned, is_command, parse_command,
  register_command, execute, parse_and_execute,
}
use seraphbot.CommandParser.Tokens.{IsFilled}
use seraphbot.CommandParser.Quoting.{quote_tokens, is_command_quoted, parse_command_quoted}
use seraphbot.CommandParser.Registry.{lookup-register_command}

abbrev pub said : Text → ChatMessage → ChatMessage
said text message = record message { text = text }

is_empty_filled : (s : Text) → IsFilled s → is_empty s ≡ false
unfolding is_empty
is_empty_filled [] h = absurd (h refl)
is_empty_filled (c ∷ s) h = refl

module _ {H W : Type 0} (run : H → CommandContext → W → HandlerEnd × W) where
  execute-true :
      (found : Option H) (ctx : CommandContext) (w w' : W)
      → execute run found ctx w ≡ (true, w')
      → (handler : H) × (found ≡ some handler) × (run handler ctx w ≡ (returned, w'))
  unfolding execute has_returned
  execute-true none ctx w w' h = cc
  execute-true (some handler) ctx w w' h = (handler, refl, ground arith)

  -- If `true` is returned, the message is a command, a handler is registered under its name in
  -- lower case, and this handler came to its end without an exception; the world is then as the
  -- handler left it.
  pub parse_and_execute-true :
      (p : CommandParser H) (message : ChatMessage) (w w' : W)
      → parse_and_execute run p message w ≡ (true, w')
      → let (command, args) = parse_command p message.text in
        (is_command p message.text ≡ true)
        × (is_empty command ≡ false)
        × ((handler : H) × (Dict.lookup (lower command) p.commands ≡ some handler)
            × (run handler (record { message = message; command = command; args = args }) w
                ≡ (returned, w')))
  unfolding parse_and_execute
  parse_and_execute-true p message w w' h = (
    ground arith,
    ground arith,
    execute-true (Dict.lookup (lower (parse_command p message.text).0) p.commands) _ w w'
        (ground arith),
  )

  -- A message that is no command, or whose command is not registered, changes nothing.
  pub parse_and_execute_unknown :
      (p : CommandParser H) (message : ChatMessage) (w : W)
      → (is_command p message.text ≡ false)
        ⊎ (Dict.lookup (lower (parse_command p message.text).0) p.commands ≡ none)
      → parse_and_execute run p message w ≡ (false, w)
  unfolding parse_and_execute
  parse_and_execute_unknown p message w h = ground arith

  pub parse_and_execute_found :
      (q : CommandParser H) (command : Text) (args : List Text) (handler : H)
      (message : ChatMessage) (w : W)
      → IsFilled command
      → All IsFilled args
      → Dict.lookup (lower command) q.commands ≡ some handler
      → let m = said (q.prefix ++ quote_tokens command args) message in
        let (end, w') = run handler (record { message = m; command = command; args = args }) w in
        parse_and_execute run q m w ≡ (has_returned end, w')
  unfolding parse_and_execute
  parse_and_execute_found q command args handler message w hc ha found = rw (
    parse_command_quoted q command args hc ha,
    is_command_quoted,
    is_empty_filled command hc,
    found,
    execute,
  )

  -- A registered command, written in any case and with any arguments, each of them quoted and not
  -- empty, runs its handler once, on the command as it was written and on the arguments; the result
  -- says whether it returned.
  pub parse_and_execute_registered :
      (callable : H → Bool) (p : CommandParser H) (name command : Text) (args : List Text)
      (handler : H) (message : ChatMessage) (w : W)
      → IsFilled name
      → IsFilled command
      → All IsFilled args
      → callable handler ≡ true
      → lower command ≡ lower name
      → let q = register_command callable name handler p in
        let m = said (q.prefix ++ quote_tokens command args) message in
        let (end, w') = run handler (record { message = m; command = command; args = args }) w in
        parse_and_execute run q m w ≡ (has_returned end, w')
  parse_and_execute_registered callable p name command args handler message w hn hc ha can same =
      parse_and_execute_found (register_command callable name handler p) command args handler
        message w hc ha
        (lookup-register_command callable p name command handler (is_empty_filled name hn) can
          ∙ rw (same, text_eq_refl))
