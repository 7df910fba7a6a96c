-- ===== src/Application/Startup.antt =====
-- Proofs about the commands that the parser has after `run` has registered them.
use seraphbot.Base.{
  ◌≡◌, refl, ap, ◌∙◌, true, some, if◌then◌else◌, Text, codes, text_eq, is_empty, to_lower, lower,
}
use seraphbot.Base.Dict
use seraphbot.CommandParser.{register_command, CommandParser}
use seraphbot.CommandParser.Registry.{lookup-register_command}
use seraphbot.LuaHost.{Host}
use seraphbot.Application.{
  Application, Handler, reload_handler, commands_handler, register_native, start_up,
}

module _ (host : Host) where
  open host use {World, Function}

  lookup-register_native :
      (p : CommandParser (Handler Function)) (name : Text)
      → Dict.lookup (lower name) (register_native host p).commands ≡ (
          if text_eq (lower (codes "commands")) (lower name)
          then some commands_handler
          else if text_eq (lower (codes "reload")) (lower name)
          then some reload_handler
          else Dict.lookup (lower name) p.commands)
  unfolding register_native is_empty
  lookup-register_native p name =
      lookup-register_command (λ _. true)
        (register_command (λ _. true) (codes "reload") reload_handler p) (codes "commands") name
        commands_handler refl refl
      ∙ ap
          (λ o.
            if text_eq (lower (codes "commands")) (lower name) then some commands_handler else o)
          (lookup-register_command (λ _. true) p (codes "reload") name reload_handler refl refl)

  -- Behind the start of `run`, `reload` and `commands` call the native commands, whatever scripts
  -- were loaded, also ones with these names.
  pub start_up-native :
      (create : Text → World → World) (s : Application Function × World)
      → let commands = (start_up host create s).0.command_parser.commands in
        (Dict.lookup (codes "reload") commands ≡ some reload_handler)
        × (Dict.lookup (codes "commands") commands ≡ some commands_handler)
  unfolding start_up text_eq to_lower
  start_up-native create s =
      (lookup-register_native _ (codes "reload"), lookup-register_native _ (codes "commands"))
