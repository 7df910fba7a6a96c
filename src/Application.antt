-- ===== src/Application.antt =====
-- src/application.cpp: the callback for chat messages, the native commands, and what `run` does
-- before its loop (the loop is in Frame). A reply goes to the reply function of the host.
pub mod Messages
pub mod Startup
pub mod Frame
pub mod Drawing
pub mod Arriving
pub mod Entry
pub mod Lifetime
use seraphbot.Base.{
  ℕ, zero, suc, ◌+◌, ◌-◌, ◌*◌, ◌/◌, ◌%◌, ◌^◌, ◌≤◌, ◌<◌, String, ◌≡◌, refl, sym, ap, ◌∙◌, ◌≢◌, ◌↔◌,
  ◌⊎◌, inl, inr, Bool, true, false, not, ◌&&◌, ◌||◌, Option, none, some, List, [], ◌∷◌, ◌++◌, map,
  append-nil, append_assoc, arith, ltb, leb, ◌==◌, if◌then◌else◌, ==_iff, Bool-cases, Option-cases,
  length, drop, take, length-append, drop-length_append, All, All-append, All-mono, any_of, Text,
  codes, text_eq, text_eq_iff, text_eq_refl, starts_with, starts_with-append, starts_with-split,
  is_empty, to_lower, lower, to_lower_idem, lower_idem, is_space, to_text, ℤ, pos, negsuc, pos_part,
  neg_part, sub_ℕ, ltb_ℤ, clamp, clamp_bounds,
}
use seraphbot.AppState.{AppState, push_chat_message, new_app_state}
use seraphbot.Chat.{ChatMessage}
use seraphbot.CommandParser.{
  CommandContext, CommandParser, HandlerEnd, returned, new_parser, register_command,
  parse_and_execute,
}
use seraphbot.LuaEngine.{
  LuaCommand, LuaEngine, new_engine, initialize, get_loaded_commands, load_commands_from_directory,
  reload_all_commands, register_with_parser, handle,
}
use seraphbot.LuaHost.{Host}

-- The handlers that the parser holds: those that the script engine made, and the two of `run`.
pub data Handler (Function : Type 0) : Type 0 where
  lua_handler : LuaCommand Function → Handler Function
  reload_handler commands_handler : Handler Function

pub record Application (Function : Type 0) : Type 0 where
  pub app_state : AppState
  pub command_parser : CommandParser (Handler Function)
  pub command_engine : LuaEngine

-- The loop that joins the names of the loaded commands.
join_names : Bool → Text → List Text → Text
join_names first response [] = response
join_names first response (name ∷ names) =
    join_names false ((if first then response else response ++ codes ", ") ++ name) names

-- The reply of `commands`.
unfoldable pub loaded_response : List Text → Text
unfolding join_names
loaded_response [] = codes "No Lua commands loaded"
loaded_response (name ∷ names) = join_names true (codes "Loaded commands: ") (name ∷ names)

abbrev pub commands_dir : Text
commands_dir = codes "commands"

module _ (host : Host) where
  open host use {World, Function, exists, reply}

  abbrev pub State : Type 0
  State = Application Function × World

  unfoldable pub new_application : Application Function
  new_application = record {
    app_state = new_app_state;
    command_parser = new_parser (Handler Function);
    command_engine = new_engine;
  }

  -- `registerWithParser(*m_command_parser)`
  unfoldable pub register_commands : State → State
  register_commands (a, w) =
      let (p, w') = register_with_parser host lua_handler a.command_engine a.command_parser w in
      (record a { command_parser = p }, w')

  -- The handler of `reload`, between its two replies.
  unfoldable pub reload_commands : State → State
  reload_commands (a, w) =
      let (e, w') = reload_all_commands host a.command_engine w in
      register_commands (record a { command_engine = e }, w')

  unfoldable pub run_handler : Handler Function → CommandContext → State → HandlerEnd × State
  run_handler (lua_handler c) ctx (a, w) =
      let (e, w') = handle host c ctx a.command_engine w in
      (returned, (record a { command_engine = e }, w'))
  run_handler reload_handler ctx (a, w) =
      let (a', w') = reload_commands (a, reply (codes "Reloading Lua commands...") w) in
      (returned, (a', reply (codes "Lua commands reloaded!") w'))
  run_handler commands_handler ctx (a, w) =
      (returned, (a, reply (loaded_response (get_loaded_commands a.command_engine)) w))

  -- The message callback: the result is that of `parseAndExecute`.
  unfoldable pub receive : ChatMessage → State → Bool × State
  receive msg (a, w) =
      parse_and_execute run_handler a.command_parser msg
        (record a { app_state = push_chat_message msg a.app_state }, w)

  -- The native commands, which can always be called.
  unfoldable pub register_native :
      CommandParser (Handler Function) → CommandParser (Handler Function)
  register_native p =
      register_command (λ _. true) (codes "commands") commands_handler
        (register_command (λ _. true) (codes "reload") reload_handler p)

  -- The loading of the directory, which `create_directories` makes if it is missing.
  load_all : (Text → World → World) → LuaEngine → World → LuaEngine × World
  load_all create_directories e w =
      if exists commands_dir w
      then (let (loaded, e', w') = load_commands_from_directory host commands_dir e w in (e', w'))
      else (e, create_directories commands_dir w)

  -- `run` up to its loop.
  unfoldable pub start_up : (Text → World → World) → State → State
  unfolding load_all
  start_up create_directories (a, w) =
      let (e, w') = load_all create_directories (initialize a.command_engine) w in
      let (a', w'') = register_commands (record a { command_engine = e }, w') in
      (record a' { command_parser = register_native a'.command_parser }, w'')
