-- ===== src/LuaEngine.antt =====
-- `LuaCommandEngine` (src/core/lua_command_engine.cpp): loading scripts, registering them with the
-- command parser, reloading, and the handler of a command.
pub mod Reading
pub mod Handler
pub mod Replying
pub mod Loading
pub mod Scanning
pub mod Registration
pub mod Limits
use seraphbot.Base.{
  ℕ, zero, suc, ◌+◌, ◌-◌, ◌*◌, ◌/◌, ◌%◌, ◌^◌, ◌≤◌, ◌<◌, String, ◌≡◌, refl, sym, ap, ◌∙◌, ◌≢◌, ◌↔◌,
  ◌⊎◌, inl, inr, Bool, true, false, not, ◌&&◌, ◌||◌, Option, none, some, List, [], ◌∷◌, ◌++◌, map,
  append-nil, append_assoc, arith, ltb, leb, ◌==◌, if◌then◌else◌, ==_iff, Bool-cases, Option-cases,
  length, drop, take, length-append, drop-length_append, All, All-append, All-mono, any_of, Text,
  codes, text_eq, text_eq_iff, text_eq_refl, starts_with, starts_with-append, starts_with-split,
  is_empty, to_lower, lower, to_lower_idem, lower_idem, is_space, to_text, ℤ, pos, negsuc, pos_part,
  neg_part, sub_ℕ, ltb_ℤ, clamp, clamp_bounds,
}
use seraphbot.Base.Chain.{◌>>=◌}
use seraphbot.Base.Dict
use seraphbot.Base.Dict.{Dict}
use seraphbot.CommandParser.{CommandContext, CommandParser, register_command}
use seraphbot.Cooldown.{
  CooldownTracker, new_tracker, is_on_cooldown, record_usage, reset_stream_counters, use_count,
}
use seraphbot.LuaHost.{
  Host, Script, raised, invalid, other, table, valid_call, invalid_call, raised_call,
  DirectoryEntry,
}
use seraphbot.Metadata.{CommandMetadata, default_metadata}
use seraphbot.Permission.{has_permission}
use Reading.{read_command}

-- The audio system and the Lua state are parts of the world.
pub record LuaEngine : Type 0 where
  pub command_files : Dict Text
  pub command_metadata : Dict CommandMetadata
  pub cooldown_tracker : CooldownTracker
  pub initialized : Bool

unfoldable pub new_engine : LuaEngine
new_engine = record {
  command_files = [];
  command_metadata = [];
  cooldown_tracker = new_tracker;
  initialized = false;
}

-- What `setupLuaEnvironment` does is the interpreter's.
unfoldable pub initialize : LuaEngine → LuaEngine
initialize e = if e.initialized then e else record e { initialized = true }

unfoldable pub get_loaded_commands : LuaEngine → List Text
get_loaded_commands e = Dict.keys e.command_files

unfoldable pub get_command_metadata : LuaEngine → Text → Option CommandMetadata
get_command_metadata e command_name = Dict.lookup command_name e.command_metadata

unfoldable pub reset_counters : LuaEngine → LuaEngine
reset_counters e = record e { cooldown_tracker = reset_stream_counters e.cooldown_tracker }

-- `for (const auto &alias : metadata.aliases)`
unfoldable pub store_aliases : List Text → CommandMetadata → Text → LuaEngine → LuaEngine
store_aliases [] meta path e = e
store_aliases (alias ∷ aliases) meta path e = store_aliases aliases meta path (record e {
  command_metadata = Dict.insert alias meta e.command_metadata;
  command_files = Dict.insert alias path e.command_files;
})

unfoldable pub store_command : Text → CommandMetadata → Text → LuaEngine → LuaEngine
store_command name meta path e = store_aliases meta.aliases meta path (record e {
  command_files = Dict.insert name path e.command_files;
  command_metadata = Dict.insert name meta e.command_metadata;
})

-- A command of a script, as the parser keeps it: what the handler's closure holds.
pub record LuaCommand (Function : Type 0) : Type 0 where
  pub execute_func : Function
  pub command_name : Text

-- `meta.max_uses_per_stream > 0` and `current_uses >= meta.max_uses_per_stream`
abbrev pub used_up : CommandMetadata → ℕ → Bool
used_up meta current_uses =
    ltb_ℤ (pos 0) meta.max_uses_per_stream
    && not (ltb_ℤ (pos current_uses) meta.max_uses_per_stream)

abbrev pub is_script : DirectoryEntry → Bool
is_script entry = entry.is_regular_file && text_eq entry.extension (codes ".lua")

abbrev pub count_true : Bool → ℕ
count_true true = 1
count_true false = 0

-- The replies of the handler's guards.
abbrev pub no_permission : Text
no_permission = codes "You don't have permission to use this command."

abbrev pub on_cooldown : Text
on_cooldown = codes "Command is on cooldown."

abbrev pub limit_reached : Text
limit_reached = codes "Command has reached its usage limit for this stream."

module _ (host : Host) where
  open host use {
    World, Table, Function, exists, is_directory, entries, script_file, call, has, string_at,
    int_at, bool_at, table_at, function_at, size, has_item, string_item, now, reply,
  }

  store_read : Option (Text × CommandMetadata) → Text → LuaEngine → Bool × LuaEngine
  store_read none path e = (false, e)
  store_read (some (name, meta)) path e = (true, store_command name meta path e)

  unfoldable pub load_lua_command : Text → LuaEngine → World → Bool × LuaEngine × World
  unfolding store_read
  load_lua_command path e w =
      if not e.initialized
      then (false, e, w)
      else if not (exists path w)
      then (false, e, w)
      else (let (script, w') = script_file path w in
          let (loaded, e') = store_read (read_command host script) path e in (loaded, e', w'))

  -- The loop over the directory.
  unfoldable pub load_entries : List DirectoryEntry → ℕ → LuaEngine → World → ℕ × LuaEngine × World
  load_entries [] loaded_count e w = (loaded_count, e, w)
  load_entries (entry ∷ rest) loaded_count e w =
      let (loaded, e', w') =
        if is_script entry then load_lua_command entry.path e w else (false, e, w) in
      load_entries rest (loaded_count + count_true loaded) e' w'

  unfoldable pub load_commands_from_directory : Text → LuaEngine → World → ℕ × LuaEngine × World
  load_commands_from_directory directory e w =
      if not (exists directory w) || not (is_directory directory w)
      then (0, e, w)
      else load_entries (entries directory w) 0 e w

  -- The loop of `reloadAllCommands`, over the files that were loaded before.
  unfoldable pub reload_files : Dict Text → LuaEngine → World → LuaEngine × World
  reload_files [] e w = (e, w)
  reload_files ((name, path) ∷ files) e w =
      let (loaded, e', w') = load_lua_command path e w in reload_files files e' w'

  unfoldable pub reload_all_commands : LuaEngine → World → LuaEngine × World
  reload_all_commands e w = reload_files e.command_files (record e { command_files = [] }) w

  -- What the `try` block of `registerWithParser` finds in a script: the function `execute`, or
  -- nothing to register.
  unfoldable pub executable : Script Table → Option Function
  executable (table t) = function_at t (codes "execute")
  executable _ = none

  module _ {H : Type 0} (wrap : LuaCommand Function → H) where
    -- A closure can always be called.
    register_found : Option Function → Text → CommandParser H → CommandParser H
    register_found none name p = p
    register_found (some f) name p =
        register_command (λ _. true) name (wrap (record { execute_func = f; command_name = name }))
          p

    -- The loop of `registerWithParser`.
    unfoldable pub register_files : Dict Text → CommandParser H → World → CommandParser H × World
    unfolding register_found
    register_files [] p w = (p, w)
    register_files ((name, path) ∷ files) p w =
        let (script, w') = script_file path w in
        register_files files (register_found (executable script) name p) w'

    unfoldable pub register_with_parser :
        LuaEngine → CommandParser H → World → CommandParser H × World
    register_with_parser e p w =
        if not e.initialized then (p, w) else register_files e.command_files p w

  unfoldable pub execute_lua_command : Function → CommandContext → World → World
  execute_lua_command f ctx w =
      let (end, w') = call f ctx w in
      elim end [
        | valid_call ↦ w'
        | invalid_call ↦ reply (codes "Command error occured - check logs") w'
        | raised_call ↦ reply (codes "Command execution failed") w'
      ]

  -- The handler behind the `find` of the metadata.
  handle_with :
      Option CommandMetadata
      → LuaCommand Function
      → CommandContext
      → LuaEngine
      → World
      → LuaEngine × World
  handle_with none c ctx e w = (e, reply (codes "Command configuration error") w)
  handle_with (some meta) c ctx e w =
      let t = e.cooldown_tracker in
      let user = ctx.message.user in
      if not meta.enabled
      then (e, w)
      else if not (has_permission ctx meta)
      then (e, reply no_permission w)
      else if is_on_cooldown t c.command_name user meta (now w)
      then (e, reply on_cooldown w)
      else if used_up meta (use_count t c.command_name)
      then (e, reply limit_reached w)
      else (let w' = execute_lua_command c.execute_func ctx w in
          (record e { cooldown_tracker = record_usage t c.command_name user (now w') }, w'))

  -- The handler that `registerWithParser` makes. It catches what the script throws.
  unfoldable pub handle :
      LuaCommand Function → CommandContext → LuaEngine → World → LuaEngine × World
  unfolding handle_with
  handle c ctx e w = handle_with (Dict.lookup c.command_name e.command_metadata) c ctx e w
