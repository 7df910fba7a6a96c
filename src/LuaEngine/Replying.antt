-- ===== src/LuaEngine/Replying.antt =====
-- src/core/lua_command_engine.cpp: what the handler of a command leaves of the outside.
use seraphbot.Base.{
  ◌≡◌, refl, ◌⊎◌, inl, inr, Bool, true, false, not, Option, none, some, arith, if◌then◌else◌, Text,
  codes,
}
use seraphbot.Base.Dict
use seraphbot.CommandParser.{CommandContext}
use seraphbot.LuaEngine.{
  used_up, LuaCommand, LuaEngine, handle, handle_with, execute_lua_command, no_permission,
  on_cooldown, limit_reached,
}
use seraphbot.LuaHost.{Host, valid_call, invalid_call}
use seraphbot.Cooldown.{is_on_cooldown, use_count}
use seraphbot.Metadata.{CommandMetadata}
use seraphbot.Permission.{has_permission}

module _ (host : Host) where
  open host use {World, Function, now, reply}

  -- A reply in place of the script, or the script.
  abbrev pub RepliesOrRuns :
      LuaCommand Function → CommandContext → World → LuaEngine × World → Type 0
  RepliesOrRuns c ctx w result =
      ((text : Text) × (result.1 ≡ reply text w))
      ⊎ (result.1 ≡ execute_lua_command host c.execute_func ctx w)

  guards_end :
      (c : LuaCommand Function) (ctx : CommandContext) (e : LuaEngine) (w : World) (a b l : Text)
      (run : LuaEngine × World) (on permitted cold used : Bool)
      → on ≡ true
      → run.1 ≡ execute_lua_command host c.execute_func ctx w
      → RepliesOrRuns c ctx w (
          if not on
          then (e, w)
          else if not permitted
          then (e, reply a w)
          else if cold
          then (e, reply b w)
          else if used
          then (e, reply l w)
          else run)
  guards_end c ctx e w a b l run false permitted cold used on same = cc
  guards_end c ctx e w a b l run true false cold used on same = inl (a, refl)
  guards_end c ctx e w a b l run true true true used on same = inl (b, refl)
  guards_end c ctx e w a b l run true true false true on same = inl (l, refl)
  guards_end c ctx e w a b l run true true false false on same = inr same

  handle_with_ends :
      (o : Option CommandMetadata) (c : LuaCommand Function) (ctx : CommandContext) (e : LuaEngine)
      (w : World)
      → ((meta : CommandMetadata) → o ≡ some meta → meta.enabled ≡ true)
      → RepliesOrRuns c ctx w (handle_with host o c ctx e w)
  unfolding handle_with
  handle_with_ends none c ctx e w on = inl (_, refl)
  handle_with_ends (some meta) c ctx e w on =
      guards_end c ctx e w no_permission on_cooldown limit_reached _ meta.enabled
        (has_permission ctx meta)
        (is_on_cooldown e.cooldown_tracker c.command_name ctx.message.user meta (now w))
        (used_up meta (use_count e.cooldown_tracker c.command_name)) (on meta refl) refl

  -- A command that is not switched off: one reply, or its script.
  pub handle_ends :
      (c : LuaCommand Function) (ctx : CommandContext) (e : LuaEngine) (w : World)
      → ((meta : CommandMetadata)
          → Dict.lookup c.command_name e.command_metadata ≡ some meta
          → meta.enabled ≡ true)
      → RepliesOrRuns c ctx w (handle host c ctx e w)
  unfolding handle
  handle_ends c ctx e w on =
      handle_with_ends (Dict.lookup c.command_name e.command_metadata) c ctx e w on

  pub execute_lua_command_valid :
      (f : Function) (ctx : CommandContext) (w : World)
      → (host.call f ctx w).0 ≡ valid_call
      → execute_lua_command host f ctx w ≡ (host.call f ctx w).1
  unfolding execute_lua_command
  execute_lua_command_valid f ctx w e = ground (arith, e)

  pub execute_lua_command_invalid :
      (f : Function) (ctx : CommandContext) (w : World)
      → (host.call f ctx w).0 ≡ invalid_call
      → execute_lua_command host f ctx w
        ≡ reply (codes "Command error occured - check logs") (host.call f ctx w).1
  unfolding execute_lua_command
  execute_lua_command_invalid f ctx w e = ground (arith, e)
