-- ===== src/LuaEngine/Reading.antt =====
-- `LuaCommandEngine::parseCommandMetadata` (src/core/lua_command_engine.cpp), and what
-- `loadLuaCommand` makes of a script. An exception is `none`.
use seraphbot.Base.{
  ℕ, zero, suc, ◌+◌, true, false, not, Option, none, some, List, [], ◌∷◌, ◌++◌, if◌then◌else◌, Text,
  codes, is_empty, pos, negsuc,
}
use seraphbot.Base.Chain.{◌>>=◌}
use seraphbot.LuaHost.{Host, Script, raised, invalid, other, table}
use seraphbot.Metadata.{CommandMetadata, default_metadata}

abbrev pub get_or {ℓ} : {A : Type ℓ} → Option A → A → A
get_or none default = default
get_or (some a) default = a

module _ (host : Host) where
  open host use {Table, has, string_at, int_at, bool_at, table_at, size, has_item, string_item}

  -- The loops over `aliases` and `allowed_users`, with `n` items left from item `i` on.
  string_items : Table → ℕ → ℕ → Option (List Text)
  string_items t zero i = some []
  string_items t (suc n) i =
      let rest = string_items t n (i + 1) in
      if has_item t i then (do item ← string_item t i; items ← rest; some (item ∷ items)) else rest

  -- A list that may be missing.
  strings_at : Table → Text → Option (List Text)
  strings_at t key =
      if has t key then (do items ← table_at t key; string_items items (size items) 1) else some []

  unfoldable pub parse_command_metadata : Table → Text → Option CommandMetadata
  unfolding string_items strings_at
  parse_command_metadata t default_name = do
    let name = get_or (string_at t (codes "name")) default_name
    aliases ← strings_at t (codes "aliases")
    allowed_users ← strings_at t (codes "allowed_users")
    some (record default_metadata {
      name = name;
      description = get_or (string_at t (codes "description")) [];
      usage = get_or (string_at t (codes "usage")) (codes "!" ++ name);
      aliases = aliases;
      global_cooldown = get_or (int_at t (codes "global_cooldown")) (pos 0);
      command_cooldown = get_or (int_at t (codes "command_cooldown")) (pos 0);
      user_cooldown = get_or (int_at t (codes "user_cooldown")) (pos 0);
      mod_only = get_or (bool_at t (codes "mod_only")) false;
      vip_only = get_or (bool_at t (codes "vip_only")) false;
      subscriber_only = get_or (bool_at t (codes "subscriber_only")) false;
      allowed_users = allowed_users;
      enabled = get_or (bool_at t (codes "enabled")) true;
      max_uses_per_stream = get_or (int_at t (codes "max_uses_per_stream")) (negsuc 0);
    })

  -- The part of `loadLuaCommand` behind `script_file`: the name and the metadata, or a refusal.
  unfoldable pub read_command : Script Table → Option (Text × CommandMetadata)
  read_command raised = none
  read_command invalid = none
  read_command other = none
  read_command (table t) =
      if not (has t (codes "name"))
      then none
      else if not (has t (codes "execute"))
      then none
      else (do
        name ← string_at t (codes "name")
        if is_empty name
            then none
            else (do meta ← parse_command_metadata t name; some (name, meta)))
