-- ===== src/LuaEngine/Loading.antt =====
-- Proofs about loading and reloading scripts.
use seraphbot.Base.{
  ◌≡◌, refl, ◌∙◌, ◌≢◌, Bool, true, false, not, ◌||◌, Option, none, some, List, [], ◌∷◌, arith,
  if◌then◌else◌, Text, text_eq,
}
use seraphbot.LuaEngine.Reading.{read_command}
use seraphbot.Base.Dict
use seraphbot.Base.Dict.{Dict}
use seraphbot.LuaEngine.{
  reload_all_commands, reload_files, store_read, load_lua_command, store_command, LuaEngine,
  store_aliases,
}
use seraphbot.Metadata.{CommandMetadata}
use seraphbot.Permission.{contains}
use seraphbot.LuaHost.{Host}

-- Every command that has a file has metadata.
abbrev pub IsCovered : LuaEngine → Type 0
IsCovered e =
    (name : Text)
    → Dict.lookup name e.command_files ≢ none
    → Dict.lookup name e.command_metadata ≢ none

store_aliases_lem :
    (aliases : List Text) (meta : CommandMetadata) (path k : Text) (e : LuaEngine)
    → let e' = store_aliases aliases meta path e in
      (Dict.lookup k e'.command_metadata
        ≡ (if contains aliases k then some meta else Dict.lookup k e.command_metadata))
      × (Dict.lookup k e'.command_files
          ≡ (if contains aliases k then some path else Dict.lookup k e.command_files))
      × (e'.cooldown_tracker ≡ e.cooldown_tracker)
      × (e'.initialized ≡ e.initialized)
unfolding store_aliases
store_aliases_lem [] meta path k e = (refl, refl, refl, refl)
store_aliases_lem (alias ∷ aliases) meta path k e = ground (
  arith,
  store_aliases_lem aliases meta path k (record e {
    command_metadata = Dict.insert alias meta e.command_metadata;
    command_files = Dict.insert alias path e.command_files;
  }),
  Dict.lookup-insert k alias meta e.command_metadata,
  Dict.lookup-insert k alias path e.command_files,
)

-- The names that a script gives its command.
abbrev pub gives : Text → CommandMetadata → Text → Bool
gives name meta k = contains meta.aliases k || text_eq name k

store_command_lem :
    (name : Text) (meta : CommandMetadata) (path k : Text) (e : LuaEngine)
    → let e' = store_command name meta path e in
      (Dict.lookup k e'.command_metadata
        ≡ (if gives name meta k then some meta else Dict.lookup k e.command_metadata))
      × (Dict.lookup k e'.command_files
          ≡ (if gives name meta k then some path else Dict.lookup k e.command_files))
      × (e'.cooldown_tracker ≡ e.cooldown_tracker)
      × (e'.initialized ≡ e.initialized)
unfolding store_command
store_command_lem name meta path k e = ground (
  arith,
  store_aliases_lem meta.aliases meta path k (record e {
    command_files = Dict.insert name path e.command_files;
    command_metadata = Dict.insert name meta e.command_metadata;
  }),
  Dict.lookup-insert k name meta e.command_metadata,
  Dict.lookup-insert k name path e.command_files,
)

store_command-IsCovered :
    (name : Text) (meta : CommandMetadata) (path : Text) (e : LuaEngine)
    → IsCovered e
    → IsCovered (store_command name meta path e)
store_command-IsCovered name meta path e h k filed =
    ground (arith, store_command_lem name meta path k e, h k)

-- A store keeps the metadata of every name, perhaps in a newer version.
store_command-keeps :
    (name : Text) (meta : CommandMetadata) (path k : Text) (e : LuaEngine)
    → Dict.lookup k e.command_metadata ≢ none
    → Dict.lookup k (store_command name meta path e).command_metadata ≢ none
store_command-keeps name meta path k e known = ground (arith, store_command_lem name meta path k e)

module _ (host : Host) where
  open host use {World, exists, script_file}

  -- What a load does to the engine: it stores the command that the script gives, or nothing.
  pub data Loads (path : Text) (e : LuaEngine) : Bool → LuaEngine → Type 0 where
    refused : Loads path e false e
    stored :
        (name : Text) (meta : CommandMetadata) → Loads path e true (store_command name meta path e)

  store_read-Loads :
      (o : Option (Text × CommandMetadata)) (path : Text) (e : LuaEngine)
      → let (loaded, e') = store_read host o path e in Loads path e loaded e'
  unfolding store_read
  store_read-Loads none path e = refused
  store_read-Loads (some (name, meta)) path e = stored name meta

  guarded-Loads :
      (off missing : Bool) (path : Text) (e e' : LuaEngine) (loaded : Bool) (w w' : World)
      → Loads path e loaded e'
      → let result : Bool × LuaEngine × World =
          if off then (false, e, w) else if missing then (false, e, w) else (loaded, e', w') in
        Loads path e result.0 result.1
  guarded-Loads true _ path e e' loaded w w' h = refused
  guarded-Loads false true path e e' loaded w w' h = refused
  guarded-Loads false false path e e' loaded w w' h = h

  -- A load either returns `false` and leaves the engine as it was, or returns `true` and stores
  -- one command under its name and its aliases.
  pub load_lua_command-Loads :
      (path : Text) (e : LuaEngine) (w : World)
      → let (loaded, e', w') = load_lua_command host path e w in Loads path e loaded e'
  unfolding load_lua_command
  load_lua_command-Loads path e w =
      guarded-Loads (not e.initialized) (not (exists path w)) path e _ _ w _
        (store_read-Loads (read_command host (script_file path w).0) path e)

  pub Loads-IsCovered :
      {path : Text} {e e' : LuaEngine} {loaded : Bool}
      → Loads path e loaded e'
      → IsCovered e
      → IsCovered e'
  Loads-IsCovered refused h = h
  Loads-IsCovered {path} {e} (stored name meta) h = store_command-IsCovered name meta path e h

  Loads-keeps :
      {path : Text} {e e' : LuaEngine} {loaded : Bool} (k : Text)
      → Loads path e loaded e'
      → Dict.lookup k e.command_metadata ≢ none
      → Dict.lookup k e'.command_metadata ≢ none
  Loads-keeps k refused h = h
  Loads-keeps {path} {e} k (stored name meta) h = store_command-keeps name meta path k e h

  Loads-tracker :
      {path : Text} {e e' : LuaEngine} {loaded : Bool}
      → Loads path e loaded e'
      → e'.cooldown_tracker ≡ e.cooldown_tracker
  Loads-tracker refused = refl
  Loads-tracker {path} {e} (stored name meta) = (store_command_lem name meta path [] e).2

  reload_files-keeps :
      (files : Dict Text) (e : LuaEngine) (w : World) (k : Text)
      → Dict.lookup k e.command_metadata ≢ none
      → Dict.lookup k (reload_files host files e w).0.command_metadata ≢ none
  unfolding reload_files
  reload_files-keeps [] e w k h = h
  reload_files-keeps ((name, path) ∷ files) e w k h =
      let (loaded, e', w') = load_lua_command host path e w in
      reload_files-keeps files e' w' k (Loads-keeps k (load_lua_command-Loads path e w) h)

  reload_files-tracker :
      (files : Dict Text) (e : LuaEngine) (w : World)
      → (reload_files host files e w).0.cooldown_tracker ≡ e.cooldown_tracker
  unfolding reload_files
  reload_files-tracker [] e w = refl
  reload_files-tracker ((name, path) ∷ files) e w =
      let (loaded, e', w') = load_lua_command host path e w in
      reload_files-tracker files e' w' ∙ Loads-tracker (load_lua_command-Loads path e w)

  reload_files-IsCovered :
      (files : Dict Text) (e : LuaEngine) (w : World)
      → IsCovered e
      → IsCovered (reload_files host files e w).0
  unfolding reload_files
  reload_files-IsCovered [] e w h = h
  reload_files-IsCovered ((name, path) ∷ files) e w h =
      let (loaded, e', w') = load_lua_command host path e w in
      reload_files-IsCovered files e' w' (Loads-IsCovered (load_lua_command-Loads path e w) h)

  -- A reload forgets no metadata, also none of a command whose script is gone, and it leaves the
  -- cooldowns and the counters as they were.
  pub reload_all_commands-keeps :
      (e : LuaEngine) (w : World) (k : Text)
      → Dict.lookup k e.command_metadata ≢ none
      → let e' = (reload_all_commands host e w).0 in
        (Dict.lookup k e'.command_metadata ≢ none) × (e'.cooldown_tracker ≡ e.cooldown_tracker)
  unfolding reload_all_commands
  reload_all_commands-keeps e w k h = (
    reload_files-keeps e.command_files (record e { command_files = [] }) w k h,
    reload_files-tracker e.command_files (record e { command_files = [] }) w,
  )

  -- After a reload every command that has a file has metadata, whatever stood there before.
  pub reload_all_commands-IsCovered :
      (e : LuaEngine) (w : World) → IsCovered (reload_all_commands host e w).0
  unfolding reload_all_commands
  reload_all_commands-IsCovered e w =
      reload_files-IsCovered e.command_files (record e { command_files = [] }) w
        (λ name filed. absurd (filed (Dict.lookup-nil name)))
