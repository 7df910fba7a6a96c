-- ===== src/LuaEngine/Scanning.antt =====
-- Proofs about `loadCommandsFromDirectory` (src/core/lua_command_engine.cpp).
use seraphbot.Base.{
  ℕ, ◌+◌, ◌≤◌, ◌≢◌, inl, inr, Bool, true, false, not, ◌||◌, none, List, [], ◌∷◌, arith,
  if◌then◌else◌, Bool-cases, Text,
}
use seraphbot.Base.Dict
use seraphbot.Base.Dict.{Dict}
use seraphbot.LuaEngine.{
  load_commands_from_directory, count_true, is_script, load_entries, load_lua_command, LuaEngine,
}
use seraphbot.LuaHost.{DirectoryEntry, Host}
use seraphbot.LuaEngine.Loading.{load_lua_command-Loads, Loads-IsCovered, IsCovered}

module _ (host : Host) where
  open host use {World, exists, script_file}

  load_entries-IsCovered :
      (entries : List DirectoryEntry) (n : ℕ) (e : LuaEngine) (w : World)
      → IsCovered e
      → IsCovered (load_entries host entries n e w).1
  unfolding load_entries
  load_entries-IsCovered [] n e w h = h
  load_entries-IsCovered (entry ∷ rest) n e w h = elim (Bool-cases (is_script entry)) [
    | inl script ↦
        rw (script, load_entries)
          (load_entries-IsCovered rest _ _ _
            (Loads-IsCovered host (load_lua_command-Loads host entry.path e w) h))
    | inr other_file ↦ rw (other_file, load_entries) (load_entries-IsCovered rest _ e w h)
  ]

  abbrev pub count_scripts : List DirectoryEntry → ℕ
  count_scripts [] = 0
  count_scripts (entry ∷ rest) = count_true (is_script entry) + count_scripts rest

  load_entries-count :
      (entries : List DirectoryEntry) (n : ℕ) (e : LuaEngine) (w : World)
      → (load_entries host entries n e w).0 ≤ n + count_scripts entries
  unfolding load_entries
  load_entries-count [] n e w = omega arith
  load_entries-count (entry ∷ rest) n e w = elim (Bool-cases (is_script entry)) [
    | inl script ↦
        rw (script, load_entries)
          (omega (
            arith,
            load_entries-count rest (n + count_true (load_lua_command host entry.path e w).0)
                (load_lua_command host entry.path e w).1 (load_lua_command host entry.path e w).2,
            count_true-le (load_lua_command host entry.path e w).0,
          ))
    | inr other_file ↦
        rw (other_file, load_entries) (omega (arith, load_entries-count rest (n + 0) e w))
  ]
    where
      count_true-le : (b : Bool) → count_true b ≤ 1
      count_true-le true = omega arith
      count_true-le false = omega arith

  scan_count :
      (refuse : Bool) (entries : List DirectoryEntry) (e : LuaEngine) (w : World)
      → let result : ℕ × LuaEngine × World =
          if refuse then (0, e, w) else load_entries host entries 0 e w in
        result.0 ≤ count_scripts entries
  scan_count true entries e w = omega arith
  scan_count false entries e w = omega (arith, load_entries-count entries 0 e w)

  scan-IsCovered :
      (refuse : Bool) (entries : List DirectoryEntry) (e : LuaEngine) (w : World)
      → IsCovered e
      → let result : ℕ × LuaEngine × World =
          if refuse then (0, e, w) else load_entries host entries 0 e w in
        IsCovered result.1
  scan-IsCovered true entries e w h = h
  scan-IsCovered false entries e w h = load_entries-IsCovered entries 0 e w h

  -- Loading a directory counts no more commands than it has scripts, and afterwards every command
  -- that has a file has metadata, if it was so before.
  pub load_commands_from_directory_lem :
      (directory : Text) (e : LuaEngine) (w : World) (name : Text)
      → IsCovered e
      → Dict.lookup name (load_commands_from_directory host directory e w).1.command_files ≢ none
      → let (count, e', w') = load_commands_from_directory host directory e w in
        (count ≤ count_scripts (host.entries directory w))
        × (Dict.lookup name e'.command_metadata ≢ none)
  unfolding load_commands_from_directory
  load_commands_from_directory_lem directory e w name h filed =
      let refuse = not (exists directory w) || not (host.is_directory directory w) in
      (
        scan_count refuse (host.entries directory w) e w,
        scan-IsCovered refuse (host.entries directory w) e w h name filed,
      )
