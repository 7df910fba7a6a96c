-- ===== src/LuaEngine/Registration.antt =====
-- Proofs about `registerWithParser`: which handlers the parser holds afterwards.
use seraphbot.Base.{
  ◌≡◌, ◌≢◌, ◌⊎◌, inl, inr, Bool, true, false, not, Option, none, some, [], ◌∷◌, arith,
  if◌then◌else◌, Bool-cases, All, All-mono, Text, text_eq, text_eq_iff, text_eq_refl, is_empty,
  lower,
}
use seraphbot.Base.Dict
use seraphbot.Base.Dict.{Dict}
use seraphbot.CommandParser.{CommandParser, register_command}
use seraphbot.LuaHost.{Host}
use seraphbot.LuaEngine.{
  LuaCommand, LuaEngine, executable, register_found, register_files, register_with_parser,
}
use seraphbot.LuaEngine.Loading.{IsCovered}

-- Every key of an association list is found in it.
keys_found {ℓ} : {V : Type ℓ} (d : Dict V) → All (λ (k, v). Dict.lookup k d ≢ none) d
keys_found [] = tt
keys_found ((j, v) ∷ d) = (
  (λ e. cc (e, Dict.lookup-cons j j v d, text_eq_refl j)),
  All-mono _ _ d (λ (k, w) h e. ground (arith, h, Dict.lookup-cons k j v d)) (keys_found d),
)

module _ (host : Host) {H : Type 0} (wrap : LuaCommand host.Function → H) where
  open host use {World, Function, script_file}

  -- A handler that registration has put under the key `k`, for a command with the property `P`.
  pub data Registered (P : Text → Type 0) (k : Text) (h : H) : Type 0 where
    registered :
        (c : LuaCommand Function)
        → h ≡ wrap c
        → lower c.command_name ≡ k
        → P c.command_name
        → Registered P k h

  register_found-lookup :
      (P : Text → Type 0) (o : Option Function) (name k : Text) (p : CommandParser H) (h : H)
      → P name
      → Dict.lookup k (register_found host wrap o name p).commands ≡ some h
      → (Dict.lookup k p.commands ≡ some h) ⊎ Registered P k h
  unfolding register_found register_command
  register_found-lookup P none name k p h known found = inl found
  register_found-lookup P (some f) name k p h known found = elim (Bool-cases (is_empty name)) [
    | inl empty ↦ inl (rw empty at found)
    | inr named ↦ elim (Bool-cases (text_eq (lower name) k)) [
      | inl same ↦ inr (
          registered (record { execute_func = f; command_name = name })
            (ground (
              arith,
              Dict.lookup-insert k (lower name)
                  (wrap (record { execute_func = f; command_name = name })) p.commands,
            ))
            ((text_eq_iff (lower name) k).0 same) known)
      | inr different ↦ inl (
          ground (
            arith,
            Dict.lookup-insert k (lower name)
                (wrap (record { execute_func = f; command_name = name })) p.commands,
          ))
    ]
  ]

  register_files-lookup :
      (P : Text → Type 0) (files : Dict Text) (p : CommandParser H) (w : World) (k : Text) (h : H)
      → All (λ (name, path). P name) files
      → Dict.lookup k (register_files host wrap files p w).0.commands ≡ some h
      → (Dict.lookup k p.commands ≡ some h) ⊎ Registered P k h
  unfolding register_files
  register_files-lookup P [] p w k h all found = inl found
  register_files-lookup P ((name, path) ∷ files) p w k h (known, all) found =
      let (script, w') = script_file path w in
      let o = executable host script in
      elim (register_files-lookup P files (register_found host wrap o name p) w' k h all found) [
        | inl before ↦ register_found-lookup P o name k p h known before
        | inr new ↦ inr new
      ]

  guarded_lookup :
      (off : Bool) (P : Text → Type 0) (files : Dict Text) (p : CommandParser H) (w : World)
      (k : Text) (h : H)
      → All (λ (name, path). P name) files
      → (let result : CommandParser H × World =
            if off then (p, w) else register_files host wrap files p w in
          Dict.lookup k result.0.commands ≡ some h)
      → (Dict.lookup k p.commands ≡ some h) ⊎ Registered P k h
  guarded_lookup true P files p w k h all found = inl found
  guarded_lookup false P files p w k h all found = register_files-lookup P files p w k h all found

  -- If every command that has a file has metadata, a handler that the parser finds after
  -- registration was there before, or belongs to a command whose name is the key in lower case and
  -- which has metadata.
  pub register_with_parser_lem :
      (e : LuaEngine) (p : CommandParser H) (w : World) (k : Text) (h : H)
      → IsCovered e
      → Dict.lookup k (register_with_parser host wrap e p w).0.commands ≡ some h
      → (Dict.lookup k p.commands ≡ some h)
        ⊎ Registered (λ name. Dict.lookup name e.command_metadata ≢ none) k h
  unfolding register_with_parser
  register_with_parser_lem e p w k h covered found =
      guarded_lookup (not e.initialized) _ e.command_files p w k h
        (All-mono _ _ e.command_files (λ (name, path) filed. covered name filed)
          (keys_found e.command_files))
        found
