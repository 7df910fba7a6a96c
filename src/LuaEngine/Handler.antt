-- ===== src/LuaEngine/Handler.antt =====
-- Proofs about the handler of a command: what stands between a chat message and a script.
use seraphbot.Base.{
  ◌≡◌, refl, ap, ◌⊎◌, inl, inr, Bool, true, false, not, Option, none, some, if◌then◌else◌, Text,
}
use seraphbot.Base.Dict
use seraphbot.CommandParser.{CommandContext}
use seraphbot.Cooldown.{is_on_cooldown, record_usage, use_count}
use seraphbot.LuaHost.{Host}
use mathlib.Core.Path.{subst}
use seraphbot.LuaEngine.{
  LuaCommand, LuaEngine, no_permission, on_cooldown, limit_reached, execute_lua_command, used_up,
  handle, handle_with,
}
use seraphbot.Metadata.{CommandMetadata}
use seraphbot.Permission.{has_permission}

module _ (host : Host) where
  open host use {World, Function, now, reply}

  -- Every guard of the handler lets the message through.
  pub record IsAllowed (c : LuaCommand Function) (ctx : CommandContext) (e : LuaEngine) (w : World)
      (meta : CommandMetadata) : Type 0 where
    pub found : Dict.lookup c.command_name e.command_metadata ≡ some meta
    pub enabled : meta.enabled ≡ true
    pub permitted : has_permission ctx meta ≡ true
    pub cool :
        is_on_cooldown e.cooldown_tracker c.command_name ctx.message.user meta (now w) ≡ false
    pub left : used_up meta (use_count e.cooldown_tracker c.command_name) ≡ false

  -- The script has run, and its use is recorded at the time when it ended.
  pub record HasRun (c : LuaCommand Function) (ctx : CommandContext) (e : LuaEngine) (w : World)
      (result : LuaEngine × World) : Type 0 where
    pub world : result.1 ≡ execute_lua_command host c.execute_func ctx w
    pub engine : result.0 ≡ record e {
      cooldown_tracker =
          record_usage e.cooldown_tracker c.command_name ctx.message.user (now result.1);
    }

  -- A guard fails, nothing of the engine has changed, and the user has got one reply at most.
  pub record HasRefused (c : LuaCommand Function) (ctx : CommandContext) (e : LuaEngine) (w : World)
      (result : LuaEngine × World) : Type 0 where
    pub blocked : (meta : CommandMetadata) → ¬ IsAllowed c ctx e w meta
    pub engine : result.0 ≡ e
    pub world : (result.1 ≡ w) ⊎ ((text : Text) × (result.1 ≡ reply text w))

  ladder_cases :
      (e : LuaEngine) (w : World) (a b c : Text) (run : LuaEngine × World)
      (on permitted cold used : Bool)
      → let result : LuaEngine × World =
          if not on
          then (e, w)
          else if not permitted
          then (e, reply a w)
          else if cold
          then (e, reply b w)
          else if used
          then (e, reply c w)
          else run in
        ((on ≡ true) × (permitted ≡ true) × (cold ≡ false) × (used ≡ false) × (result ≡ run))
        ⊎ ((on ≡ true → permitted ≡ true → cold ≡ false → used ≡ false → ⊥)
            × ((result ≡ (e, w)) ⊎ ((text : Text) × (result ≡ (e, reply text w)))))
  ladder_cases e w a b c run false _ _ _ = inr ((λ p. cc), inl refl)
  ladder_cases e w a b c run true false _ _ = inr ((λ _ p. cc), inr (a, refl))
  ladder_cases e w a b c run true true true _ = inr ((λ _ _ p. cc), inr (b, refl))
  ladder_cases e w a b c run true true false true = inr ((λ _ _ _ p. cc), inr (c, refl))
  ladder_cases e w a b c run true true false false = inl (refl, refl, refl, refl, refl)

  HasRefused-of :
      (c : LuaCommand Function) (ctx : CommandContext) (e : LuaEngine) (w : World)
      (result : LuaEngine × World)
      → ((meta : CommandMetadata) → ¬ IsAllowed c ctx e w meta)
      → (result ≡ (e, w)) ⊎ ((text : Text) × (result ≡ (e, reply text w)))
      → HasRefused c ctx e w result
  HasRefused-of c ctx e w result blocked (inl same) = record {
    blocked = blocked;
    engine = ap (λ r. r.0) same;
    world = inl (ap (λ r. r.1) same);
  }
  HasRefused-of c ctx e w result blocked (inr (text, same)) = record {
    blocked = blocked;
    engine = ap (λ r. r.0) same;
    world = inr (text, ap (λ r. r.1) same);
  }

  same_meta : {a b : CommandMetadata} {o : Option CommandMetadata} → o ≡ some a → o ≡ some b → a ≡ b
  same_meta p q = cc

  handle_with_cases :
      (o : Option CommandMetadata) (c : LuaCommand Function) (ctx : CommandContext) (e : LuaEngine)
      (w : World)
      → Dict.lookup c.command_name e.command_metadata ≡ o
      → ((meta : CommandMetadata) × IsAllowed c ctx e w meta
          × HasRun c ctx e w (handle_with host o c ctx e w))
        ⊎ HasRefused c ctx e w (handle_with host o c ctx e w)
  unfolding handle_with
  handle_with_cases none c ctx e w eq =
      inr (HasRefused-of c ctx e w _ (λ meta a. cc (a.found, eq)) (inr (_, refl)))
  handle_with_cases (some meta) c ctx e w eq =
      elim (ladder_cases e w no_permission on_cooldown limit_reached
        (
          record e {
            cooldown_tracker =
                record_usage e.cooldown_tracker c.command_name ctx.message.user
                  (now (execute_lua_command host c.execute_func ctx w));
          },
          execute_lua_command host c.execute_func ctx w,
        )
        meta.enabled (has_permission ctx meta)
        (is_on_cooldown e.cooldown_tracker c.command_name ctx.message.user meta (now w))
        (used_up meta (use_count e.cooldown_tracker c.command_name))) [
          | inl (on, permitted, cool, left, same) ↦ inl (
            meta,
            record { found = eq; enabled = on; permitted = permitted; cool = cool; left = left },
            rw same (record { world = refl; engine = refl }),
          )
          | inr (blocked, silent) ↦ inr (
              HasRefused-of c ctx e w _
                (λ m a.
                  let open_guards =
                    subst (λ (m : CommandMetadata). IsAllowed c ctx e w m) (same_meta a.found eq)
                      a in
                  blocked open_guards.enabled open_guards.permitted open_guards.cool
                    open_guards.left)
                silent)
        ]

  -- A message runs the script exactly if the command is known and enabled, the user may use it, no
  -- cooldown holds and the limit of the stream is not reached; then one use is recorded, whether
  -- or not the script fails. Otherwise no script runs.
  pub handle_cases :
      (c : LuaCommand Function) (ctx : CommandContext) (e : LuaEngine) (w : World)
      → ((meta : CommandMetadata) × IsAllowed c ctx e w meta
          × HasRun c ctx e w (handle host c ctx e w))
        ⊎ HasRefused c ctx e w (handle host c ctx e w)
  unfolding handle
  handle_cases c ctx e w =
      handle_with_cases (Dict.lookup c.command_name e.command_metadata) c ctx e w refl
