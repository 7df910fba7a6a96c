-- ===== src/LuaEngine/Limits.antt =====
-- Proofs about `max_uses_per_stream` over sequences of messages.
use mathlib.Core.Path.{subst}
use seraphbot.Base.{
  ℕ, suc, ◌≤◌, ◌≡◌, sym, inl, inr, true, false, some, List, [], ◌∷◌, arith, Bool-cases, Text,
  text_eq, text_eq_iff, pos, pos_part, ltb_ℤ,
}
use seraphbot.Base.Dict
use seraphbot.CommandParser.{CommandContext}
use seraphbot.Cooldown.{record_usage, use_count}
use seraphbot.Cooldown.Laws.{use_count-record_usage, use_count-reset}
use seraphbot.LuaHost.{Host}
use seraphbot.LuaEngine.{LuaCommand, LuaEngine, used_up, handle, reset_counters}
use seraphbot.LuaEngine.Handler.{IsAllowed, handle_cases}
use seraphbot.Metadata.{CommandMetadata}

-- No command has been used more often than its limit, if it has one.
abbrev pub WithinLimits : LuaEngine → Type 0
WithinLimits e =
    (name : Text) (meta : CommandMetadata)
    → Dict.lookup name e.command_metadata ≡ some meta
    → ltb_ℤ (pos 0) meta.max_uses_per_stream ≡ true
    → use_count e.cooldown_tracker name ≤ pos_part meta.max_uses_per_stream

reset_counters-WithinLimits : (e : LuaEngine) → WithinLimits (reset_counters e)
unfolding reset_counters
reset_counters-WithinLimits e name meta found limited =
    rw (use_count-reset e.cooldown_tracker name) (omega arith)

one_more_use :
    (meta : CommandMetadata) (n : ℕ)
    → used_up meta n ≡ false
    → ltb_ℤ (pos 0) meta.max_uses_per_stream ≡ true
    → suc n ≤ pos_part meta.max_uses_per_stream
one_more_use meta n left limited = ground arith

module _ (host : Host) where
  open host use {World, Function, now}

  -- A message with the command that it calls.
  abbrev pub Call : Type 0
  Call = LuaCommand Function × CommandContext

  unfoldable pub handle_calls : List Call → LuaEngine → World → LuaEngine × World
  handle_calls [] e w = (e, w)
  handle_calls ((c, ctx) ∷ calls) e w =
      let (e', w') = handle host c ctx e w in handle_calls calls e' w'

  use-WithinLimits :
      (c : LuaCommand Function) (ctx : CommandContext) (e : LuaEngine) (w : World)
      (meta : CommandMetadata) (at : ℕ)
      → IsAllowed host c ctx e w meta
      → WithinLimits e
      → WithinLimits (record e {
        cooldown_tracker = record_usage e.cooldown_tracker c.command_name ctx.message.user at;
      })
  use-WithinLimits c ctx e w meta at allowed h name meta' found limited =
      elim (Bool-cases (text_eq c.command_name name)) [
        | inl same ↦
            let eq = (text_eq_iff c.command_name name).0 same in
            let known : meta ≡ meta' = cc (eq, found, allowed.found) in
            rw
              (
                use_count-record_usage e.cooldown_tracker c.command_name name ctx.message.user at,
                same,
              )
              (rw (← known, ← eq) (one_more_use meta _ allowed.left (rw known limited)))
        | inr different ↦
            rw
              (
                use_count-record_usage e.cooldown_tracker c.command_name name ctx.message.user at,
                different,
              )
              (h name meta' found limited)
      ]

  handle-WithinLimits :
      (c : LuaCommand Function) (ctx : CommandContext) (e : LuaEngine) (w : World)
      → WithinLimits e
      → WithinLimits (handle host c ctx e w).0
  handle-WithinLimits c ctx e w h = elim (handle_cases host c ctx e w) [
    | inl (meta, allowed, ran) ↦
        subst WithinLimits (sym ran.engine) (use-WithinLimits c ctx e w meta _ allowed h)
    | inr refused ↦ subst WithinLimits (sym refused.engine) h
  ]

  handle_calls-WithinLimits :
      (calls : List Call) (e : LuaEngine) (w : World)
      → WithinLimits e
      → WithinLimits (handle_calls calls e w).0
  unfolding handle_calls
  handle_calls-WithinLimits [] e w h = h
  handle_calls-WithinLimits ((c, ctx) ∷ calls) e w h =
      handle_calls-WithinLimits calls (handle host c ctx e w).0 (handle host c ctx e w).1
        (handle-WithinLimits c ctx e w h)

  -- From a reset of the counters on, whatever messages come, no command with a limit is used more
  -- often than its limit.
  pub handle_calls-within_limits :
      (calls : List Call) (e : LuaEngine) (w : World) (name : Text) (meta : CommandMetadata)
      → Dict.lookup name (handle_calls calls (reset_counters e) w).0.command_metadata ≡ some meta
      → ltb_ℤ (pos 0) meta.max_uses_per_stream ≡ true
      → use_count (handle_calls calls (reset_counters e) w).0.cooldown_tracker name
        ≤ pos_part meta.max_uses_per_stream
  handle_calls-within_limits calls e w name meta found limited =
      handle_calls-WithinLimits calls (reset_counters e) w (reset_counters-WithinLimits e) name meta
        found limited
