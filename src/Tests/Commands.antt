-- ===== src/Tests/Commands.antt =====
-- Runs of the commands: the parser, the script engine and the application.
use seraphbot.Base.{
  ℕ, ◌+◌, ◌≤◌, ◌<◌, ◌≡◌, refl, ◌≢◌, ◌↔◌, ◌⊎◌, inl, inr, true, ◌||◌, Option, none, some, List, [],
  ◌∷◌, ◌++◌, arith, leb, Bool-cases, Text, codes, text_eq, to_lower, is_space,
}
use seraphbot.Base.Dict
use seraphbot.AppState.{new_app_state, process_pending_messages}
use seraphbot.Application.{new_application}
use seraphbot.Application.Messages.{receive_all, receive_all-chat_log}
use seraphbot.CommandParser.{
  join_args, has_returned, CommandContext, new_parser, register_command, parse_and_execute,
}
use seraphbot.CommandParser.Tokenizer.{tokenize}
use seraphbot.CommandParser.Dispatch.{parse_and_execute_registered}
use seraphbot.CommandParser.Quoting.{quote_tokens, tokenize-quote_tokens}
use seraphbot.Cooldown.{new_tracker, record_usage, is_on_cooldown, use_count}
use seraphbot.Cooldown.Expiry.{is_on_cooldown_until}
use seraphbot.LuaEngine.{
  store_command, initialize, LuaCommand, reset_counters, handle, reload_all_commands,
  load_commands_from_directory, register_with_parser, new_engine,
}
use seraphbot.LuaEngine.Handler.{IsAllowed, HasRun, HasRefused, handle_cases}
use seraphbot.LuaEngine.Limits.{handle_calls, handle_calls-within_limits}
use seraphbot.LuaEngine.Loading.{IsCovered, reload_all_commands-keeps}
use seraphbot.CommandParser.{CommandParser}
use seraphbot.Metadata.{CommandMetadata, default_metadata}
use seraphbot.Permission.{contains, has_permission}
use seraphbot.Permission.Roles.{has_permission_by_rank, required_rank, highest}
use seraphbot.CommandParser.Joining.{tokenize-join_args}
use seraphbot.Tests.Worlds.{message_of, context_of, log_host, hug, hug_command, engine, write_args}

abbrev ann : CommandContext
ann = context_of (codes "ann") []

-- The first call runs the script.
handle_runs : (handle log_host hug_command ann engine []).1 ≡ codes "hugs" ∷ []
unfolding handle Dict.lookup initialize store_command seraphbot.LuaEngine.store_aliases new_engine
    Dict.insert text_eq has_permission is_on_cooldown new_tracker
    seraphbot.LuaEngine.execute_lua_command
handle_runs = refl

handle_cases_example :
    ((meta : CommandMetadata) × IsAllowed log_host hug_command ann engine [] meta
      × HasRun log_host hug_command ann engine [] (handle log_host hug_command ann engine []))
    ⊎ HasRefused log_host hug_command ann engine [] (handle log_host hug_command ann engine [])
handle_cases_example = handle_cases log_host hug_command ann engine []

given : {A : Type 0} (o : Option A) (a : A) → o ≡ some a → o ≢ none
given o a h e = cc

abbrev three_calls : List (LuaCommand Text × CommandContext)
three_calls = (hug_command, ann) ∷ (hug_command, ann) ∷ (hug_command, ann) ∷ []

handle_calls-within_limits_example :
    use_count
      (handle_calls log_host three_calls (reset_counters engine) []).0.cooldown_tracker
      (codes "hug")
    ≤ 2
unfolding handle_calls handle reset_counters initialize store_command Dict.lookup
    seraphbot.LuaEngine.store_aliases new_engine Dict.insert text_eq has_permission is_on_cooldown
    seraphbot.Cooldown.reset_stream_counters new_tracker record_usage
    seraphbot.Cooldown.seconds_between seraphbot.LuaEngine.execute_lua_command
handle_calls-within_limits_example =
    handle_calls-within_limits log_host three_calls engine [] (codes "hug") hug refl refl

parse_and_execute_registered_example :
    parse_and_execute write_args
      (register_command (λ _. true) (codes "hug") tt (new_parser (Unit {0})))
      (message_of
        (codes "ann")
        ((register_command (λ _. true) (codes "hug") tt (new_parser (Unit {0}))).prefix
          ++ quote_tokens (codes "HUG") (codes "a b" ∷ []))
        [])
      []
    ≡ (true, codes "a b" ∷ [])
unfolding has_returned to_lower
parse_and_execute_registered_example =
    parse_and_execute_registered write_args (λ _. true) (new_parser (Unit {0})) (codes "hug")
      (codes "HUG") (codes "a b" ∷ []) tt (message_of (codes "ann") [] []) [] (λ e. cc) (λ e. cc)
      ((λ e. cc), tt) refl refl

abbrev three_words : CommandContext
three_words = record ann { args = codes "say" ∷ codes "a" ∷ codes "bc" ∷ [] }

tokenize-quote_tokens_example :
    tokenize (quote_tokens (codes "say") (codes "a \"b\"" ∷ []))
    ≡ codes "say" ∷ codes "a \"b\"" ∷ []
tokenize-quote_tokens_example =
    tokenize-quote_tokens (codes "say") (codes "a \"b\"" ∷ []) (λ e. cc) ((λ e. cc), tt)

is_on_cooldown_until_example :
    (is_on_cooldown
        (record_usage new_tracker (codes "hug") (codes "ann") 5)
        (codes "hug")
        (codes "ann")
        hug
        30_000_000_004
      ≡ true)
    ↔ ((30_000_000_004 < 5 + 0)
        ⊎ ((30_000_000_004 < 5 + 30_000_000_000) ⊎ (30_000_000_004 < 5 + 0)))
is_on_cooldown_until_example =
    is_on_cooldown_until new_tracker (codes "hug") (codes "ann") hug 5 30_000_000_004 (omega arith)

abbrev for_mods : CommandMetadata
for_mods = record default_metadata { mod_only = true }

abbrev a_mod : CommandContext
a_mod = context_of (codes "ann") (codes "moderator" ∷ [])

has_permission_by_rank_example : has_permission a_mod for_mods ≡ (
    contains for_mods.allowed_users a_mod.message.user
    || leb (required_rank for_mods) (highest a_mod.message.badges))
has_permission_by_rank_example = has_permission_by_rank a_mod for_mods

reload_all_commands-keeps_example :
    (Dict.lookup (codes "hug") (reload_all_commands log_host engine []).0.command_metadata ≢ none)
    × ((reload_all_commands log_host engine []).0.cooldown_tracker ≡ engine.cooldown_tracker)
unfolding initialize store_command Dict.lookup seraphbot.LuaEngine.store_aliases new_engine
    Dict.insert text_eq
reload_all_commands-keeps_example =
    reload_all_commands-keeps log_host engine [] (codes "hug") (given _ hug refl)

receive_all-chat_log_example :
    (process_pending_messages
      (receive_all log_host
        (message_of (codes "ann") (codes "hi") []
          ∷ message_of (codes "bob") (codes "!reload") []
          ∷ [])
        (new_application log_host, [])).0.app_state).chat_log
    ≡ message_of (codes "ann") (codes "hi") [] ∷ message_of (codes "bob") (codes "!reload") [] ∷ []
unfolding new_application new_app_state
receive_all-chat_log_example =
    receive_all-chat_log log_host
      (message_of (codes "ann") (codes "hi") []
        ∷ message_of (codes "bob") (codes "!reload") []
        ∷ [])
      (new_application log_host, [])

abbrev hug_parser : CommandParser (Unit {0})
hug_parser = register_command (λ _. true) (codes "hug") tt (new_parser (Unit {0}))

engine-IsCovered : IsCovered engine
unfolding initialize store_command seraphbot.LuaEngine.store_aliases new_engine Dict.insert
    Dict.lookup text_eq
engine-IsCovered name has = elim (Bool-cases (text_eq (codes "hug") name)) [
  | inl same ↦ given _ hug (rw same refl)
  | inr different ↦ absurd (has (rw different refl))
]

abbrev registered_hug : LuaCommand Text
registered_hug = record { execute_func = codes "commands/hug.lua"; command_name = codes "hug" }

abbrev with_words : CommandContext
with_words = record a_mod { args = codes "hug" ∷ codes "a" ∷ codes "b" ∷ [] }

filled_letter : (c : ℕ) → (c ∷ [] ≢ [])
filled_letter c h = cc

tokenize-join_args_example : tokenize (join_args with_words 1) ≡ codes "a" ∷ codes "b" ∷ []
unfolding is_space
tokenize-join_args_example =
    tokenize-join_args with_words 1
      ((filled_letter b'a', ((refl, refl), tt)), ((filled_letter b'b', ((refl, refl), tt)), tt))
