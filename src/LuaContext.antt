-- ===== src/LuaContext.antt =====
-- include/seraphbot/core/lua_command_engine.hpp: what a script can ask of its context. The tests of
-- badges are in Permission, and the sounds in Audio.
use seraphbot.Base.{ℕ, Option, none, some, List, Text, ℤ, pos, pos_part}
use seraphbot.CommandParser.{CommandContext, join_args}

unfoldable pub get_user : CommandContext → Text
get_user ctx = ctx.message.user

unfoldable pub get_command : CommandContext → Text
get_command ctx = ctx.command

unfoldable pub get_args : CommandContext → List Text
get_args ctx = ctx.args

unfoldable pub get_message_text : CommandContext → Text
get_message_text ctx = ctx.message.text

-- `start_index.value_or(0)`, and no index below zero.
unfoldable pub start_of : Option ℤ → ℕ
start_of none = 0
start_of (some i) = pos_part i

-- `joinArgs`, where a script may leave the index out.
unfoldable pub join_args_from : Option ℤ → CommandContext → Text
join_args_from start_index ctx = join_args ctx (start_of start_index)

-- `volume.value_or(70)`
unfoldable pub volume_or : Option ℤ → ℤ
volume_or none = pos 70
volume_or (some volume) = volume
