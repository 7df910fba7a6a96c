-- ===== src/Tests/Worlds.antt =====
-- Concrete hosts for the tests.
use seraphbot.Base.{
  ℕ, suc, ◌+◌, ◌*◌, ◌/◌, true, false, none, some, List, [], ◌∷◌, ◌++◌, if◌then◌else◌, length, drop,
  take, Text, codes, text_eq, starts_with, pos,
}
use seraphbot.Chat.{ChatMessage}
use seraphbot.CommandParser.{CommandContext, HandlerEnd, returned}
use seraphbot.FileSystem.{FileSystem}
use seraphbot.Audio.Player.{Sound}
use seraphbot.LuaHost.{Host, table, valid_call}
use seraphbot.LuaEngine.{LuaEngine, LuaCommand, new_engine, store_command, initialize}
use seraphbot.Metadata.{CommandMetadata, default_metadata}
use seraphbot.Net.{value, Net, JsonLibrary}

-- A message of a user with badges.
abbrev pub message_of : Text → Text → List Text → ChatMessage
message_of user text badges = record {
  user = user;
  text = text;
  color = codes "#FFFFFF";
  badges = badges;
}

abbrev pub context_of : Text → List Text → CommandContext
context_of user badges = record {
  message = message_of user (codes "!hug") badges;
  command = codes "hug";
  args = [];
}

-- A script is a text; running it writes it down, as a reply does. A call takes a minute.
abbrev pub log_host : Host
log_host = record {
  World = List Text;
  Table = Text;
  Function = Text;
  exists = λ path w. true;
  is_directory = λ path w. true;
  entries = λ path w.
      record { path = codes "commands/hug.lua"; is_regular_file = true; extension = codes ".lua" }
      ∷ [];
  script_file = λ path w. (table path, w);
  call = λ f ctx w. (valid_call, f ∷ w);
  has = λ t key. true;
  string_at = λ t key. some t;
  int_at = λ t key. some (pos 0);
  bool_at = λ t key. some false;
  table_at = λ t key. some t;
  function_at = λ t key. some t;
  size = λ t. 0;
  has_item = λ t i. false;
  string_item = λ t i. none;
  now = λ w. 60_000_000_000 * (1 + length w);
  reply = λ text w. text ∷ w;
}

-- A command that may be used twice in a stream, and every 30 seconds.
abbrev pub hug : CommandMetadata
hug = record default_metadata {
  name = codes "hug";
  command_cooldown = pos 30;
  max_uses_per_stream = pos 2;
}

abbrev pub hug_command : LuaCommand Text
hug_command = record { execute_func = codes "hugs"; command_name = codes "hug" }

abbrev pub engine : LuaEngine
engine = initialize (store_command (codes "hug") hug (codes "commands/hug.lua") new_engine)

-- A handler of the parser writes down its arguments.
abbrev pub write_args : Unit {0} → CommandContext → List Text → HandlerEnd × List Text
write_args h ctx w = (returned, ctx.args)

-- Every request gets an empty response; the world counts the milliseconds of the timers.
abbrev pub quiet_net : Net
quiet_net = record {
  World = ℕ;
  open_stream = λ host port w. (value tt, w);
  round_trip = λ request w. (value (record { status = 200; location = []; body = codes "{}" }), w);
  shut_down = λ w. (value tt, w);
  sleep = λ n w. n + w;
}

-- A value is its text, or a key; a key is missing exactly if it is that of the refresh token.
abbrev pub flat_json : JsonLibrary
flat_json = record {
  Json = Text;
  parse = λ t. some t;
  dump = λ j. some j;
  contains = λ j key. true;
  index = λ j key. some key;
  at = λ j key. if text_eq key (codes "refresh_token") then none else some key;
  string_of = λ j. some j;
  items = λ j. [];
  is_array = λ j. true;
  empty = λ j. false;
  first = λ j. some j;
  value_text = λ j key default. some default;
  value_number = λ j key default. some default;
  value_integer = λ j key default. some default;
  integer_of = λ j. some (pos 0);
  is_true = λ j. true;
  text = λ t. t;
  integer = λ n. [];
  boolean = λ b. [];
  array = λ items. [];
  object = λ fields. [];
}

-- Notifications: the text says what it is about, and every member of it is its type.
abbrev pub notification_json : JsonLibrary
notification_json = record flat_json {
  index =
      λ j key. if text_eq key (codes "message_type") then some (codes "notification") else some j;
}

-- A path is its own canonical form, and only files in `sounds` exist.
abbrev pub plain_files : FileSystem
plain_files = record {
  canonical = λ path. some path;
  exists = λ path. some (starts_with path (codes "/s"));
  is_directory = λ path. some true;
  is_regular_file = λ path. some true;
  entries = λ path. (
    (codes "b.ogg", some true) ∷ (codes "a.mp3", some true) ∷ (codes "x.txt", some true) ∷ [],
    true,
  );
  parent_path = λ path. codes "/s";
  stem = λ path. take 1 path;
  extension = λ path. drop 1 path;
  join = λ directory name. directory ++ (47 ∷ name);
}

-- The engine counts the sounds that it was asked for. A float is its percentage.
abbrev pub counting : Sound
counting = record {
  World = ℕ;
  Float = ℕ;
  engine_init = λ w. (true, w);
  engine_uninit = λ w. w;
  engine_play_sound = λ file w. (true, suc w);
  engine_set_volume = λ level w. w;
  engine_stop = λ w. w;
  to_float = λ volume. volume;
  from_float = λ level. level;
  times = λ a b. a * b / 100;
  seven_tenths = 70;
}
