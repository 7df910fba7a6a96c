-- ===== src/Metadata.antt =====
-- `CommandMetadata` of include/seraphbot/core/lua_command_engine.hpp. An `int` is an integer.
use seraphbot.Base.{Bool, true, false, List, [], Text, ℤ, pos, negsuc}

pub record CommandMetadata : Type 0 where
  pub name : Text
  pub description : Text
  pub usage : Text
  pub aliases : List Text
  pub global_cooldown : ℤ
  pub command_cooldown : ℤ
  pub user_cooldown : ℤ
  pub mod_only : Bool
  pub vip_only : Bool
  pub subscriber_only : Bool
  pub allowed_users : List Text
  pub enabled : Bool
  pub max_uses_per_stream : ℤ

-- The member initialisers.
abbrev pub default_metadata : CommandMetadata
default_metadata = record {
  name = [];
  description = [];
  usage = [];
  aliases = [];
  global_cooldown = pos 0;
  command_cooldown = pos 0;
  user_cooldown = pos 0;
  mod_only = false;
  vip_only = false;
  subscriber_only = false;
  allowed_users = [];
  enabled = true;
  max_uses_per_stream = negsuc 0;
}
