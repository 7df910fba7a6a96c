-- ===== src/Permission.antt =====
-- The badges of a chat message: the tests of `LuaCommandContext`
-- (include/seraphbot/core/lua_command_engine.hpp), and `LuaCommandEngine::hasPermission`
-- (src/core/lua_command_engine.cpp).
pub mod Roles
use seraphbot.Base.{
  ℕ, zero, suc, ◌+◌, ◌-◌, ◌*◌, ◌/◌, ◌%◌, ◌^◌, ◌≤◌, ◌<◌, String, ◌≡◌, refl, sym, ap, ◌∙◌, ◌≢◌, ◌↔◌,
  ◌⊎◌, inl, inr, Bool, true, false, not, ◌&&◌, ◌||◌, Option, none, some, List, [], ◌∷◌, ◌++◌, map,
  append-nil, append_assoc, arith, ltb, leb, ◌==◌, if◌then◌else◌, ==_iff, Bool-cases, Option-cases,
  length, drop, take, length-append, drop-length_append, All, All-append, any_of, Text, codes,
  text_eq, text_eq_iff, text_eq_refl, starts_with, starts_with-append, starts_with-split, is_empty,
  to_lower, lower, to_lower_idem, lower_idem, is_space, to_text, ℤ, pos, negsuc, pos_part, neg_part,
  sub_ℕ, ltb_ℤ, clamp, clamp_bounds,
}
use seraphbot.CommandParser.{CommandContext}
use seraphbot.Metadata.{CommandMetadata}

abbrev pub broadcaster : Text
broadcaster = codes "broadcaster"

abbrev pub moderator : Text
moderator = codes "moderator"

abbrev pub vip : Text
vip = codes "vip"

abbrev pub subscriber : Text
subscriber = codes "subscriber"

abbrev pub founder : Text
founder = codes "founder"

-- `std::ranges::contains` and `std::find`
abbrev pub contains : List Text → Text → Bool
contains items x = any_of (λ item. text_eq item x) items

unfoldable pub is_broadcaster : CommandContext → Bool
is_broadcaster ctx = contains ctx.message.badges broadcaster

unfoldable pub is_moderator : CommandContext → Bool
is_moderator ctx =
    any_of (λ badge. text_eq badge moderator || text_eq badge broadcaster) ctx.message.badges

unfoldable pub is_vip : CommandContext → Bool
is_vip ctx =
    any_of (λ badge. text_eq badge vip || text_eq badge moderator || text_eq badge broadcaster)
      ctx.message.badges

unfoldable pub is_subscriber : CommandContext → Bool
is_subscriber ctx =
    any_of
      (λ badge.
        text_eq badge subscriber
        || text_eq badge vip
        || text_eq badge moderator
        || text_eq badge broadcaster)
      ctx.message.badges

unfoldable pub has_badge : CommandContext → Text → Bool
has_badge ctx name = any_of (λ badge. text_eq badge name) ctx.message.badges

unfoldable pub is_founder : CommandContext → Bool
is_founder ctx = contains ctx.message.badges founder

unfoldable pub get_subscriber_months : CommandContext → ℕ
get_subscriber_months ctx = if is_subscriber ctx then 5 else 0

-- `std::vector::empty`
abbrev pub no_users : List Text → Bool
no_users [] = true
no_users (user ∷ users) = false

unfoldable pub has_permission : CommandContext → CommandMetadata → Bool
has_permission ctx meta =
    if not (no_users meta.allowed_users) && contains meta.allowed_users ctx.message.user
    then true
    else if meta.mod_only && not (is_moderator ctx)
    then false
    else if meta.vip_only && not (is_vip ctx)
    then false
    else if meta.subscriber_only && not (is_subscriber ctx)
    then false
    else true
