-- ===== src/Cooldown.antt =====
-- `CooldownTracker` of src/core/lua_command_engine.cpp and its header. A time point of the steady
-- clock is its count of nanoseconds. The reading of the clock is the argument `now`. A use count
-- is a number: it starts at 0 and is only incremented (`int` overflow, at 2^31, is undefined).
pub mod Laws
pub mod Expiry
pub mod History
use seraphbot.Base.{
  ℕ, zero, suc, ◌+◌, ◌-◌, ◌*◌, ◌/◌, ◌%◌, ◌^◌, ◌≤◌, ◌<◌, String, ◌≡◌, refl, sym, ap, ◌∙◌, ◌≢◌, ◌↔◌,
  ◌⊎◌, inl, inr, Bool, true, false, not, ◌&&◌, ◌||◌, Option, none, some, List, [], ◌∷◌, ◌++◌, map,
  append-nil, append_assoc, arith, ltb, leb, ◌==◌, if◌then◌else◌, ==_iff, Bool-cases, Option-cases,
  length, drop, take, length-append, drop-length_append, All, All-append, any_of, Text, codes,
  text_eq, text_eq_iff, text_eq_refl, starts_with, starts_with-append, starts_with-split, is_empty,
  to_lower, lower, to_lower_idem, lower_idem, is_space, to_text, ℤ, pos, negsuc, pos_part, neg_part,
  sub_ℕ, ltb_ℤ, clamp, clamp_bounds,
}
use seraphbot.Base.Dict
use seraphbot.Base.Dict.{Dict}
use seraphbot.Metadata.{CommandMetadata}

pub record CooldownTracker : Type 0 where
  pub last_global_command : ℕ
  pub last_command_use : Dict ℕ
  pub user_command_cooldowns : Dict (Dict ℕ)
  pub command_use_count : Dict ℕ

-- A value-initialised time point is the clock's epoch.
unfoldable pub new_tracker : CooldownTracker
new_tracker = record {
  last_global_command = 0;
  last_command_use = [];
  user_command_cooldowns = [];
  command_use_count = [];
}

abbrev pub second : ℕ
second = 1_000_000_000

-- `duration_cast<seconds>(now - last).count()`, which rounds towards zero.
unfoldable pub seconds_between : ℕ → ℕ → ℤ
seconds_between last now =
    if leb last now then pos ((now - last) / second) else sub_ℕ 0 ((last - now) / second)

-- `time_since_last < cooldown`
abbrev pub too_soon : ℤ → ℕ → ℕ → Bool
too_soon cooldown last now = ltb_ℤ (seconds_between last now) cooldown

-- The test behind a `find` that may not find.
abbrev pub found_too_soon : ℤ → Option ℕ → ℕ → Bool
found_too_soon cooldown none now = false
found_too_soon cooldown (some last) now = too_soon cooldown last now

-- The two nested `find`s.
abbrev pub find_user : Text → Option (Dict ℕ) → Option ℕ
find_user user none = none
find_user user (some users) = Dict.lookup user users

unfoldable pub is_on_cooldown : CooldownTracker → Text → Text → CommandMetadata → ℕ → Bool
is_on_cooldown t command user meta now =
    if ltb_ℤ (pos 0) meta.global_cooldown && too_soon meta.global_cooldown t.last_global_command now
    then true
    else if ltb_ℤ (pos 0) meta.command_cooldown
        && found_too_soon meta.command_cooldown (Dict.lookup command t.last_command_use) now
    then true
    else if ltb_ℤ (pos 0) meta.user_cooldown
        && found_too_soon meta.user_cooldown
            (find_user user (Dict.lookup command t.user_command_cooldowns)) now
    then true
    else false

-- `operator[]` of a map makes a missing value first.
abbrev pub or_made {ℓ} : {A : Type ℓ} → A → Option A → A
or_made made none = made
or_made made (some a) = a

unfoldable pub record_usage : CooldownTracker → Text → Text → ℕ → CooldownTracker
record_usage t command user now = record {
  last_global_command = now;
  last_command_use = Dict.insert command now t.last_command_use;
  user_command_cooldowns =
      Dict.insert command
        (Dict.insert user now (or_made [] (Dict.lookup command t.user_command_cooldowns)))
        t.user_command_cooldowns;
  command_use_count =
      Dict.insert command (suc (or_made 0 (Dict.lookup command t.command_use_count)))
        t.command_use_count;
}

unfoldable pub reset_stream_counters : CooldownTracker → CooldownTracker
reset_stream_counters t = record t { command_use_count = [] }

-- What the handler of a command reads of the counters.
abbrev pub use_count : CooldownTracker → Text → ℕ
use_count t command = or_made 0 (Dict.lookup command t.command_use_count)
