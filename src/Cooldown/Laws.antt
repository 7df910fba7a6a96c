-- ===== src/Cooldown/Laws.antt =====
-- Proofs about `isOnCooldown` behind `recordUsage`.
use seraphbot.Base.{
  ℕ, suc, ◌≡◌, refl, ◌∙◌, inl, inr, Bool, true, false, ◌&&◌, ◌||◌, Option, none, some, [], arith,
  if◌then◌else◌, Bool-cases, Text, text_eq, text_eq_iff, text_eq_refl, ℤ, pos, ltb_ℤ,
}
use seraphbot.Base.Dict
use seraphbot.Base.Dict.{Dict}
use seraphbot.Metadata.{CommandMetadata}
use seraphbot.Cooldown.{
  CooldownTracker, too_soon, found_too_soon, find_user, is_on_cooldown, or_made, record_usage,
  reset_stream_counters, use_count,
}

-- A cooldown that is switched on and has not run out.
abbrev pub holds : ℤ → ℕ → ℕ → Bool
holds cooldown last now = ltb_ℤ (pos 0) cooldown && too_soon cooldown last now

abbrev pub command_holds : CooldownTracker → Text → CommandMetadata → ℕ → Bool
command_holds t command meta now =
    ltb_ℤ (pos 0) meta.command_cooldown
    && found_too_soon meta.command_cooldown (Dict.lookup command t.last_command_use) now

abbrev pub user_holds : CooldownTracker → Text → Text → CommandMetadata → ℕ → Bool
user_holds t command user meta now =
    ltb_ℤ (pos 0) meta.user_cooldown
    && found_too_soon meta.user_cooldown
        (find_user user (Dict.lookup command t.user_command_cooldowns)) now

pub find_user-record_usage :
    (t : CooldownTracker) (c d u v : Text) (at : ℕ)
    → find_user v (Dict.lookup d (record_usage t c u at).user_command_cooldowns) ≡ (
        if text_eq c d && text_eq u v
        then some at
        else find_user v (Dict.lookup d t.user_command_cooldowns))
unfolding record_usage
find_user-record_usage t c d u v at = elim (Bool-cases (text_eq c d)) [
  | inl same ↦ rw (← (text_eq_iff c d).0 same) (
      rw (Dict.lookup-insert_self, text_eq_refl, Dict.lookup-insert)
        (made u v at (Dict.lookup c t.user_command_cooldowns)))
  | inr other ↦ rw (Dict.lookup-insert, other)
]
  where
    made :
        (u v : Text) (at : ℕ) (o : Option (Dict ℕ))
        → (if text_eq u v then some at else Dict.lookup v (or_made [] o))
          ≡ (if text_eq u v then some at else find_user v o)
    made u v at none = rw Dict.lookup-nil
    made u v at (some users) = refl

or_ladder :
    (a b c : Bool)
    → (if a then true else if b then true else if c then true else false) ≡ (a || b || c)
or_ladder a b c = ground arith

pub is_on_cooldown-holds :
    (t : CooldownTracker) (d v : Text) (meta : CommandMetadata) (now : ℕ)
    → is_on_cooldown t d v meta now ≡ (
        holds meta.global_cooldown t.last_global_command now
        || command_holds t d meta now
        || user_holds t d v meta now)
unfolding is_on_cooldown
is_on_cooldown-holds t d v meta now =
    or_ladder (holds meta.global_cooldown t.last_global_command now) (command_holds t d meta now)
      (user_holds t d v meta now)

command_holds-record_usage :
    (t : CooldownTracker) (c d u : Text) (meta : CommandMetadata) (at now : ℕ)
    → command_holds (record_usage t c u at) d meta now
      ≡ (if text_eq c d then holds meta.command_cooldown at now else command_holds t d meta now)
unfolding record_usage
command_holds-record_usage t c d u meta at now = elim (Bool-cases (text_eq c d)) [
  | inl same ↦ rw (Dict.lookup-insert, same)
  | inr other ↦ rw (Dict.lookup-insert, other)
]

user_holds-record_usage :
    (t : CooldownTracker) (c d u v : Text) (meta : CommandMetadata) (at now : ℕ)
    → user_holds (record_usage t c u at) d v meta now ≡ (
        if text_eq c d && text_eq u v
        then holds meta.user_cooldown at now
        else user_holds t d v meta now)
user_holds-record_usage t c d u v meta at now = elim (Bool-cases (text_eq c d && text_eq u v)) [
  | inl same ↦ rw (find_user-record_usage, same)
  | inr other ↦ rw (find_user-record_usage, other)
]

-- After a use of command `c` by user `u` the global cooldown counts from that use for all
-- commands, the command's cooldown for `c` alone, and the user's for `c` and `u` alone; what held
-- of other commands and users goes on to hold.
pub is_on_cooldown-record_usage :
    (t : CooldownTracker) (c d u v : Text) (meta : CommandMetadata) (at now : ℕ)
    → is_on_cooldown (record_usage t c u at) d v meta now ≡ (
        holds meta.global_cooldown at now
        || (if text_eq c d then holds meta.command_cooldown at now else command_holds t d meta now)
        || (if text_eq c d && text_eq u v
            then holds meta.user_cooldown at now
            else user_holds t d v meta now))
is_on_cooldown-record_usage t c d u v meta at now =
    is_on_cooldown-holds (record_usage t c u at) d v meta now
    ∙ rw (command_holds-record_usage, user_holds-record_usage) (unfold record_usage in refl)

-- A use adds one to the count of its own command, and to no other.
pub use_count-record_usage :
    (t : CooldownTracker) (c d u : Text) (at : ℕ)
    → use_count (record_usage t c u at) d
      ≡ (if text_eq c d then suc (use_count t d) else use_count t d)
unfolding record_usage
use_count-record_usage t c d u at = rw Dict.lookup-insert (ground (arith, text_eq_iff c d))

pub use_count-reset : (t : CooldownTracker) (c : Text) → use_count (reset_stream_counters t) c ≡ 0
unfolding reset_stream_counters
use_count-reset t c = rw Dict.lookup-nil
