-- ===== src/Cooldown/History.antt =====
-- `CooldownTracker` against a specification that keeps every use and asks for the latest one.
use seraphbot.Base.{
  ℕ, suc, ◌≡◌, refl, ◌∙◌, Bool, true, ◌&&◌, ◌||◌, Option, none, some, List, [], ◌∷◌, if◌then◌else◌,
  Text, text_eq, pos, ltb_ℤ,
}
use seraphbot.Base.Dict
use seraphbot.Metadata.{CommandMetadata}
use seraphbot.Cooldown.{
  CooldownTracker, new_tracker, found_too_soon, find_user, is_on_cooldown, record_usage,
  reset_stream_counters, use_count,
}
use seraphbot.Cooldown.Laws.{
  holds, find_user-record_usage, is_on_cooldown-holds, use_count-record_usage, use_count-reset,
}

-- What happens to a tracker: a user uses a command at a time, or the stream's counters are reset.
pub data Event : Type 0 where
  used : Text → Text → ℕ → Event
  reset : Event

-- The latest event comes first.
unfoldable pub tracker_of : List Event → CooldownTracker
tracker_of [] = new_tracker
tracker_of (used command user at ∷ earlier) = record_usage (tracker_of earlier) command user at
tracker_of (reset ∷ earlier) = reset_stream_counters (tracker_of earlier)

-- The time of the latest use that a test of its command and its user accepts.
abbrev pub latest : (Text → Text → Bool) → List Event → Option ℕ
latest p [] = none
latest p (used command user at ∷ earlier) = if p command user then some at else latest p earlier
latest p (reset ∷ earlier) = latest p earlier

abbrev pub by_any : Text → Text → Bool
by_any command user = true

abbrev pub of_command : Text → Text → Text → Bool
of_command d command user = text_eq command d

abbrev pub of_both : Text → Text → Text → Text → Bool
of_both d v command user = text_eq command d && text_eq user v

-- Before the first use the global cooldown counts from the epoch of the clock.
abbrev pub or_epoch : Option ℕ → ℕ
or_epoch none = 0
or_epoch (some at) = at

-- The specification: a command is refused while the cooldown behind the latest use that it looks
-- at lasts.
abbrev pub refused : List Event → Text → Text → CommandMetadata → ℕ → Bool
refused events d v meta now =
    holds meta.global_cooldown (or_epoch (latest by_any events)) now
    || (ltb_ℤ (pos 0) meta.command_cooldown
        && found_too_soon meta.command_cooldown (latest (of_command d) events) now)
    || (ltb_ℤ (pos 0) meta.user_cooldown
        && found_too_soon meta.user_cooldown (latest (of_both d v) events) now)

-- How often a command was used since the latest reset.
abbrev pub uses : Text → List Event → ℕ
uses d [] = 0
uses d (used command user at ∷ earlier) =
    if text_eq command d then suc (uses d earlier) else uses d earlier
uses d (reset ∷ earlier) = 0

last_global :
    (events : List Event)
    → (tracker_of events).last_global_command ≡ or_epoch (latest by_any events)
unfolding tracker_of new_tracker record_usage reset_stream_counters
last_global [] = refl
last_global (used command user at ∷ earlier) = refl
last_global (reset ∷ earlier) = last_global earlier

last_command :
    (d : Text) (events : List Event)
    → Dict.lookup d (tracker_of events).last_command_use ≡ latest (of_command d) events
unfolding tracker_of new_tracker record_usage reset_stream_counters
last_command d [] = Dict.lookup-nil d
last_command d (used command user at ∷ earlier) =
    rw (Dict.lookup-insert, last_command d earlier) refl
last_command d (reset ∷ earlier) = last_command d earlier

last_user :
    (d v : Text) (events : List Event)
    → find_user v (Dict.lookup d (tracker_of events).user_command_cooldowns)
      ≡ latest (of_both d v) events
unfolding tracker_of new_tracker reset_stream_counters
last_user d v [] = rw Dict.lookup-nil refl
last_user d v (used command user at ∷ earlier) =
    rw (find_user-record_usage, last_user d v earlier) refl
last_user d v (reset ∷ earlier) = last_user d v earlier

-- After any uses and resets, in whatever order and at whatever times, the tracker refuses exactly
-- what the specification refuses, which looks at the whole history.
pub is_on_cooldown-tracker_of :
    (events : List Event) (d v : Text) (meta : CommandMetadata) (now : ℕ)
    → is_on_cooldown (tracker_of events) d v meta now ≡ refused events d v meta now
is_on_cooldown-tracker_of events d v meta now =
    is_on_cooldown-holds (tracker_of events) d v meta now
    ∙ rw (last_global events, last_command d events, last_user d v events) refl

-- The counter of a command is the number of its uses since the latest reset.
pub use_count-tracker_of :
    (events : List Event) (d : Text) → use_count (tracker_of events) d ≡ uses d events
unfolding tracker_of
use_count-tracker_of [] d = unfold new_tracker in rw Dict.lookup-nil refl
use_count-tracker_of (used command user at ∷ earlier) d =
    use_count-record_usage (tracker_of earlier) command d user at
    ∙ rw (use_count-tracker_of earlier d) refl
use_count-tracker_of (reset ∷ earlier) d = use_count-reset (tracker_of earlier) d
