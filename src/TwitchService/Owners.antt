-- ===== src/TwitchService/Owners.antt =====
-- src/core/twitch_service.cpp with src/tw/eventsub.cpp and src/tw/chat/read.cpp: who owns the
-- objects of `EventSub`, and which coroutines are suspended in them. `m_eventsub` and the copy of
-- `m_chat_read` are the owners; a coroutine holds the object by its `this` alone.
pub mod Lifetimes
pub mod Matching
use seraphbot.Base.{
  ℕ, zero, suc, ◌+◌, ◌-◌, ◌*◌, ◌/◌, ◌%◌, ◌^◌, ◌≤◌, ◌<◌, String, ◌≡◌, refl, sym, ap, ◌∙◌, ◌≢◌, ◌↔◌,
  ◌⊎◌, inl, inr, Bool, true, false, not, ◌&&◌, ◌||◌, Option, none, some, List, [], ◌∷◌, ◌++◌, map,
  append-nil, append_assoc, arith, ltb, leb, ◌==◌, if◌then◌else◌, ==_iff, Bool-cases, Option-cases,
  length, drop, take, length-append, drop-length_append, All, All-append, All-mono, any_of, Text,
  codes, text_eq, text_eq_iff, text_eq_refl, starts_with, starts_with-append, starts_with-split,
  is_empty, to_lower, lower, to_lower_idem, lower_idem, is_space, to_text, ℤ, pos, negsuc, pos_part,
  neg_part, sub_ℕ, ltb_ℤ, clamp, clamp_bounds,
}
use seraphbot.TwitchService.{
  State, disconnected, logging_in, logged_in, connecting_to_chat, chat_connected, error,
  can_connect,
}

-- Where a coroutine is suspended; the number is the object whose member function it is in.
pub data Suspended : Type 0 where
  -- `connectToChat`, in `EventSub::connect`, and in its pause
  connecting : ℕ → Suspended
  pausing : Suspended
  -- the lambda that reads, before its start, and in `EventSub::doRead`
  reader : Suspended
  reading : ℕ → Suspended
  -- `EventSub::start`, before its start
  listener : ℕ → Suspended
  -- `EventSub::subscribe`: before its start, in its request, and in its pause. It is awaited by
  -- `connectToChat` or spawned.
  subscriber : ℕ → Suspended
  posting : Bool → ℕ → Suspended
  waiting : Bool → Suspended

-- `chat_read` is the object of the copy; objects are numbered from 0.
pub record Owners : Type 0 where
  pub state : State
  pub eventsub : Option ℕ
  pub chat_read : Option ℕ
  pub fresh : ℕ

pub record Store : Type 0 where
  pub owners : Owners
  pub suspended : List Suspended

owns : Option ℕ → ℕ → Bool
owns none n = false
owns (some m) n = m == n

-- Whether an object is not destroyed.
unfoldable pub is_alive : ℕ → Owners → Bool
unfolding owns
is_alive n o = owns o.eventsub n || owns o.chat_read n

-- What becomes of a coroutine: the coroutines that go on, and the owners. `none` is a use of an
-- object that is destroyed, or of a null pointer.
abbrev pub Resumed : Type 0
Resumed = Option (List Suspended × Owners)

abbrev pub goes_on : List Suspended → Owners → Resumed
goes_on suspended o = some (suspended, o)

-- An exception reaches the `catch` of `connectToChat`.
abbrev pub fails : Owners → Resumed
fails o = some ([], record o { state = error })

-- The member function uses its object.
abbrev pub uses : ℕ → Owners → Resumed → Resumed
uses n o rest = if is_alive n o then rest else none

-- A pointer that is followed.
abbrev pub follow : Option ℕ → (ℕ → Resumed) → Resumed
follow none f = none
follow (some n) f = f n

-- The subscriptions that are spawned.
abbrev pub other_subscribers : ℕ → List Suspended
other_subscribers n =
    subscriber n
    ∷ subscriber n
    ∷ subscriber n
    ∷ subscriber n
    ∷ subscriber n
    ∷ subscriber n
    ∷ subscriber n
    ∷ []

-- A suspended coroutine goes on; the Boolean says whether what it waited for succeeded.
unfoldable pub resume : Suspended → Bool → Owners → Resumed
resume (connecting n) true o =
    uses n o (follow o.eventsub (λ m. goes_on (reader ∷ listener m ∷ pausing ∷ []) o))
resume (connecting n) false o = fails o
resume pausing true o = follow o.chat_read (λ n. uses n o (goes_on (posting true n ∷ []) o))
resume pausing false o = fails o
resume reader ok o = follow o.eventsub (λ n. goes_on (reading n ∷ []) o)
resume (reading n) true o = uses n o (goes_on (reading n ∷ []) o)
resume (reading n) false o = goes_on [] o
resume (listener n) ok o = uses n o (goes_on [] o)
resume (subscriber n) ok o = uses n o (goes_on (posting false n ∷ []) o)
resume (posting awaited n) true o = uses n o (goes_on (waiting awaited ∷ []) o)
resume (posting true n) false o = fails o
resume (posting false n) false o = goes_on [] o
resume (waiting true) true o =
    follow o.eventsub (λ n. goes_on (other_subscribers n) (record o { state = chat_connected }))
resume (waiting true) false o = fails o
resume (waiting false) ok o = goes_on [] o

-- `setupChatServices`
unfoldable pub setup_owners : Owners → Owners
setup_owners o = record o { eventsub = some o.fresh; chat_read = some o.fresh; fresh = suc o.fresh }

-- `connectToChat` up to its first `co_await`
unfoldable pub connect_store : Store → Store
connect_store s =
    if can_connect s.owners.state
    then record {
      owners = record (setup_owners s.owners) { state = connecting_to_chat };
      suspended = connecting s.owners.fresh ∷ s.suspended;
    }
    else s

-- `disconnect`
unfoldable pub release : Owners → Owners
release o = record o { state = disconnected; eventsub = none; chat_read = none }

-- Behind a login.
abbrev pub logged_in_store : Store
logged_in_store = record {
  owners = record { state = logged_in; eventsub = none; chat_read = none; fresh = 0 };
  suspended = [];
}

-- What happens between the login and a disconnect: connections are asked for, and one of the
-- suspended coroutines goes on.
pub data Step : Store → Store → Type 0 where
  connects : (s : Store) → Step s (connect_store s)
  resumes :
      (c : Suspended) (ok : Bool) (before after more : List Suspended) (o o' : Owners)
      → resume c ok o ≡ some (more, o')
      → Step
          (record { owners = o; suspended = before ++ (c ∷ after) })
          (record { owners = o'; suspended = before ++ (more ++ after) })

pub data Reachable : Store → Type 0 where
  initial : Reachable logged_in_store
  next : {s t : Store} → Reachable s → Step s t → Reachable t
