-- ===== src/TwitchService/Events.antt =====
-- src/core/twitch_service.cpp, `handleEventSubMessage`: what one EventSub message hands to the
-- callback for chat messages.
use seraphbot.Base.{
  Bool, true, false, not, ◌&&◌, Option, none, some, List, [], ◌∷◌, ◌++◌, if◌then◌else◌, Text, codes,
  text_eq,
}
use seraphbot.Base.Chain.{◌>>=◌}
use seraphbot.Chat.{ChatMessage}
use seraphbot.Net.{JsonLibrary}

-- One of the blocks of the function: it hands messages on and goes on, or leaves the function, by
-- `return` or an exception, before it handed any on.
pub data Block : Type 0 where
  going : List ChatMessage → Block
  left : Block

-- The blocks in their order.
unfoldable pub run_blocks : List Block → List ChatMessage
run_blocks [] = []
run_blocks (going messages ∷ blocks) = messages ++ run_blocks blocks
run_blocks (left ∷ blocks) = []

-- A block under its condition.
unfoldable pub when : Bool → Block → Block
when true block = block
when false block = going []

-- A message of the block, if no expression threw.
unfoldable pub block_of : Option ChatMessage → Block
block_of none = left
block_of (some message) = going (message ∷ [])

unfoldable pub system_message : Text → ChatMessage
system_message text = record {
  user = codes "System";
  text = text;
  color = codes "#AAAAAA";
  badges = [];
}

module _ (json : JsonLibrary) where
  open json use {Json, parse, contains, index, string_of, items}

  -- `raw_msg["payload"]["event"]`
  unfoldable pub event_of : Json → Option Json
  event_of raw_msg = do payload ← index raw_msg (codes "payload"); index payload (codes "event")

  -- `std::string{object[key]}`
  string_at : Json → Text → Option Text
  string_at j key = do v ← index j key; string_of v

  -- The tests for the parts of a chat message; `none` is an exception.
  is_complete : Json → Option Bool
  is_complete event =
      if not (contains event (codes "chatter_user_name"))
      then some false
      else if not (contains event (codes "message"))
      then some false
      else (do message ← index event (codes "message"); some (contains message (codes "text")))

  -- The loop over the badges.
  badge_ids : List Json → Option (List Text)
  unfolding string_at
  badge_ids [] = some []
  badge_ids (badge ∷ badges) = do
    id ← string_at badge (codes "set_id")
    ids ← badge_ids badges
    some (id ∷ ids)

  -- The strings of a chat message, in the order of their reads.
  read_chat_message : Json → Option ChatMessage
  unfolding string_at badge_ids
  read_chat_message event = do
    chatter ← string_at event (codes "chatter_user_name")
    message ← index event (codes "message")
    text ← string_at message (codes "text")
    color ← string_at event (codes "color")
    badges ← index event (codes "badges")
    ids ← badge_ids (items badges)
    some (record { user = chatter; text = text; color = color; badges = ids })

  -- What the block for chat messages gives to the callback.
  unfoldable pub chat_message_of : Json → Option ChatMessage
  unfolding event_of is_complete read_chat_message
  chat_message_of raw_msg = do
    event ← event_of raw_msg
    complete ← is_complete event
    if complete then read_chat_message event else none

  unfoldable pub ad_break_message_of : Json → Option ChatMessage
  unfolding event_of string_at
  ad_break_message_of raw_msg = do
    event ← event_of raw_msg
    text ← string_at event (codes "duration_seconds")
    some (system_message (text ++ codes " second ad break beginning."))

  -- What follows the reading of `subscription_type`.
  unfoldable pub handle_notification : Bool → Text → Json → List ChatMessage
  handle_notification has_callback type raw_msg = run_blocks (
      when (text_eq type (codes "channel.chat.message") && has_callback)
        (block_of (chat_message_of raw_msg))
      ∷ when (text_eq type (codes "channel.ad_break.begin") && has_callback)
          (block_of (ad_break_message_of raw_msg))
      ∷ when (text_eq type (codes "channel.chat.clear") && has_callback)
          (going (system_message (codes "Chat clear requested") ∷ []))
      ∷ [])

  is_text : Option Text → Text → Bool
  is_text none expected = false
  is_text (some text) expected = text_eq text expected

  -- The type of a notification; `none` for any other message and for an exception.
  unfoldable pub notification_type : Json → Option Text
  unfolding is_text string_at
  notification_type raw_msg = if not (contains raw_msg (codes "metadata")) then none else (do
    metadata ← index raw_msg (codes "metadata")
    kind ← index metadata (codes "message_type")
    if not (is_text (string_of kind) (codes "notification"))
        then none
        else string_at metadata (codes "subscription_type"))

  -- What follows the parsing.
  unfoldable pub handle_raw : Bool → Option Text → Json → List ChatMessage
  handle_raw has_callback none raw_msg = []
  handle_raw has_callback (some type) raw_msg = handle_notification has_callback type raw_msg

  unfoldable pub deliver : Bool → Option Json → List ChatMessage
  unfolding handle_raw
  deliver has_callback none = []
  deliver has_callback (some raw_msg) = handle_raw has_callback (notification_type raw_msg) raw_msg

  -- The messages that the callback is given for the text of one message.
  unfoldable pub handle_event_sub_message : Bool → Text → List ChatMessage
  unfolding deliver
  handle_event_sub_message has_callback msg = deliver has_callback (parse msg)
