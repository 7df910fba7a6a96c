-- ===== src/TwitchService/Delivery.antt =====
-- Proofs about what an EventSub message hands to the callback.
use seraphbot.Base.{
  ◌≤◌, ◌≡◌, refl, ap, ◌∙◌, inl, inr, Bool, true, false, ◌&&◌, Option, none, some, List, [], ◌∷◌,
  arith, if◌then◌else◌, Bool-cases, length, Text, codes, text_eq, text_eq_iff,
}
use seraphbot.Chat.{ChatMessage}
use seraphbot.Net.{JsonLibrary}
use seraphbot.TwitchService.Events.{
  Block, going, run_blocks, when, block_of, system_message, handle_notification, handle_raw,
  deliver, notification_type, handle_event_sub_message, chat_message_of, ad_break_message_of,
}

-- What a block hands on by itself.
abbrev pub messages_of : Option ChatMessage → List ChatMessage
messages_of none = []
messages_of (some message) = message ∷ []

-- The three conditions, of which one holds at most.
pick_block :
    (a b c : Bool) (m n : Option ChatMessage) (k : ChatMessage)
    → (a ≡ true → b ≡ false)
    → (a ≡ true → c ≡ false)
    → (b ≡ true → c ≡ false)
    → run_blocks (
        when (a && true) (block_of m)
        ∷ when (b && true) (block_of n)
        ∷ when (c && true) (going (k ∷ []))
        ∷ [])
      ≡ (if a then messages_of m else if b then messages_of n else if c then k ∷ [] else [])
unfolding run_blocks when block_of
pick_block true b c none n k f g h = refl
pick_block true b c (some m) n k f g h = rw (f refl, g refl) refl
pick_block false true c m none k f g h = refl
pick_block false true c m (some n) k f g h = rw (h refl) refl
pick_block false false true m n k f g h = refl
pick_block false false false m n k f g h = refl

different : (t a b : Text) → text_eq a b ≡ false → text_eq t a ≡ true → text_eq t b ≡ false
different t a b h same = rw ((text_eq_iff t a).0 same) h

no_callback : (a : Bool) (block : Block) → when (a && false) block ≡ going []
unfolding when
no_callback true block = refl
no_callback false block = refl

length-messages_of : (m : Option ChatMessage) → length (messages_of m) ≤ 1
length-messages_of none = omega arith
length-messages_of (some m) = omega arith

module _ (json : JsonLibrary) where
  -- The messages of a notification by its type, with a callback.
  abbrev expected : Text → json.Json → List ChatMessage
  expected type raw_msg =
      if text_eq type (codes "channel.chat.message")
      then messages_of (chat_message_of json raw_msg)
      else if text_eq type (codes "channel.ad_break.begin")
      then messages_of (ad_break_message_of json raw_msg)
      else if text_eq type (codes "channel.chat.clear")
      then system_message (codes "Chat clear requested") ∷ []
      else []

  handle_notification_lem :
      (type : Text) (raw_msg : json.Json)
      → handle_notification json true type raw_msg ≡ expected type raw_msg
  unfolding handle_notification text_eq
  handle_notification_lem type raw_msg =
      pick_block _ _ _ (chat_message_of json raw_msg) (ad_break_message_of json raw_msg) _
        (different type _ _ refl) (different type _ _ refl) (different type _ _ refl)

  handle_notification_silent :
      (type : Text) (raw_msg : json.Json) → handle_notification json false type raw_msg ≡ []
  unfolding handle_notification run_blocks
  handle_notification_silent type raw_msg =
      rw
        (
          no_callback (text_eq type (codes "channel.chat.message"))
              (block_of (chat_message_of json raw_msg)),
          no_callback (text_eq type (codes "channel.ad_break.begin"))
              (block_of (ad_break_message_of json raw_msg)),
          no_callback (text_eq type (codes "channel.chat.clear"))
              (going (system_message (codes "Chat clear requested") ∷ [])),
        )
        refl

  length-expected : (type : Text) (raw_msg : json.Json) → length (expected type raw_msg) ≤ 1
  length-expected type raw_msg = elim (Bool-cases (text_eq type (codes "channel.chat.message"))) [
    | inl chat ↦ rw chat (length-messages_of (chat_message_of json raw_msg))
    | inr other ↦ rw other (elim (Bool-cases (text_eq type (codes "channel.ad_break.begin"))) [
      | inl ads ↦ rw ads (length-messages_of (ad_break_message_of json raw_msg))
      | inr other' ↦ rw other' (elim (Bool-cases (text_eq type (codes "channel.chat.clear"))) [
        | inl clear ↦ rw clear (omega arith)
        | inr none' ↦ rw none' (omega arith)
      ])
    ])
  ]

  length-handle_raw :
      (has_callback : Bool) (type : Option Text) (raw_msg : json.Json)
      → length (handle_raw json has_callback type raw_msg) ≤ 1
  unfolding handle_raw
  length-handle_raw has_callback none raw_msg = omega arith
  length-handle_raw true (some type) raw_msg =
      rw (handle_notification_lem type raw_msg) (length-expected type raw_msg)
  length-handle_raw false (some type) raw_msg =
      rw (handle_notification_silent type raw_msg) (omega arith)

  length-deliver :
      (has_callback : Bool) (raw : Option json.Json) → length (deliver json has_callback raw) ≤ 1
  unfolding deliver
  length-deliver has_callback none = omega arith
  length-deliver has_callback (some raw_msg) =
      length-handle_raw has_callback (notification_type json raw_msg) raw_msg

  -- Whatever text arrives, the callback is given one chat message at most.
  pub length-handle_event_sub_message :
      (has_callback : Bool) (msg : Text)
      → length (handle_event_sub_message json has_callback msg) ≤ 1
  unfolding handle_event_sub_message
  length-handle_event_sub_message has_callback msg = length-deliver has_callback (json.parse msg)

  -- With a callback, a notification gives it what its type says: the chat message of a
  -- `channel.chat.message` and the notice of a `channel.ad_break.begin`, where the reads succeed,
  -- the notice of a `channel.chat.clear`, and nothing for any other type.
  pub handle_event_sub_message_lem :
      (msg : Text) (raw_msg : json.Json) (type : Text)
      → json.parse msg ≡ some raw_msg
      → notification_type json raw_msg ≡ some type
      → handle_event_sub_message json true msg ≡ (
          if text_eq type (codes "channel.chat.message")
          then messages_of (chat_message_of json raw_msg)
          else if text_eq type (codes "channel.ad_break.begin")
          then messages_of (ad_break_message_of json raw_msg)
          else if text_eq type (codes "channel.chat.clear")
          then system_message (codes "Chat clear requested") ∷ []
          else [])
  unfolding handle_event_sub_message deliver handle_raw
  handle_event_sub_message_lem msg raw_msg type parsed notified =
      ap (deliver json true) parsed
      ∙ (ap (λ t. handle_raw json true t raw_msg) notified ∙ handle_notification_lem type raw_msg)
