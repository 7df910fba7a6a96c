-- ===== src/Discord.antt =====
-- src/discord/notifications.cpp and include/seraphbot/discord/notifications.hpp: the notification
-- that a stream has begun. The local variables that the `try` blocks assign are a state of their
-- own, which an exception keeps. Characters stand for the bytes of the source, the emoji too.
pub mod Placeholder
pub mod Replacing
pub mod Keeping
pub mod Sending
use seraphbot.Base.{
  ℕ, zero, suc, ◌+◌, ◌-◌, ◌*◌, ◌/◌, ◌%◌, ◌^◌, ◌≤◌, ◌<◌, String, ◌≡◌, refl, sym, ap, ◌∙◌, ◌≢◌, ◌↔◌,
  ◌⊎◌, inl, inr, Bool, true, false, not, ◌&&◌, ◌||◌, Option, none, some, List, [], ◌∷◌, ◌++◌, map,
  append-nil, append_assoc, arith, ltb, leb, ◌==◌, if◌then◌else◌, ==_iff, Bool-cases, Option-cases,
  length, drop, take, length-append, drop-length_append, All, All-append, All-mono, any_of, Text,
  codes, text_eq, text_eq_iff, text_eq_refl, starts_with, starts_with-append, starts_with-split,
  is_empty, to_lower, lower, to_lower_idem, lower_idem, is_space, to_text, ℤ, pos, negsuc, pos_part,
  neg_part, sub_ℕ, ltb_ℤ, clamp, clamp_bounds,
}
use seraphbot.Https.{ClientConfig, strip_oauth_prefix, https_get, https_post}
use seraphbot.Net.{
  Failure, other_error, Net, JsonLibrary, Run, ◌>>=◌, ◌>>◌, pure, catch, or_throw, beside, assign,
}
use Placeholder.{replace_all}

pub record Notifications : Type 0 where
  pub cfg : ClientConfig
  pub webhook_url : Text

unfoldable pub set_webhook_url : Text → Notifications → Notifications
set_webhook_url url n = record n { webhook_url = url }

-- `getWebhookUrl`
unfoldable pub get_webhook_url : Notifications → Text
get_webhook_url n = n.webhook_url

-- The local variables of `sendMessage` that describe the stream.
pub record StreamInfo : Type 0 where
  pub stream_title : Text
  pub game_name : Text
  pub thumbnail_url : Text
  pub game_thumbnail : Text

abbrev pub placeholder_info : StreamInfo
placeholder_info = record {
  stream_title = codes "Stream Notification";
  game_name = codes "Just Chatting";
  thumbnail_url = [];
  game_thumbnail = [];
}

abbrev pub width : Text
width = codes "{width}"

abbrev pub height : Text
height = codes "{height}"

-- The two replacements, of a URL that is not empty.
unfoldable pub sized : Text → Text → Text → Text
sized w h url = if is_empty url then url else replace_all height h (replace_all width w url)

abbrev pub bad_json : Failure
bad_json = other_error (codes "json")

-- The stream on the web.
unfoldable pub twitch_url : ClientConfig → Text
twitch_url cfg =
    codes "https://www.twitch.tv/"
    ++ (if is_empty cfg.broadcaster_id then codes "channel_name" else cfg.broadcaster_id)

abbrev pub helix_headers : ClientConfig → List (Text × Text)
helix_headers cfg =
    (codes "Client-Id", cfg.client_id)
    ∷ (codes "Authorization", codes "Bearer " ++ strip_oauth_prefix cfg.access_token)
    ∷ []

module _ (net : Net) (json : JsonLibrary) where
  open net use {World}
  open json use {
    Json, parse, dump, contains, index, at, string_of, empty, first, value_text, text, integer,
    boolean, array, object,
  }

  -- The local variables beside the outside.
  abbrev pub Locals : Type 0
  Locals = StreamInfo × World

  -- `contains("data") || !["data"].empty()`
  has_data : Json → Run Locals Bool
  has_data j = if contains j (codes "data") then pure true else (do
    data_items ← or_throw (index j (codes "data")) bad_json
    pure (not (empty data_items)))

  first_item : Json → Run Locals Json
  first_item j = do
    data_items ← or_throw (index j (codes "data")) bad_json
    or_throw (first data_items) bad_json

  text_or : Json → Text → Text → Run Locals Text
  text_or j key default = or_throw (value_text j key default) bad_json

  get_json : ClientConfig → Text → Run Locals Json
  get_json cfg target = do
    response ← beside (https_get net cfg.helix_host cfg.helix_port target (helix_headers cfg))
    or_throw (parse response) bad_json

  -- The inner `try` block, for the picture of the game, up from what the response holds.
  store_picture : Json → Run Locals (Unit {0})
  unfolding text_or
  store_picture game_data = do
    url ← text_or game_data (codes "box_art_url") []
    assign (λ v. record v { game_thumbnail = sized (codes "285") (codes "380") url })

  read_game : Json → Run Locals (Unit {0})
  unfolding has_data first_item store_picture
  read_game games = do
    found ← has_data games
    if not found then pure tt else (first_item games >>= store_picture)

  fetch_game : ClientConfig → Text → Run Locals (Unit {0})
  unfolding get_json read_game
  fetch_game cfg game_id = get_json cfg (codes "/helix/games?id=" ++ game_id) >>= read_game

  -- `data["game_id"]` as a string, where there is one.
  game_id_of : Json → Run Locals Text
  game_id_of stream = if not (contains stream (codes "game_id")) then pure [] else (do
    id ← or_throw (index stream (codes "game_id")) bad_json
    or_throw (string_of id) bad_json)

  -- The outer `try` block, up from what the response holds.
  store_texts : Json → Run Locals (Unit {0})
  unfolding text_or
  store_texts stream = do
    title ← text_or stream (codes "title") (codes "Live Stream")
    assign (λ v. record v { stream_title = title })
    game ← text_or stream (codes "game_name") (codes "Just Chatting")
    assign (λ v. record v { game_name = game })
    thumbnail ← text_or stream (codes "thumbnail_url") []
    assign (λ v. record v { thumbnail_url = sized (codes "1920") (codes "1080") thumbnail })

  find_game : ClientConfig → Text → Run Locals (Unit {0})
  unfolding fetch_game
  find_game cfg game_id =
      if is_empty game_id then pure tt else catch (fetch_game cfg game_id) (λ e. pure tt)

  store_stream : ClientConfig → Json → Run Locals (Unit {0})
  unfolding store_texts game_id_of find_game
  store_stream cfg stream = store_texts stream >> (game_id_of stream >>= find_game cfg)

  read_stream : ClientConfig → Json → Run Locals (Unit {0})
  unfolding has_data first_item store_stream
  read_stream cfg info = do
    found ← has_data info
    if not found then pure tt else (first_item info >>= store_stream cfg)

  unfoldable pub fetch_stream : ClientConfig → Run Locals (Unit {0})
  unfolding get_json read_stream
  fetch_stream cfg =
      get_json cfg (codes "/helix/streams?user_id=" ++ cfg.broadcaster_id ++ codes "&type=all")
      >>= read_stream cfg

  -- The optional pictures of the embed.
  picture : Text → Text → List (Text × Json)
  picture key url = if is_empty url then [] else (key, object ((codes "url", text url) ∷ [])) ∷ []

  unfoldable pub embed : ClientConfig → Text → StreamInfo → Json
  unfolding picture
  embed cfg timestamp v = object (
      (codes "title", text (codes "🔴 Stream is live!"))
      ∷ (codes "type", text (codes "rich"))
      ∷ (codes "url", text (twitch_url cfg))
      ∷ (codes "description", text v.stream_title)
      ∷ (codes "color", integer (pos 9442302))
      ∷ (codes "timestamp", text timestamp)
      ∷ (codes "footer", object ((codes "text", text (codes "Sent by SeraphBot")) ∷ []))
      ∷ (
        codes "fields",
        array (
            object (
              (codes "name", text (codes "Game"))
              ∷ (codes "value", text v.game_name)
              ∷ (codes "inline", boolean true)
              ∷ [])
            ∷ []),
      )
      ∷ (picture (codes "image") v.thumbnail_url ++ picture (codes "thumbnail") v.game_thumbnail))

  unfoldable pub payload : Notifications → Text → Text → StreamInfo → Json
  payload n timestamp message v = object (
      (codes "content", text (codes "<@&1267602696706199703> " ++ message))
      ∷ (codes "embeds", array (embed n.cfg timestamp v ∷ []))
      ∷ [])

  -- What is fetched, where no exception gets out.
  unfoldable pub stream_info : ClientConfig → World → Locals
  stream_info cfg w = (catch (fetch_stream cfg) (λ e. pure tt) (placeholder_info, w)).1

  post_payload : Notifications → Text → Run World (Unit {0})
  post_payload n body = do
    resp ← https_post net (codes "discord.com") (codes "443") n.webhook_url body []
    pure tt

  -- `sendMessage`; `timestamp` is what the clock gives when the embed is made. The payload is
  -- dumped outside of the `try` block, which stops with an exception if a text is not UTF-8.
  unfoldable pub send_message : Notifications → Text → Text → Run World (Unit {0})
  unfolding post_payload
  send_message n timestamp message w =
      let (v, w') = stream_info n.cfg w in
      ◌>>=◌ (or_throw (dump (payload n timestamp message v)) bad_json)
        (λ body. catch (post_payload n body) (λ e. pure tt)) w'
