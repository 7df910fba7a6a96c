-- ===== src/Discord/Sending.antt =====
-- Proofs about the notification: that it is sent, and what it holds.
use mathlib.Core.Path.{subst}
use seraphbot.Base.{
  ◌≡◌, refl, sym, false, not, Option, none, some, [], ◌∷◌, arith, if◌then◌else◌, Text, codes,
  is_empty,
}
use seraphbot.Https.{ClientConfig, https_post}
use seraphbot.Net.{or_throw, Outcome, value, failed, Net, JsonLibrary, Run, ◌>>=◌, pure, catch}
use seraphbot.Discord.{
  bad_json, placeholder_info, text_or, read_game, read_stream, store_texts, find_game, fetch_stream,
  store_stream, fetch_game, store_picture, Locals, post_payload, Notifications, StreamInfo, width,
  height, sized, get_json, has_data, first_item, game_id_of, stream_info, payload, send_message,
}
use seraphbot.Discord.Placeholder.{replace_all}
use seraphbot.Discord.Keeping.{Keeps, bind-Keeps, ignored-Keeps, if-Keeps}
use seraphbot.Discord.Replacing.{occurs, IsApart, occurs-replace_all, occurs-replace_all_other}

-- A URL in which the placeholders for the size have been replaced.
abbrev pub IsSized : Text → Type 0
IsSized url = (occurs width url ≡ false) × (occurs height url ≡ false)

sized-IsSized :
    (w h url : Text)
    → IsApart width w
    → IsApart width h
    → IsApart height h
    → IsSized (sized w h url)
unfolding sized is_empty
sized-IsSized w h [] a c d = (refl, refl)
sized-IsSized w h (x ∷ url) a c d = (
  occurs-replace_all_other height h width (replace_all width w (x ∷ url)) (λ e. cc) c
      (occurs-replace_all width w (x ∷ url) (λ e. cc) a),
  occurs-replace_all height h (replace_all width w (x ∷ url)) (λ e. cc) d,
)

width-IsApart_285 : IsApart width (codes "285")
width-IsApart_285 = record { filled = λ e. cc; apart = ground arith }

width-IsApart_380 : IsApart width (codes "380")
width-IsApart_380 = record { filled = λ e. cc; apart = ground arith }

width-IsApart_1920 : IsApart width (codes "1920")
width-IsApart_1920 = record { filled = λ e. cc; apart = ground arith }

width-IsApart_1080 : IsApart width (codes "1080")
width-IsApart_1080 = record { filled = λ e. cc; apart = ground arith }

height-IsApart_380 : IsApart height (codes "380")
height-IsApart_380 = record { filled = λ e. cc; apart = ground arith }

height-IsApart_1080 : IsApart height (codes "1080")
height-IsApart_1080 = record { filled = λ e. cc; apart = ground arith }

-- Both pictures of the embed.
abbrev pub HasSizes : StreamInfo → Type 0
HasSizes v = IsSized v.thumbnail_url × IsSized v.game_thumbnail

given : Option Text → Text
given none = []
given (some url) = url

-- A result that nobody waits for, of a step that may fail.
quietly :
    {W A : Type 0} (m : Run W A) (w : W)
    → catch (m >>= λ _. pure tt) (λ e. pure tt) w ≡ (value tt, (m w).1)
quietly {W} {A} m w = by_result (m w)
  where
    by_result :
        (r : Outcome A × W) → catch ((λ _. r) >>= λ _. pure tt) (λ e. pure tt) w ≡ (value tt, r.1)
    by_result (value a, w') = refl
    by_result (failed e, w') = refl

module _ (net : Net) (json : JsonLibrary) where
  post_quietly :
      (n : Notifications) (o : Option Text) (w : net.World)
      → ◌>>=◌ (or_throw o bad_json) (λ body. catch (post_payload net json n body) (λ e. pure tt)) w
        ≡ elim o [
          | none ↦ (failed bad_json, w)
          | some body ↦ (
            value tt,
            (https_post net (codes "discord.com") (codes "443") n.webhook_url body [] w).1,
          )
        ]
  unfolding post_payload
  post_quietly n none w = refl
  post_quietly n (some body) w =
      quietly {A = Text} (https_post net (codes "discord.com") (codes "443") n.webhook_url body [])
        w

  -- However the requests for the stream and the game end, one notification is posted with what
  -- they gave, and nothing is thrown, whether or not the post succeeds. Only if the payload cannot
  -- be dumped there is an exception, and nothing is posted.
  pub send_message_posts :
      (n : Notifications) (timestamp message : Text) (w : net.World)
      → let (v, w') = stream_info net json n.cfg w in
        send_message net json n timestamp message w
        ≡ elim (json.dump (payload net json n timestamp message v)) [
          | none ↦ (failed bad_json, w')
          | some body ↦ (
            value tt,
            (https_post net (codes "discord.com") (codes "443") n.webhook_url body [] w').1,
          )
        ]
  unfolding send_message
  send_message_posts n timestamp message w =
      post_quietly n
        (json.dump (payload net json n timestamp message (stream_info net json n.cfg w).0))
        (stream_info net json n.cfg w).1

  has_data_same : (j : json.Json) (s : Locals net json) → (has_data net json j s).1 ≡ s
  unfolding has_data
  has_data_same j s = ground arith

  first_item_same : (j : json.Json) (s : Locals net json) → (first_item net json j s).1 ≡ s
  unfolding first_item
  first_item_same j s = ground arith

  game_id_of_same : (j : json.Json) (s : Locals net json) → (game_id_of net json j s).1 ≡ s
  unfolding game_id_of
  game_id_of_same j s = ground arith

  get_json-HasSizes :
      (cfg : ClientConfig) (target : Text)
      → Keeps (λ s. HasSizes s.0) (get_json net json cfg target)
  unfolding get_json
  get_json-HasSizes cfg target s h = ground arith

  -- What comes once the items are there.
  items-Keeps :
      (P : Locals net json → Type 0) (j : json.Json)
      (f : json.Json → Run (Locals net json) (Unit {0}))
      → ((item : json.Json) → Keeps P (f item))
      → Keeps P (
          has_data net json j >>= λ found.
          if not found then pure tt else (first_item net json j >>= f))
  items-Keeps P j f h =
      bind-Keeps P (has_data net json j)
        (λ found. if not found then pure tt else (first_item net json j >>= f))
        (λ s p. subst P (sym (has_data_same j s)) p)
        (λ found.
          if-Keeps P (not found) (pure tt) (first_item net json j >>= f) (λ s p. p)
            (bind-Keeps P (first_item net json j) f (λ s p. subst P (sym (first_item_same j s)) p)
              h))

  text_or-HasSizes :
      (j : json.Json) (key default : Text)
      → Keeps (λ s. HasSizes s.0) (text_or net json j key default)
  unfolding text_or
  text_or-HasSizes j key default s h = ground arith

  store_picture-HasSizes :
      (game_data : json.Json) → Keeps (λ s. HasSizes s.0) (store_picture net json game_data)
  unfolding store_picture text_or given
  store_picture-HasSizes game_data s h =
      let url = given (json.value_text game_data (codes "box_art_url") []) in
      ground (
        arith,
        sized-IsSized (codes "285") (codes "380") url width-IsApart_285 width-IsApart_380
            height-IsApart_380,
      )

  fetch_game-HasSizes :
      (cfg : ClientConfig) (game_id : Text)
      → Keeps (λ s. HasSizes s.0) (fetch_game net json cfg game_id)
  unfolding fetch_game read_game
  fetch_game-HasSizes cfg game_id =
      bind-Keeps (λ s. HasSizes s.0) (get_json net json cfg _) (read_game net json)
        (get_json-HasSizes cfg _)
        (λ games.
          items-Keeps (λ s. HasSizes s.0) games (store_picture net json) store_picture-HasSizes)

  store_texts-HasSizes :
      (stream : json.Json) → Keeps (λ s. HasSizes s.0) (store_texts net json stream)
  unfolding store_texts text_or given
  store_texts-HasSizes stream s h =
      let url = given (json.value_text stream (codes "thumbnail_url") []) in
      ground (
        arith,
        sized-IsSized (codes "1920") (codes "1080") url width-IsApart_1920 width-IsApart_1080
            height-IsApart_1080,
      )

  find_game-HasSizes :
      (cfg : ClientConfig) (game_id : Text)
      → Keeps (λ s. HasSizes s.0) (find_game net json cfg game_id)
  unfolding find_game
  find_game-HasSizes cfg game_id =
      if-Keeps (λ s. HasSizes s.0) (is_empty game_id) (pure tt)
        (catch (fetch_game net json cfg game_id) (λ e. pure tt)) (λ s p. p)
        (λ s p.
          ignored-Keeps (λ s. HasSizes s.0) (fetch_game net json cfg game_id s)
            (fetch_game-HasSizes cfg game_id s p))

  store_stream-HasSizes :
      (cfg : ClientConfig) (stream : json.Json)
      → Keeps (λ s. HasSizes s.0) (store_stream net json cfg stream)
  unfolding store_stream
  store_stream-HasSizes cfg stream =
      bind-Keeps (λ s. HasSizes s.0) (store_texts net json stream)
        (λ _. game_id_of net json stream >>= find_game net json cfg) (store_texts-HasSizes stream)
        (λ _.
          bind-Keeps (λ s. HasSizes s.0) (game_id_of net json stream) (find_game net json cfg)
            (λ s p. subst (λ s. HasSizes s.0) (sym (game_id_of_same stream s)) p)
            (find_game-HasSizes cfg))

  -- However the requests end, and whatever they give: in the pictures of the embed, that of the
  -- stream and that of the game, both placeholders for the size have been replaced.
  pub stream_info_sizes :
      (cfg : ClientConfig) (w : net.World) → HasSizes (stream_info net json cfg w).0
  unfolding stream_info fetch_stream read_stream is_empty
  stream_info_sizes cfg w =
      ignored-Keeps (λ s. HasSizes s.0) (fetch_stream net json cfg (placeholder_info, w))
        (bind-Keeps (λ s. HasSizes s.0) (get_json net json cfg _) (read_stream net json cfg)
          (get_json-HasSizes cfg _)
          (λ info.
            items-Keeps (λ s. HasSizes s.0) info (store_stream net json cfg)
              (store_stream-HasSizes cfg))
          (placeholder_info, w) ((refl, refl), (refl, refl)))
