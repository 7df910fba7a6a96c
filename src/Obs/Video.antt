-- ===== src/Obs/Video.antt =====
-- include/seraphbot/obs/obsservice.hpp, from `getSourceId` to `playVideo`: a video that is shown in
-- a scene for as long as it lasts.
use seraphbot.Base.{
  Bool, true, false, not, Option, none, some, List, [], ◌∷◌, ◌==◌, if◌then◌else◌, Text, codes,
  text_eq, ℤ, pos, negsuc,
}
use seraphbot.Net.{value, JsonLibrary}
use seraphbot.Obs.{
  ObsNet, bad_json, Obs, member, take_id, has_member, request, request_data, ensure_connected,
  send_obs_command,
}
use seraphbot.Obs.Steps.{◌>>=◌, ◌>>◌, pure, catch, or_throw}

module _ (net : ObsNet) (json : JsonLibrary) where
  open json use {
    Json, contains, string_of, items, value_integer, integer_of, text, integer, boolean, object,
  }

  -- `json == std::string`
  unfoldable pub string_is : Json → Text → Bool
  string_is j name = elim (string_of j) [ none ↦ false | some t ↦ text_eq t name ]

  unfoldable pub found_source : Json → Obs net json ℤ → Bool → Obs net json ℤ
  found_source item later true =
      or_throw (value_integer item (codes "sceneItemId") (negsuc 0)) bad_json
  found_source item later false = later

  -- The loop of `getSourceId`.
  unfoldable pub find_source : Text → List Json → Obs net json ℤ
  unfolding found_source
  find_source source_name [] = pure (negsuc 0)
  find_source source_name (item ∷ rest) =
      let later = find_source source_name rest in
      if not (contains item (codes "sourceName")) then later else (do
        source ← member net json item "sourceName"
        found_source item later (string_is source source_name))

  -- `contains("d")`, `["d"].contains("responseData")`, and that member.
  unfoldable pub response_data : Json → Obs net json (Option Json)
  response_data response = do
    found ← has_member net json response "responseData"
    if not found then pure none else (do
      d ← member net json response "d"
      fetched ← member net json d "responseData"
      pure (some fetched))

  unfoldable pub scene_items : Text → Option Json → Obs net json ℤ
  scene_items source_name none = pure (negsuc 0)
  scene_items source_name (some fetched) =
      if not (contains fetched (codes "sceneItems"))
      then pure (negsuc 0)
      else (do scene ← member net json fetched "sceneItems"; find_source source_name (items scene))

  unfoldable pub get_source_id : Text → Text → Obs net json ℤ
  unfolding scene_items
  get_source_id scene_name source_name = do
    id ← take_id net json
    response ← send_obs_command net json (
        request net json (codes "GetSceneItemList")
          (request_data net json ((codes "sceneName", text scene_name) ∷ [])) id)
    fetched ← response_data response
    scene_items source_name fetched

  unfoldable pub media_duration : Option Json → Obs net json ℤ
  media_duration none = pure (pos 5000)
  media_duration (some fetched) =
      if not (contains fetched (codes "mediaDuration")) then pure (pos 5000) else (do
        duration ← member net json fetched "mediaDuration"
        or_throw (integer_of duration) bad_json)

  -- In milliseconds.
  unfoldable pub get_media_duration : Text → Obs net json ℤ
  unfolding media_duration
  get_media_duration source_name = do
    id ← take_id net json
    response ← send_obs_command net json (
        request net json (codes "GetMediaInputStatus")
          (request_data net json ((codes "inputName", text source_name) ∷ [])) id)
    fetched ← response_data response
    media_duration fetched

  unfoldable pub wait : ℤ → Obs net json (Unit {0})
  wait ms (o, w) = some (value tt, (o, net.sleep ms w))

  unfoldable pub wait_for_video_end : Obs net json (Unit {0})
  wait_for_video_end = wait (pos 1000)

  -- A command whose response is not looked at.
  unfoldable pub command : Text → List (Text × Json) → Obs net json (Unit {0})
  command type fields = do
    id ← take_id net json
    response ← send_obs_command net json (request net json type (request_data net json fields) id)
    pure tt

  -- The fields of the three commands; the identifier of the first scene item is the source's name.
  unfoldable pub set_media : Text → Text → List (Text × Json)
  set_media video_path source_name =
      (codes "inputName", text source_name)
      ∷ (
        codes "inputSettings",
        object (
            (codes "local_file", text video_path)
            ∷ (codes "restart_on_activate", boolean true)
            ∷ []),
      )
      ∷ []

  unfoldable pub show_source : Text → Text → List (Text × Json)
  show_source scene_name source_name =
      (codes "sceneName", text scene_name)
      ∷ (codes "sceneItemId", text source_name)
      ∷ (codes "sceneItemEnabled", boolean true)
      ∷ []

  unfoldable pub hide_source : Text → ℤ → List (Text × Json)
  hide_source scene_name source_id =
      (codes "sceneName", text scene_name)
      ∷ (codes "sceneItemId", integer source_id)
      ∷ (codes "sceneItemEnabled", boolean false)
      ∷ []

  unfoldable pub is_missing : ℤ → Bool
  is_missing (pos n) = false
  is_missing (negsuc n) = n == 0

  -- What comes behind the search for the source.
  unfoldable pub show_for_duration : Text → Text → ℤ → Obs net json (Unit {0})
  show_for_duration scene_name source_name source_id = if is_missing source_id then pure tt else (do
    command (codes "SetSceneItemEnabled") (show_source scene_name source_name)
    duration ← get_media_duration source_name
    wait duration
    command (codes "SetSceneItemEneabled") (hide_source scene_name source_id))

  -- The body of the `try` block.
  unfoldable pub play : Text → Text → Text → Obs net json (Unit {0})
  play video_path scene_name source_name = do
    ensure_connected net json
    command (codes "SetInputSettings") (set_media video_path source_name)
    source_id ← get_source_id scene_name source_name
    show_for_duration scene_name source_name source_id

  unfoldable pub play_video : Text → Text → Text → Obs net json (Unit {0})
  play_video video_path scene_name source_name =
      catch (play video_path scene_name source_name) (λ e. pure tt)
