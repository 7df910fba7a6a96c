-- ===== src/Obs/Playing.antt =====
-- Proofs about `playVideo`: where it is safe.
use seraphbot.Base.{◌≡◌, refl, Bool, true, false, Option, none, some, List, [], ◌∷◌, Text, ℤ}
use seraphbot.Net.{Outcome, value, failed, JsonLibrary}
use seraphbot.Obs.{
  Obs, ObsNet, ObsService, connect_to_obs, open_ws, dial, outside, ensure_connected,
  unless_connected, send_obs_command,
}
use seraphbot.Obs.Steps.{handled, pure}
use seraphbot.Obs.Video.{
  find_source, found_source, response_data, get_media_duration, media_duration, get_source_id,
  scene_items, command, wait, show_for_duration, play, play_video,
}
use seraphbot.Obs.Connecting.{
  Dialled, dial-Dialled, after-Ends, Safe, HasWs, Ends, Gives, safe_rules, bind-Safe, catch-Safe,
  if-Safe, send_message-Safe, receive_message-Safe, take_id-Safe, member-Safe, has_member-Safe,
}

module _ (net : ObsNet) (json : JsonLibrary) where
  Dialled-Ends :
      (r : Option (Outcome Bool × (ObsService × net.World)))
      → Gives (Dialled net json) r
      → Ends (HasWs net json) r
  Dialled-Ends none h = h
  Dialled-Ends (some (value b, s)) (_, _, h) = h
  Dialled-Ends (some (failed e, s)) h = h

  dial-Safe : (host password : Text) → Safe (HasWs net json) (dial net json host password)
  dial-Safe host password = record {
    ends = λ s h. Dialled-Ends _ (dial-Dialled net json host password s);
  }

  open_ws-Safe : Safe (HasWs net json) (open_ws net json)
  unfolding open_ws
  open_ws-Safe = record {
    ends = λ s h.
        after-Ends (λ (_ : Unit {0}). dial net json s.0.obs_host s.0.obs_password)
          (outside net json (net.resolve s.0.obs_host s.0.obs_password) s)
          (λ _. dial-Safe s.0.obs_host s.0.obs_password) h;
  }

  connect_to_obs-Safe : Safe (HasWs net json) (connect_to_obs net json)
  unfolding connect_to_obs
  connect_to_obs-Safe = catch-Safe open_ws-Safe (λ e. record { ends = λ s h. h })

  unless_connected-Safe : (b : Bool) → Safe (HasWs net json) (unless_connected net json b)
  unfolding unless_connected
  unless_connected-Safe true = search safe_rules
  unless_connected-Safe false = search (safe_rules, connect_to_obs-Safe)

  ensure_connected-Safe : Safe (HasWs net json) (ensure_connected net json)
  unfolding ensure_connected
  ensure_connected-Safe = record { ends = λ s h. (unless_connected-Safe s.0.connected).ends s h }

  send_obs_command-Safe :
      (message : json.Json) → Safe (HasWs net json) (send_obs_command net json message)
  unfolding send_obs_command
  send_obs_command-Safe message =
      bind-Safe (bind-Safe ensure_connected-Safe (λ _. send_message-Safe net json message))
        (λ _. receive_message-Safe net json)

  found_source-Safe :
      (item : json.Json) (later : Obs net json ℤ) (b : Bool)
      → Safe (HasWs net json) later
      → Safe (HasWs net json) (found_source net json item later b)
  unfolding found_source
  found_source-Safe item later true h = search safe_rules
  found_source-Safe item later false h = h

  find_source-Safe :
      (name : Text) (items : List json.Json)
      → Safe (HasWs net json) (find_source net json name items)
  unfolding find_source
  find_source-Safe name [] = search safe_rules
  find_source-Safe name (item ∷ rest) =
      let ih = find_source-Safe name rest in
      if-Safe _ ih (bind-Safe (member-Safe net json _ _) (λ source. found_source-Safe _ _ _ ih))

  response_data-Safe :
      (response : json.Json) → Safe (HasWs net json) (response_data net json response)
  unfolding response_data
  response_data-Safe response =
      search (safe_rules, member-Safe net json, has_member-Safe net json) depth 20

  media_duration-Safe :
      (fetched : Option json.Json) → Safe (HasWs net json) (media_duration net json fetched)
  unfolding media_duration
  media_duration-Safe none = search safe_rules
  media_duration-Safe (some fetched) = search (safe_rules, member-Safe net json)

  scene_items-Safe :
      (name : Text) (fetched : Option json.Json)
      → Safe (HasWs net json) (scene_items net json name fetched)
  unfolding scene_items
  scene_items-Safe name none = search safe_rules
  scene_items-Safe name (some fetched) = search (safe_rules, member-Safe net json, find_source-Safe)

  get_media_duration-Safe : (name : Text) → Safe (HasWs net json) (get_media_duration net json name)
  unfolding get_media_duration
  get_media_duration-Safe name = bind-Safe (take_id-Safe net json) (λ id.
      bind-Safe (send_obs_command-Safe _)
        (λ response. bind-Safe (response_data-Safe response) media_duration-Safe))

  get_source_id-Safe :
      (scene name : Text) → Safe (HasWs net json) (get_source_id net json scene name)
  unfolding get_source_id
  get_source_id-Safe scene name = bind-Safe (take_id-Safe net json) (λ id.
      bind-Safe (send_obs_command-Safe _)
        (λ response. bind-Safe (response_data-Safe response) (scene_items-Safe name)))

  command-Safe :
      (type : Text) (fields : List (Text × json.Json))
      → Safe (HasWs net json) (command net json type fields)
  unfolding command
  command-Safe type fields =
      bind-Safe (take_id-Safe net json) (λ id. search (safe_rules, send_obs_command-Safe))

  wait-Safe : (ms : ℤ) → Safe (HasWs net json) (wait net json ms)
  unfolding wait
  wait-Safe ms = record { ends = λ s h. h }

  show_for_duration-Safe :
      (scene name : Text) (id : ℤ)
      → Safe (HasWs net json) (show_for_duration net json scene name id)
  unfolding show_for_duration
  show_for_duration-Safe scene name id =
      search (safe_rules, command-Safe, get_media_duration-Safe, wait-Safe) depth 20

  play-Safe : (path scene name : Text) → Safe (HasWs net json) (play net json path scene name)
  unfolding play
  play-Safe path scene name =
      search
        (
          safe_rules, ensure_connected-Safe, command-Safe, get_source_id-Safe,
          show_for_duration-Safe,
        )
        depth 20

  -- Nothing is thrown, and `m_ws` is not null.
  abbrev pub Quiet : Outcome (Unit {0}) → ObsService × net.World → Type 0
  Quiet o s = (o ≡ value tt) × HasWs net json s

  caught-Quiet :
      (r : Option (Outcome (Unit {0}) × (ObsService × net.World)))
      → Ends (HasWs net json) r
      → Gives Quiet (handled (λ e. pure tt) r)
  caught-Quiet none h = h
  caught-Quiet (some (value a, s)) h = (refl, h)
  caught-Quiet (some (failed e, s)) h = (refl, h)

  -- Once there is a WebSocket, `playVideo` never dereferences a null pointer and throws nothing,
  -- whatever OBS and the network answer, and there still is a WebSocket behind it.
  pub play_video-Quiet :
      (path scene source : Text) (s : ObsService × net.World)
      → HasWs net json s
      → Gives Quiet (play_video net json path scene source s)
  unfolding play_video
  play_video-Quiet path scene source s h = caught-Quiet _ ((play-Safe path scene source).ends s h)
