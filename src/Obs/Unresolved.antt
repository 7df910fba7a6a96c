-- ===== src/Obs/Unresolved.antt =====
-- Proofs about a first connection to OBS that fails, and what `playVideo` does then.
use seraphbot.Base.{◌≡◌, refl, false, none, some, List, arith, Text, codes}
use seraphbot.Net.{value, failed, Failure, JsonLibrary}
use seraphbot.Obs.{
  request_data, request, send_message, next_id, take_id, ObsNet, ObsService, connect_to_obs,
  open_ws, ensure_connected, unless_connected, send_obs_command,
}
use seraphbot.Obs.Video.{set_media, command, play, play_video}

module _ (net : ObsNet) (json : JsonLibrary) where
  -- The address of OBS cannot be resolved, and there is no connection yet.
  record Unresolved (o : ObsService) : Type 0 where
    not_connected : o.connected ≡ false
    no_ws : o.has_ws ≡ false
    why : Failure
    unresolved : (w : net.World) → (net.resolve o.obs_host o.obs_password w).0 ≡ failed why

  -- The failure is told to nobody.
  ensure_connected-Unresolved :
      (o : ObsService) (w : net.World) (u : Unresolved o)
      → ensure_connected net json (o, w)
        ≡ some (value tt, (o, (net.resolve o.obs_host o.obs_password w).1))
  unfolding ensure_connected unless_connected connect_to_obs open_ws
  ensure_connected-Unresolved o w u = ground (arith, u.not_connected, u.unresolved w)

  send_obs_command-Unresolved :
      (o : ObsService) (w : net.World) (u : Unresolved o) (message : json.Json) (msg : Text)
      → json.dump message ≡ some msg
      → send_obs_command net json message (o, w) ≡ none
  unfolding send_obs_command send_message
  send_obs_command-Unresolved o w u message msg hd =
      rw (ensure_connected-Unresolved o w u, hd, u.no_ws) refl

  command-Unresolved :
      (o : ObsService) (w : net.World) (u : Unresolved o) (type : Text)
      (fields : List (Text × json.Json)) (msg : Text)
      → json.dump (request net json type (request_data net json fields) o.request_id) ≡ some msg
      → command net json type fields (o, w) ≡ none
  unfolding command take_id next_id
  command-Unresolved o w u type fields msg hd =
      let v : Unresolved (next_id o) = record {
        not_connected = u.not_connected;
        no_ws = u.no_ws;
        why = u.why;
        unresolved = u.unresolved;
      } in
      rw (send_obs_command-Unresolved (next_id o) w v _ msg hd) refl

  -- Before there is a WebSocket or a connection: where the address of OBS can never be resolved,
  -- with the password for the service, `playVideo` dereferences a null pointer, if its first command
  -- can be dumped.
  pub play_video_unresolved :
      (path scene source : Text) (o : ObsService) (msg : Text) (e : Failure) (w : net.World)
      → o.connected ≡ false
      → o.has_ws ≡ false
      → ((w : net.World) → (net.resolve o.obs_host o.obs_password w).0 ≡ failed e)
      → json.dump (
          request net json
            (codes "SetInputSettings")
            (request_data net json (set_media net json path source))
            o.request_id)
        ≡ some msg
      → play_video net json path scene source (o, w) ≡ none
  unfolding play_video play
  play_video_unresolved path scene source o msg e w hc hn hr hd =
      let u : Unresolved o = record { not_connected = hc; no_ws = hn; why = e; unresolved = hr } in
      rw (ensure_connected-Unresolved o w u, command-Unresolved o _ u _ _ msg hd) refl
