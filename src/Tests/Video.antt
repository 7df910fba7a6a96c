-- ===== src/Tests/Video.antt =====
-- Runs of the commands for OBS.
use seraphbot.Base.{
  ℕ, ◌+◌, ◌≡◌, refl, true, false, none, some, [], ◌∷◌, if◌then◌else◌, codes, text_eq, pos,
}
use seraphbot.Net.{JsonLibrary}
use seraphbot.Net.{value, failed, other_error}
use seraphbot.Obs.{ObsNet, ObsService, new_service, connect_to_obs, request}
use seraphbot.Obs.Connecting.{connect_to_obs-Answers, Answers, Gives}
use seraphbot.Obs.Finding.{find_source-first_named, IsIndexed}
use seraphbot.Obs.Video.{find_source, string_is, play_video}
use seraphbot.Obs.Playing.{play_video-Quiet, Quiet}
use seraphbot.Obs.Unresolved.{play_video_unresolved}
use seraphbot.Tests.Worlds.{flat_json}

-- OBS answers each request with an empty text, and the world counts what is written.
abbrev obs_net : ObsNet
obs_net = record {
  World = ℕ;
  resolve = λ host service w. (
    if text_eq service (codes "4455") then value tt else failed (other_error (codes "service")),
    w,
  );
  connect = λ w. (value tt, w);
  handshake = λ host w. (value tt, w);
  write = λ text w. (value tt, w + 1);
  read = λ w. (value [], w);
  sleep = λ ms w. w;
}

-- A service that is connected, and a new one with the password of the program.
abbrev obs_connected : ObsService
obs_connected = record (new_service (codes "4455")) { has_ws = true; connected = true }

abbrev pub obs_new : ObsService
obs_new = record {
  obs_host = codes "192.168.1.2";
  obs_port = codes "4455";
  obs_password = codes "testpassword";
  has_ws = false;
  connected = false;
  request_id = 1;
}

play_video-Quiet_example :
    Gives (Quiet obs_net flat_json) (
      play_video obs_net flat_json
        (codes "a.mp4")
        (codes "Main")
        (codes "Video")
        (obs_connected, 0))
play_video-Quiet_example =
    play_video-Quiet obs_net flat_json (codes "a.mp4") (codes "Main") (codes "Video")
      (obs_connected, 0) refl

play_video_unresolved_example :
    play_video obs_net flat_json (codes "a.mp4") (codes "Main") (codes "Video") (obs_new, 0) ≡ none
unfolding text_eq request
play_video_unresolved_example =
    play_video_unresolved obs_net flat_json (codes "a.mp4") (codes "Main") (codes "Video") obs_new
      [] (other_error (codes "service")) 0 refl refl (λ w. refl) refl

connect_to_obs-Answers_example :
    Gives (Answers obs_net flat_json) (connect_to_obs obs_net flat_json (obs_new, 0))
connect_to_obs-Answers_example = connect_to_obs-Answers obs_net flat_json (obs_new, 0)

-- Every key is there and gives itself, and every number is seven.
abbrev seven_json : JsonLibrary
seven_json = record flat_json { value_integer = λ j key default. some (pos 7) }

seven_json-IsIndexed : IsIndexed seven_json
seven_json-IsIndexed = record { found = λ j key e. (key, refl) }

find_source-first_named_example :
    find_source obs_net seven_json (codes "sourceName") (codes "a" ∷ codes "b" ∷ []) (obs_new, 0)
    ≡ some (value (pos 7), (obs_new, 0))
unfolding string_is text_eq
find_source-first_named_example =
    find_source-first_named obs_net seven_json (codes "sourceName") (codes "a" ∷ codes "b" ∷ [])
      (obs_new, 0) seven_json-IsIndexed
