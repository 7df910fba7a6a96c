-- ===== src/Tests/Sounds.antt =====
-- Runs of the audio system.
use seraphbot.Base.{ℕ, ◌≡◌, ◌↔◌, true, some, [], ◌∷◌, Text, codes, negsuc}
use seraphbot.Audio.{AudioSystem}
use seraphbot.Audio.Inside.{LiesWithin, whitelist_of, is_path_allowed_iff}
use seraphbot.Audio.Lifecycle.{
  IsReady, init_call, shutdown_call, volume_call, run_calls, new_player-IsReady,
}
use seraphbot.Audio.Player.{new_player}
use seraphbot.Audio.Whitelist.{DirectoryWhitelist, is_path_allowed}
use seraphbot.Tests.Worlds.{plain_files, counting}

abbrev only_s : DirectoryWhitelist
only_s = codes "/s/" ∷ []

abbrev system : AudioSystem ℕ
system = record {
  whitelist = only_s;
  player = record { engine = true; master_volume = 70; initialized = true };
}

is_path_allowed_iff_example :
    (is_path_allowed plain_files (codes "/s\\a") (whitelist_of plain_files (codes "/s" ∷ []))
      ≡ true)
    ↔ ((canonical : Text) × (plain_files.canonical (codes "/s\\a") ≡ some canonical)
        × LiesWithin plain_files (codes "/s" ∷ []) canonical)
is_path_allowed_iff_example = is_path_allowed_iff plain_files (codes "/s" ∷ []) (codes "/s\\a")

new_player-IsReady_example :
    IsReady
      (run_calls counting
        (init_call ∷ volume_call (negsuc 4) ∷ shutdown_call ∷ [])
        (new_player counting, 0)).0
new_player-IsReady_example =
    new_player-IsReady counting (init_call ∷ volume_call (negsuc 4) ∷ shutdown_call ∷ []) 0
