-- ===== src/Audio/Playing.antt =====
-- Proofs about what `AudioSystem::playSound` takes to play a sound.
use seraphbot.Base.{◌≡◌, ◌⊎◌, true, false, some, arith, Text, ℤ}
use seraphbot.FileSystem.{FileSystem}
use seraphbot.Audio.Whitelist.{is_path_allowed}
use seraphbot.Audio.Player.{Sound}
use seraphbot.Audio.{AudioSystem, play_sound}

module _ (fs : FileSystem) (sound : Sound) where
  -- `playSound` returns true only if the file exists, the directory of the file is allowed by the
  -- whitelist, and the player is initialised.
  pub play_sound_allowed :
      (filepath : Text) (volume : ℤ) (a : AudioSystem sound.Float) (w : sound.World)
      → (play_sound fs sound filepath volume a w).0 ≡ some true
      → (fs.exists filepath ≡ some true)
        × (is_path_allowed fs (fs.parent_path filepath) a.whitelist ≡ true)
        × (a.player.initialized ≡ true)
  unfolding play_sound
  play_sound_allowed filepath volume a w h = ground arith

  -- A call that is refused, for whatever reason before the engine is asked, leaves the sound as it
  -- was.
  pub play_sound_refused :
      (filepath : Text) (volume : ℤ) (a : AudioSystem sound.Float) (w : sound.World)
      → (is_path_allowed fs (fs.parent_path filepath) a.whitelist ≡ false)
        ⊎ (a.player.initialized ≡ false)
      → (play_sound fs sound filepath volume a w).1 ≡ w
  unfolding play_sound
  play_sound_refused filepath volume a w h = ground arith
