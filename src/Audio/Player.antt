-- ===== src/Audio/Player.antt =====
-- src/core/miniaudio_player.cpp and include/seraphbot/core/miniaudio_player.hpp. The engine of
-- miniaudio and the arithmetic of `float` are arguments.
use seraphbot.Base.{
  ℕ, Bool, true, false, not, ◌||◌, Option, none, some, if◌then◌else◌, Text, ℤ, pos, clamp,
}
use seraphbot.FileSystem.{FileSystem}

-- `ma_engine_init`, `ma_engine_uninit`, `ma_engine_play_sound`, `ma_engine_set_volume` and
-- `ma_engine_stop`, where a result says `MA_SUCCESS`; the two conversions of `volumeToFloat` and
-- `floatToVolume` behind their `std::clamp`, the product, and `0.7F`.
pub record Sound : Type 1 where
  pub World : Type 0
  pub Float : Type 0
  pub engine_init : World → Bool × World
  pub engine_uninit : World → World
  pub engine_play_sound : Text → World → Bool × World
  pub engine_set_volume : Float → World → World
  pub engine_stop : World → World
  pub to_float : ℕ → Float
  pub from_float : Float → ℕ
  pub times : Float → Float → Float
  pub seven_tenths : Float

-- `engine` says whether `m_engine` is set.
pub record MiniaudioPlayer (Float : Type 0) : Type 0 where
  pub engine : Bool
  pub master_volume : Float
  pub initialized : Bool

module _ (sound : Sound) where
  open sound use {
    World, Float, engine_init, engine_uninit, engine_play_sound, engine_set_volume, engine_stop,
    to_float, from_float, times, seven_tenths,
  }

  unfoldable pub new_player : MiniaudioPlayer Float
  new_player = record { engine = false; master_volume = seven_tenths; initialized = false }

  -- What follows `ma_engine_init`.
  unfoldable pub after_init :
      MiniaudioPlayer Float → Bool × World → Bool × MiniaudioPlayer Float × World
  after_init p (true, w) = (true, record p { engine = true; initialized = true }, w)
  after_init p (false, w) = (false, record p { engine = false }, w)

  unfoldable pub initialize : MiniaudioPlayer Float → World → Bool × MiniaudioPlayer Float × World
  unfolding after_init
  initialize p w = if p.initialized then (true, p, w) else after_init p (engine_init w)

  unfoldable pub shutdown : MiniaudioPlayer Float → World → MiniaudioPlayer Float × World
  shutdown p w =
      if not p.initialized
      then (p, w)
      else if p.engine
      then (record p { engine = false; initialized = false }, engine_uninit w)
      else (record p { initialized = false }, w)

  volume_to_float : ℤ → Float
  volume_to_float volume = to_float (clamp volume 0 100)

  unfoldable pub set_master_volume :
      ℤ → MiniaudioPlayer Float → World → MiniaudioPlayer Float × World
  unfolding volume_to_float
  set_master_volume volume p w =
      let level = volume_to_float (pos (clamp volume 0 100)) in
      (record p { master_volume = level }, if p.engine then engine_set_volume level w else w)

  unfoldable pub get_master_volume : MiniaudioPlayer Float → ℕ
  get_master_volume p = from_float p.master_volume

  unfoldable pub stop_all : MiniaudioPlayer Float → World → World
  stop_all p w = if not p.initialized || not p.engine then w else engine_stop w

-- The file is looked for once more; an exception is `none`.
module _ (fs : FileSystem) (sound : Sound) where
  open sound use {World, Float, engine_play_sound, engine_set_volume, times}

  -- What follows `ma_engine_play_sound`.
  unfoldable pub after_play : Float → Bool × World → Option Bool × World
  after_play level (true, w) = (some true, engine_set_volume level w)
  after_play level (false, w) = (some false, w)

  unfoldable pub play_sound : Text → ℤ → MiniaudioPlayer Float → World → Option Bool × World
  unfolding after_play volume_to_float
  play_sound filepath volume p w =
      if not p.initialized || not p.engine then (some false, w) else elim (fs.exists filepath) [
        | none ↦ (none, w)
        | some found ↦
            if not found
            then (some false, w)
            else after_play
                (times (volume_to_float sound (pos (clamp volume 0 100))) p.master_volume)
                (engine_play_sound filepath w)
      ]
