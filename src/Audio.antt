-- ===== src/Audio.antt =====
-- src/core/audio_system.cpp and include/seraphbot/core/audio_system.hpp: `AudioSystem`. The player
-- is src/core/miniaudio_player.cpp, in the module Player, and the directories that sounds may come
-- from are in the module Whitelist. Calls that throw give `none`.
pub mod Whitelist
pub mod Components
pub mod Inside
pub mod Player
pub mod Lifecycle
pub mod Playing
pub mod Listing
use seraphbot.Base.{
  ℕ, zero, suc, ◌+◌, ◌-◌, ◌*◌, ◌/◌, ◌%◌, ◌^◌, ◌≤◌, ◌<◌, String, ◌≡◌, refl, sym, ap, ◌∙◌, ◌≢◌, ◌↔◌,
  ◌⊎◌, inl, inr, Bool, true, false, not, ◌&&◌, ◌||◌, Option, none, some, List, [], ◌∷◌, ◌++◌, map,
  append-nil, append_assoc, arith, ltb, leb, ◌==◌, if◌then◌else◌, ==_iff, Bool-cases, Option-cases,
  length, drop, take, length-append, drop-length_append, All, All-append, All-mono, any_of, Text,
  codes, text_eq, text_eq_iff, text_eq_refl, starts_with, starts_with-append, starts_with-split,
  is_empty, to_lower, lower, to_lower_idem, lower_idem, is_space, to_text, ℤ, pos, negsuc, pos_part,
  neg_part, sub_ℕ, ltb_ℤ, clamp, clamp_bounds,
}
use seraphbot.Base.Chain.{◌>>=◌}
use seraphbot.FileSystem.{FileSystem}
use Whitelist.{DirectoryWhitelist, new_whitelist, is_path_allowed}
use Player.{Sound, MiniaudioPlayer, new_player}
use Player

pub record AudioSystem (Float : Type 0) : Type 0 where
  pub whitelist : DirectoryWhitelist
  pub player : MiniaudioPlayer Float

-- `getSupportedExtensions`
abbrev pub supported_extensions : List Text
supported_extensions = codes ".mp3" ∷ codes ".wav" ∷ codes ".flac" ∷ codes ".ogg" ∷ []

-- `std::string::operator<=`
unfoldable pub text_leb : Text → Text → Bool
text_leb [] t = true
text_leb (c ∷ s) [] = false
text_leb (c ∷ s) (d ∷ t) = if ltb c d then true else if c == d then text_leb s t else false

unfoldable pub insert_sorted : Text → List Text → List Text
insert_sorted s [] = s ∷ []
insert_sorted s (t ∷ ts) = if text_leb s t then s ∷ t ∷ ts else t ∷ insert_sorted s ts

-- `std::sort`
unfoldable pub sort : List Text → List Text
unfolding insert_sorted
sort [] = []
sort (t ∷ ts) = insert_sorted t (sort ts)

-- `std::clamp(volume, 0, 100)`
abbrev pub clamp_volume : ℤ → ℕ
clamp_volume volume = clamp volume 0 100

module _ (fs : FileSystem) where
  open fs use {exists, is_directory, is_regular_file, entries, parent_path, stem, extension, join}

  unfoldable pub is_supported_audio_file : Text → Bool
  is_supported_audio_file path =
      any_of (λ supported. text_eq supported (lower (extension path))) supported_extensions

  -- The loop over the entries, and whether it came to its end.
  unfoldable pub collect : List (Text × Option Bool) → Bool → List Text × Bool
  collect [] ended = ([], ended)
  collect ((path, none) ∷ rest) ended = ([], false)
  collect ((path, some regular) ∷ rest) ended =
      let (names, ended') = collect rest ended in
      if regular && is_supported_audio_file path
      then (stem path ∷ names, ended')
      else (names, ended')

  -- An exception in the loop leaves the names found so far, unsorted.
  unfoldable pub sort_if : List Text × Bool → List Text
  sort_if (names, ended) = if ended then sort names else names

  unfoldable pub list_audio_files : Text → DirectoryWhitelist → Option (List Text)
  unfolding sort_if
  list_audio_files directory whitelist =
      if not (is_path_allowed fs directory whitelist) then some [] else (do
        found ← exists directory
        if not found then some [] else (do
          is_dir ← is_directory directory
          if not is_dir
              then some []
              else (let (names, ended) = entries directory in
                  some (sort_if (collect names ended)))))

  -- The loop over the extensions.
  candidates : Text → Text → List Text → Option (List Text)
  candidates name directory [] = some []
  candidates name directory (ext ∷ exts) = do
    found ← exists (join directory (name ++ ext))
    regular ← (if found then is_regular_file (join directory (name ++ ext)) else some false)
    rest ← candidates name directory exts
    some (if regular then join directory (name ++ ext) ∷ rest else rest)

  -- `found_files[0]`, and the empty text for none and for an exception.
  first_or_empty : Option (List Text) → Text
  first_or_empty none = []
  first_or_empty (some []) = []
  first_or_empty (some (file ∷ files)) = file

  unfoldable pub find_audio_file : Text → Text → DirectoryWhitelist → Option Text
  unfolding candidates first_or_empty
  find_audio_file name directory whitelist =
      if not (is_path_allowed fs directory whitelist) then some [] else (do
        found ← exists directory
        if not found
            then some []
            else some (first_or_empty (candidates name directory supported_extensions)))

  module _ (sound : Sound) where
    open sound use {Float, World}

    new_audio_system : World → AudioSystem Float × World
    new_audio_system w =
        let (initialized, player, w') = Player.initialize sound (new_player sound) w in
        (record { whitelist = new_whitelist fs; player = player }, w')

    -- The result of the call; the system itself stays as it is.
    unfoldable pub play_sound : Text → ℤ → AudioSystem Float → World → Option Bool × World
    play_sound filepath volume a w = elim (exists filepath) [
      | none ↦ (none, w)
      | some found ↦
          if not found
          then (some false, w)
          else if not (is_path_allowed fs (parent_path filepath) a.whitelist)
          then (some false, w)
          else if not a.player.initialized
          then (some false, w)
          else Player.play_sound fs sound filepath (pos (clamp_volume volume)) a.player w
    ]

    unfoldable pub set_master_volume : ℤ → AudioSystem Float → World → AudioSystem Float × World
    set_master_volume volume a w =
        if a.player.initialized
        then (let (player, w') = Player.set_master_volume sound volume a.player w in
            (record a { player = player }, w'))
        else (a, w)

    unfoldable pub get_master_volume : AudioSystem Float → ℕ
    get_master_volume a =
        if a.player.initialized then Player.get_master_volume sound a.player else 70

    unfoldable pub stop_all_sounds : AudioSystem Float → World → World
    stop_all_sounds a w = if a.player.initialized then Player.stop_all sound a.player w else w
