-- ===== src/Scripts/Sfx.antt =====
-- src/commands/sfx.lua: lists the sounds in pages, plays one by its name, or a random one.
use seraphbot.Base.{
  ℕ, zero, suc, ◌+◌, ◌-◌, ◌*◌, ◌/◌, ◌%◌, ◌^◌, Bool, true, false, Option, none, some, List, [], ◌∷◌,
  ◌++◌, map, ltb, if◌then◌else◌, length, drop, Text, codes, text_eq, lower, ℤ, pos, negsuc,
}
use seraphbot.Audio
use seraphbot.Audio.{AudioSystem, list_audio_files, find_audio_file}
use seraphbot.Audio.Player.{Sound}
use seraphbot.FileSystem.{FileSystem}
use seraphbot.LuaContext.{volume_or}
use seraphbot.Scripts.{Lua, Number, integer, float, Session, Ran, done, raise, reply, item, int}

abbrev pub sound_dir : Text
sound_dir = codes "sounds"

-- The integers of Lua wrap around at 64 bits.
unfoldable pub signed_64 : ℕ → ℤ
signed_64 n =
    if ltb (n % 2 ^ 64) (2 ^ 63) then pos (n % 2 ^ 64) else negsuc (2 ^ 64 - n % 2 ^ 64 - 1)

-- `(page - 1) * 15 + 1`
unfoldable pub start_index : ℤ → ℤ
start_index (pos n) = signed_64 (15 * n + (2 ^ 64 - 14))
start_index (negsuc n) = signed_64 (2 ^ 64 - 1 - (15 * n + 28) % 2 ^ 64)

-- What `sounds[i]` gives from a start on; below 1 it is nil, at which the loop ends with an error,
-- so that one such item stands for all.
unfoldable pub items_from : ℤ → List Text → List (Option Text)
items_from (pos zero) sounds = none ∷ map some sounds
items_from (pos (suc n)) sounds = map some (drop n sounds)
items_from (negsuc n) sounds = none ∷ map some sounds

-- What a sound adds to the response.
abbrev pub addition : ℕ → Text → Text
addition zero name = name
addition (suc n) name = codes ", " ++ name

abbrev pub page_cons : Text → Option (List Text) → Option (List Text)
page_cons name none = none
page_cons name (some page) = some (name ∷ page)

-- The loop that fills a page, with `sounds_added` and `current_length`; `none` is the error of
-- `string.len(nil)`.
unfoldable pub fill_page : List (Option Text) → ℕ → ℕ → Option (List Text)
fill_page [] added len = some []
fill_page (none ∷ items) added len = none
fill_page (some name ∷ items) added len =
    let rest = fill_page items (suc added) (len + length (addition added name)) in
    if ltb 450 (len + length (addition added name)) then some [] else page_cons name rest

-- `table.concat(page_sounds, ", ")`
unfoldable pub concat : ℕ → List Text → Text
concat n [] = []
concat n (name ∷ page) = addition n name ++ concat (suc n) page

-- `math.ceil(#sounds / sounds_added)`
abbrev pub total_pages : ℕ → ℕ → ℕ
total_pages sounds zero = 0
total_pages sounds (suc added) = (sounds + added) / suc added

module _ (lua : Lua) where
  open lua use {Float, Seed, to_number, less, number_text, to_int, random, float_items}

  unfoldable pub page_items : Number Float → List Text → List (Option Text)
  page_items (integer page) sounds = items_from (start_index page) sounds
  page_items (float page) sounds = float_items page sounds

  unfoldable pub page_info : Number Float → ℕ → Text
  page_info page total =
      if ltb 1 total
      then codes " (Page "
        ++ (number_text page ++ (codes "/" ++ (number_text (int lua total) ++ codes ")")))
      else []

  -- The reply to a page that the loop filled.
  unfoldable pub page_reply : Number Float → List Text → List Text → Text
  page_reply page sounds [] =
      codes "Page " ++ (number_text page ++ codes " is empty. Try a lower page number.")
  page_reply page sounds (name ∷ names) =
      codes "Available sounds: "
      ++ (concat 0 (name ∷ names)
          ++ page_info page (total_pages (length sounds) (length (name ∷ names))))

  unfoldable pub show_page :
      Number Float → List Text → Option (List Text) → Session Seed → Ran (Session Seed)
  show_page page sounds none x = raise x
  show_page page sounds (some names) x = done (reply (page_reply page sounds names) x)

  -- `!sfx list`, with what `listAudioFiles` gives.
  unfoldable pub list_sounds : Number Float → Option (List Text) → Session Seed → Ran (Session Seed)
  list_sounds page none x = raise x
  list_sounds page (some []) x =
      done (reply (codes "No sounds found in directory: " ++ sound_dir) x)
  list_sounds page (some (sound ∷ sounds)) x =
      show_page page (sound ∷ sounds)
        (fill_page (page_items page (sound ∷ sounds)) 0 (length (codes "Available sounds: "))) x

  given_or : ℕ → Option (Number Float) → Number Float
  given_or n none = int lua n
  given_or n (some number) = number

  number_or : ℕ → List Text → Number Float
  unfolding given_or
  number_or n [] = int lua n
  number_or n (arg ∷ args) = given_or n (to_number arg)

  -- `page`, from the arguments behind `list`.
  unfoldable pub page_of : List Text → Number Float
  unfolding number_or
  page_of args = number_or 1 args

  abbrev pub min_100 : Number Float → Number Float
  min_100 v = if less v (int lua 100) then v else int lua 100

  abbrev pub max_0 : Number Float → Number Float
  max_0 v = if less (int lua 0) v then v else int lua 0

  -- `math.max(0, math.min(100, volume))`
  unfoldable pub clamped : Number Float → Number Float
  clamped v = max_0 (min_100 v)

  unfoldable pub volume_given : Option (Number Float) → Number Float
  unfolding clamped
  volume_given none = int lua 70
  volume_given (some number) = clamped number

  -- `volume`, from the second argument; the default is its own clamp.
  unfoldable pub volume_of : List Text → Number Float
  unfolding volume_given
  volume_of [] = int lua 70
  volume_of (arg ∷ args) = elim (to_number arg) [ none ↦ int lua 70 | some number ↦ clamped number ]

  module _ (fs : FileSystem) (sound : Sound) (audio : AudioSystem sound.Float) where
    -- The sounds, beside what else a script changes.
    abbrev pub State : Type 0
    State = Session Seed × sound.World

    -- With what `playSound` gives, where `none` is an exception.
    unfoldable pub played : Text → Text → Option Bool × sound.World → Session Seed → Ran State
    played success failure (none, w) x = raise (x, w)
    played success failure (some true, w) x = done (reply success x, w)
    played success failure (some false, w) x = done (reply failure x, w)

    -- A file that was found, or the empty text.
    unfoldable pub play_found :
        Text → Number Float → Text → Text → Text → Session Seed → sound.World → Ran State
    play_found [] volume missing success failure x w = done (reply missing x, w)
    play_found (c ∷ path) volume missing success failure x w =
        played success failure
          (Audio.play_sound fs sound (c ∷ path) (volume_or (to_int volume)) audio w) x

    -- With what `findAudioFile` gives.
    unfoldable pub play_file :
        Option Text → Number Float → Text → Text → Text → Session Seed → sound.World → Ran State
    play_file none volume missing success failure x w = raise (x, w)
    play_file (some path) volume missing success failure x w =
        play_found path volume missing success failure x w

    -- `!sfx <soundname>`
    unfoldable pub play_named : Text → List Text → Session Seed → sound.World → Ran State
    play_named name args x w =
        play_file (find_audio_file fs name sound_dir audio.whitelist) (volume_of args)
          (codes "Sound '" ++ (name ++ codes "' not found. Try !sfx list")) name
          (codes "Failed to play sound: " ++ name) x w

    -- A sound that was picked; nil is an error at `findAudioFile`.
    unfoldable pub play_picked : Option Text → List Text → Session Seed → sound.World → Ran State
    play_picked none args x w = raise (x, w)
    play_picked (some name) args x w =
        play_file (find_audio_file fs name sound_dir audio.whitelist) (volume_of args)
          (codes "Could not find random sound file") (codes "Random sound: " ++ name)
          (codes "Failed to play random sound: " ++ name) x w

    unfoldable pub pick :
        Option ℕ × Seed → List Text → List Text → List Text → sound.World → Ran State
    pick (none, seed) sounds args replies w = raise (record { seed = seed; replies = replies }, w)
    pick (some i, seed) sounds args replies w =
        play_picked (item i sounds) args (record { seed = seed; replies = replies }) w

    -- `!sfx random`, with what `listAudioFiles` gives.
    unfoldable pub play_random :
        Option (List Text) → List Text → Session Seed → sound.World → Ran State
    play_random none args x w = raise (x, w)
    play_random (some []) args x w =
        done (reply (codes "No sounds available for random selection") x, w)
    play_random (some (s ∷ sounds)) args x w =
        pick (random (int lua (length (s ∷ sounds))) x.seed) (s ∷ sounds) args x.replies w

    with_world : sound.World → Ran (Session Seed) → Ran State
    with_world w r = record { state = (r.state, w); raised = r.raised }

    -- `execute`
    unfoldable pub sfx : List Text → Session Seed → sound.World → Ran State
    unfolding with_world
    sfx [] x w = done (reply (codes "Usage: !sfx <sound> | !sfx list | !sfx random") x, w)
    sfx (arg ∷ args) x w =
        let sounds = list_audio_files fs sound_dir audio.whitelist in
        if text_eq (lower arg) (codes "list")
        then with_world w (list_sounds (page_of args) sounds x)
        else if text_eq (lower arg) (codes "random")
        then play_random sounds args x w
        else play_named (lower arg) args x w
