-- ===== src/Scripts/Sounds.antt =====
-- src/commands/sfx.lua: the sounds that `!sfx` plays, and their volume.
use seraphbot.Base.{
  ℕ, ◌≡◌, refl, sym, ap, ◌∙◌, inl, inr, Bool, true, false, Option, none, some, List, [], ◌∷◌, arith,
  if◌then◌else◌, Bool-cases, Text, codes, text_eq, lower, ℤ, pos, negsuc, ltb_ℤ, clamp,
}
use seraphbot.Audio.{AudioSystem, clamp_volume}
use seraphbot.Audio.Player.{Sound}
use seraphbot.FileSystem.{FileSystem}
use seraphbot.Scripts.{Lua, Number, integer, Session, Ran, item, int}
use seraphbot.Scripts.Sfx.{
  volume_given, pick, show_page, list_sounds, sfx, volume_of, clamped, State, played, play_found,
  play_file, play_named, play_picked, play_random,
}
use seraphbot.Scripts.Replies.{EndsWithReply}

module _ (lua : Lua) where
  clamp_volume_positive :
      (v : ℤ) → ltb_ℤ v (pos 100) ≡ true → ltb_ℤ (pos 0) v ≡ true → pos (clamp_volume v) ≡ v
  unfolding clamp
  clamp_volume_positive (pos n) h e = ground arith
  clamp_volume_positive (negsuc n) h e = ground arith

  clamp_volume_zero : (v : ℤ) → ltb_ℤ (pos 0) v ≡ false → clamp_volume v ≡ 0
  unfolding clamp
  clamp_volume_zero v e = ground arith

  above_0 :
      (v : ℤ)
      → ltb_ℤ v (pos 100) ≡ true
      → (if ltb_ℤ (pos 0) v then integer v else int lua 0) ≡ int lua (clamp_volume v)
  above_0 v h = elim (Bool-cases (ltb_ℤ (pos 0) v)) [
    | inl e ↦ rw e (ap integer (sym (clamp_volume_positive v h e)))
    | inr e ↦ rw e (ap (int lua) (sym (clamp_volume_zero v e)))
  ]

  clamp_volume_large : (v : ℤ) → ltb_ℤ v (pos 100) ≡ false → clamp_volume v ≡ 100
  unfolding clamp
  clamp_volume_large v h = ground arith

  clamped-integer :
      (v : ℤ)
      → ((a b : ℤ) → lua.less (integer a) (integer b) ≡ ltb_ℤ a b)
      → clamped lua (integer v) ≡ int lua (clamp_volume v)
  unfolding clamped
  clamped-integer v law = elim (Bool-cases (ltb_ℤ v (pos 100))) [
    | inl e ↦ rw (law v (pos 100), e, law (pos 0) v) (above_0 v e)
    | inr e ↦
        rw (law v (pos 100), e, law (pos 0) (pos 100)) (ap (int lua) (sym (clamp_volume_large v e)))
  ]

  -- For a volume that is an integer, the script gives what `AudioSystem` makes of it.
  pub volume_of-clamp_volume :
      (arg : Text) (args : List Text) (v : ℤ)
      → ((a b : ℤ) → lua.less (integer a) (integer b) ≡ ltb_ℤ a b)
      → lua.to_number arg ≡ some (integer v)
      → volume_of lua (arg ∷ args) ≡ int lua (clamp_volume v)
  unfolding volume_of volume_given
  volume_of-clamp_volume arg args v law e = ap (volume_given lua) e ∙ clamped-integer v law

  module _ (fs : FileSystem) (sound : Sound) (audio : AudioSystem sound.Float) where
    abbrev pub Answered : List Text → Ran (State lua fs sound audio) → Type 0
    Answered before r = EndsWithReply r.raised before r.state.0.replies

    played-Answered :
        (success failure : Text) (r : Option Bool × sound.World) (x : Session lua.Seed)
        → Answered x.replies (played lua fs sound audio success failure r x)
    unfolding played
    played-Answered success failure (none, w) x = refl
    played-Answered success failure (some true, w) x = (success, refl)
    played-Answered success failure (some false, w) x = (failure, refl)

    play_file-Answered :
        (file : Option Text) (volume : Number lua.Float) (missing success failure : Text)
        (x : Session lua.Seed) (w : sound.World)
        → Answered x.replies (play_file lua fs sound audio file volume missing success failure x w)
    unfolding play_file play_found
    play_file-Answered none volume missing success failure x w = refl
    play_file-Answered (some []) volume missing success failure x w = (missing, refl)
    play_file-Answered (some (c ∷ path)) volume missing success failure x w =
        played-Answered success failure _ x

    play_picked-Answered :
        (name : Option Text) (args : List Text) (x : Session lua.Seed) (w : sound.World)
        → Answered x.replies (play_picked lua fs sound audio name args x w)
    unfolding play_picked
    play_picked-Answered none args x w = refl
    play_picked-Answered (some name) args x w = play_file-Answered _ _ _ _ _ x w

    pick-Answered :
        (r : Option ℕ × lua.Seed) (sounds args : List Text) (replies : List Text) (w : sound.World)
        → Answered replies (pick lua fs sound audio r sounds args replies w)
    unfolding pick
    pick-Answered (none, seed) sounds args replies w = refl
    pick-Answered (some i, seed) sounds args replies w =
        play_picked-Answered (item i sounds) args _ w

    play_random-Answered :
        (o : Option (List Text)) (args : List Text) (x : Session lua.Seed) (w : sound.World)
        → Answered x.replies (play_random lua fs sound audio o args x w)
    unfolding play_random
    play_random-Answered none args x w = refl
    play_random-Answered (some []) args x w = (_, refl)
    play_random-Answered (some (s ∷ sounds)) args x w =
        pick-Answered _ (s ∷ sounds) args x.replies w

    show_page-Answered :
        (page : Number lua.Float) (sounds : List Text) (o : Option (List Text))
        (x : Session lua.Seed)
        → EndsWithReply
            (show_page lua page sounds o x).raised
            x.replies
            (show_page lua page sounds o x).state.replies
    unfolding show_page
    show_page-Answered page sounds none x = refl
    show_page-Answered page sounds (some names) x = (_, refl)

    list_sounds-Answered :
        (page : Number lua.Float) (o : Option (List Text)) (x : Session lua.Seed)
        → EndsWithReply
            (list_sounds lua page o x).raised
            x.replies
            (list_sounds lua page o x).state.replies
    unfolding list_sounds
    list_sounds-Answered page none x = refl
    list_sounds-Answered page (some []) x = (_, refl)
    list_sounds-Answered page (some (s ∷ sounds)) x = show_page-Answered page (s ∷ sounds) _ x

    -- Whatever the arguments: `!sfx` replies once, behind all replies before, unless it ends with an
    -- error; then it replies nothing.
    pub sfx_answers :
        (args : List Text) (x : Session lua.Seed) (w : sound.World)
        → Answered x.replies (sfx lua fs sound audio args x w)
    unfolding sfx play_named
    sfx_answers [] x w = (_, refl)
    sfx_answers (arg ∷ args) x w = elim (Bool-cases (text_eq (lower arg) (codes "list"))) [
      | inl e ↦ rw e (list_sounds-Answered _ _ x)
      | inr e ↦ elim (Bool-cases (text_eq (lower arg) (codes "random"))) [
        | inl f ↦ rw (e, f) (play_random-Answered _ args x w)
        | inr f ↦ rw (e, f) (play_file-Answered _ _ _ _ _ x w)
      ]
    ]
