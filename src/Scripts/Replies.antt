-- ===== src/Scripts/Replies.antt =====
-- src/commands: how the scripts answer.
use seraphbot.Base.{ℕ, ◌≡◌, refl, Bool, true, false, Option, none, some, List, [], ◌∷◌, ◌++◌, Text}
use seraphbot.Scripts.{
  jokes, Lua, Number, Session, Ran, item, dice, dice_reply, dice_sides, flip, flip_reply, hello,
  special, modcmd, joke_reply, tell_joke, vipjoke,
}

-- How a run ends: with an error, and no reply, or with one reply more.
abbrev pub EndsWithReply : Bool → List Text → List Text → Type 0
EndsWithReply true before after = after ≡ before
EndsWithReply false before after = (s : Text) × (after ≡ before ++ (s ∷ []))

module _ (lua : Lua) where
  abbrev pub Answers : Session lua.Seed → Ran (Session lua.Seed) → Type 0
  Answers x r = EndsWithReply r.raised x.replies r.state.replies

  dice_reply-Answers :
      (user : Text) (sides : Number lua.Float) (r : Option ℕ × lua.Seed) (x : Session lua.Seed)
      → Answers x (dice_reply lua user sides r x.replies)
  unfolding dice_reply
  dice_reply-Answers user sides (none, seed) x = refl
  dice_reply-Answers user sides (some result, seed) x = (_, refl)

  pub dice-Answers :
      (user : Text) (args : List Text) (x : Session lua.Seed) → Answers x (dice lua user args x)
  unfolding dice
  dice-Answers user args x = dice_reply-Answers user (dice_sides lua args) _ x

  flip_reply-Answers :
      (r : Option ℕ × lua.Seed) (x : Session lua.Seed) → Answers x (flip_reply lua r x.replies)
  unfolding flip_reply
  flip_reply-Answers (none, seed) x = refl
  flip_reply-Answers (some result, seed) x = (_, refl)

  pub flip-Answers : (x : Session lua.Seed) → Answers x (flip lua x)
  unfolding flip
  flip-Answers x = flip_reply-Answers _ x

  pub hello-Answers :
      (user : Text) (args : List Text) (x : Session lua.Seed) → Answers x (hello lua user args x)
  unfolding hello
  hello-Answers user [] x = (_, refl)
  hello-Answers user (arg ∷ args) x = (_, refl)

  pub special-Answers : (user : Text) (x : Session lua.Seed) → Answers x (special lua user x)
  unfolding special
  special-Answers user x = (_, refl)

  pub modcmd-Answers : (user : Text) (x : Session lua.Seed) → Answers x (modcmd lua user x)
  unfolding modcmd
  modcmd-Answers user x = (_, refl)

  joke_reply-Answers :
      (joke : Option Text) (x : Session lua.Seed) → Answers x (joke_reply lua joke x)
  unfolding joke_reply
  joke_reply-Answers none x = refl
  joke_reply-Answers (some joke) x = (_, refl)

  tell_joke-Answers :
      (r : Option ℕ × lua.Seed) (x : Session lua.Seed) → Answers x (tell_joke lua r x.replies)
  unfolding tell_joke
  tell_joke-Answers (none, seed) x = refl
  tell_joke-Answers (some i, seed) x =
      joke_reply-Answers (item i (jokes lua)) (record x { seed = seed })

  pub vipjoke-Answers : (x : Session lua.Seed) → Answers x (vipjoke lua x)
  unfolding vipjoke
  vipjoke-Answers x = tell_joke-Answers _ x
