-- ===== src/Scripts.antt =====
-- src/commands: the scripts of the bot's commands. The interpreter is the record Lua; what it calls
-- of include/seraphbot/core/lua_command_engine.hpp is in LuaContext and in Audio.
pub mod Sfx
pub mod Paging
pub mod Sounds
pub mod Rolling
pub mod Replies
pub mod Hosting
use seraphbot.Base.{
  ℕ, zero, suc, ◌+◌, ◌-◌, ◌*◌, ◌/◌, ◌%◌, ◌^◌, ◌≤◌, ◌<◌, String, ◌≡◌, refl, sym, ap, ◌∙◌, ◌≢◌, ◌↔◌,
  ◌⊎◌, inl, inr, Bool, true, false, not, ◌&&◌, ◌||◌, Option, none, some, List, [], ◌∷◌, ◌++◌, map,
  append-nil, append_assoc, arith, ltb, leb, ◌==◌, if◌then◌else◌, ==_iff, Bool-cases, Option-cases,
  length, drop, take, length-append, drop-length_append, All, All-append, All-mono, any_of, Text,
  codes, text_eq, text_eq_iff, text_eq_refl, starts_with, starts_with-append, starts_with-split,
  is_empty, to_lower, lower, to_lower_idem, lower_idem, is_space, to_text, ℤ, pos, negsuc, pos_part,
  neg_part, sub_ℕ, ltb_ℤ, clamp, clamp_bounds,
}

-- A number of Lua; an integer has 64 bits.
pub data Number (Float : Type 0) : Type 0 where
  integer : ℤ → Number Float
  float : Float → Number Float

pub record Lua : Type 1 where
  pub Float : Type 0
  -- The state of `math.random`.
  pub Seed : Type 0
  -- `tonumber`, `<`, and what `..` makes of a number
  pub to_number : Text → Option (Number Float)
  pub less : Number Float → Number Float → Bool
  pub number_text : Number Float → Text
  -- What sol2 makes of a number where C++ takes an optional `int`.
  pub to_int : Number Float → Option ℤ
  -- `math.random(n)`; `none` is the error at a number that is no integer, or has an empty interval.
  pub random : Number Float → Seed → Option ℕ × Seed
  -- What `sounds[i]` gives as `i` goes from `(page - 1) * 15 + 1` up, for a page that is a float.
  pub float_items : Float → List Text → List (Option Text)

-- What a script changes outside of the sounds: the random numbers, and the replies in their order.
pub record Session (Seed : Type 0) : Type 0 where
  pub seed : Seed
  pub replies : List Text

-- How a script ends: `raised` is an error of Lua, also one that sol2 makes of an exception.
pub record Ran (State : Type 0) : Type 0 where
  pub state : State
  pub raised : Bool

abbrev pub done : {State : Type 0} → State → Ran State
done s = record { state = s; raised = false }

abbrev pub raise : {State : Type 0} → State → Ran State
raise s = record { state = s; raised = true }

-- `ctx:reply`
abbrev pub reply : {Seed : Type 0} → Text → Session Seed → Session Seed
reply s x = record x { replies = x.replies ++ (s ∷ []) }

-- `sounds[i]` and the like, for an integer.
abbrev pub item : ℕ → List Text → Option Text
item zero xs = none
item (suc n) [] = none
item (suc zero) (x ∷ xs) = some x
item (suc (suc n)) (x ∷ xs) = item (suc n) xs

module _ (lua : Lua) where
  open lua use {Float, Seed, to_number, less, number_text, random}

  abbrev pub int : ℕ → Number Float
  int n = integer (pos n)

  -- dice.lua
  unfoldable pub sides_of : Option (Number Float) → Number Float
  sides_of none = int 6
  sides_of (some input) = if less (int 1) input && not (less (int 100) input) then input else int 6

  unfoldable pub dice_sides : List Text → Number Float
  unfolding sides_of
  dice_sides [] = int 6
  dice_sides (arg ∷ args) = sides_of (to_number arg)

  unfoldable pub dice_reply : Text → Number Float → Option ℕ × Seed → List Text → Ran (Session Seed)
  dice_reply user sides (none, seed) replies = raise (record { seed = seed; replies = replies })
  dice_reply user sides (some result, seed) replies = done (
      reply
        ((240 ∷ 159 ∷ 142 ∷ 178 ∷ codes " ")
          ++ (user
              ++ (codes " rolled a "
                  ++ (number_text (int result)
                      ++ (codes " (1-" ++ (number_text sides ++ codes ")"))))))
        (record { seed = seed; replies = replies }))

  unfoldable pub dice : Text → List Text → Session Seed → Ran (Session Seed)
  dice user args x = dice_reply user (dice_sides args) (random (dice_sides args) x.seed) x.replies

  -- flip.lua
  unfoldable pub flip_reply : Option ℕ × Seed → List Text → Ran (Session Seed)
  flip_reply (none, seed) replies = raise (record { seed = seed; replies = replies })
  flip_reply (some result, seed) replies = done (
      reply
        ((240 ∷ 159 ∷ 170 ∷ 153 ∷ codes " ")
          ++ ((if result == 1 then codes "Heads" else codes "Tails") ++ codes "!"))
        (record { seed = seed; replies = replies }))

  unfoldable pub flip : Session Seed → Ran (Session Seed)
  flip x = flip_reply (random (int 2) x.seed) x.replies

  -- hello.lua
  unfoldable pub hello : Text → List Text → Session Seed → Ran (Session Seed)
  hello user [] x = done (reply (codes "Hello " ++ (user ++ codes "!")) x)
  hello user (arg ∷ args) x = done (reply (codes "Hello " ++ (arg ++ codes "!")) x)

  -- limited.lua
  unfoldable pub special : Text → Session Seed → Ran (Session Seed)
  special user x = done (
      reply
        ((240 ∷ 159 ∷ 142 ∷ 137 ∷ codes " Special subscriber command activated by ")
          ++ (user ++ codes "!"))
        x)

  -- modcmd.lua
  unfoldable pub modcmd : Text → Session Seed → Ran (Session Seed)
  modcmd user x = done (reply (codes "This is a moderator-only command executed by " ++ user) x)

  -- vip_joke.lua
  abbrev pub jokes : List Text
  jokes =
      codes "Why do VIPs never get lost? Because they always have priority directions!"
      ∷ codes "What did the VIP say to the regular viewer? 'Thanks for the support!'"
      ∷ codes "Why are VIPs like good code? They're both well-structured and valuable!"
      ∷ []

  unfoldable pub joke_reply : Option Text → Session Seed → Ran (Session Seed)
  joke_reply none x = raise x
  joke_reply (some joke) x = done (reply ((240 ∷ 159 ∷ 140 ∷ 159 ∷ codes " ") ++ joke) x)

  unfoldable pub tell_joke : Option ℕ × Seed → List Text → Ran (Session Seed)
  unfolding joke_reply
  tell_joke (none, seed) replies = raise (record { seed = seed; replies = replies })
  tell_joke (some i, seed) replies =
      joke_reply (item i jokes) (record { seed = seed; replies = replies })

  unfoldable pub vipjoke : Session Seed → Ran (Session Seed)
  vipjoke x = tell_joke (random (int 3) x.seed) x.replies
