-- ===== src/Tests/Scripts.antt =====
-- Runs of the scripts, in an interpreter where a text is the number of its characters and the
-- random number is always one.
use seraphbot.Base.{
  ℕ, suc, ◌+◌, ◌*◌, ◌≤◌, ◌<◌, ◌≡◌, refl, sym, ap, ◌⊎◌, Bool, true, false, Option, some, List, [],
  ◌∷◌, ◌++◌, arith, length, drop, take, Text, codes, text_eq, ℤ, pos, ltb_ℤ, clamp,
}
use seraphbot.Audio.{AudioSystem}
use seraphbot.Base.Dict
use seraphbot.LuaEngine.{LuaEngine, new_engine, handle}
use seraphbot.Metadata.{CommandMetadata, default_metadata}
use seraphbot.Scripts.Hosting.{scripted, RepliesOnce, handle_replies, dice_script}
use seraphbot.Tests.Worlds.{log_host, context_of}
use seraphbot.Scripts.{reply, Lua, Number, integer, float, Session, raise, done, dice, int}
use seraphbot.Scripts.Sfx.{volume_of, list_sounds, page_reply, concat}
use seraphbot.Scripts.Sounds.{volume_of-clamp_volume}
use seraphbot.Scripts.Paging.{list_sounds_page, list_sounds_low}
use seraphbot.Scripts.Rolling.{AsksFor, roll_text, dice_rolls}
use seraphbot.Tests.Worlds.{plain_files, counting}

less : Number ℕ → Number ℕ → Bool
less (integer a) (integer b) = ltb_ℤ a b
less (integer a) (float y) = false
less (float x) b = false

-- One, out of any interval.
one : Number ℕ → ℕ → Option ℕ × ℕ
one n seed = (some 1, suc seed)

abbrev lua : Lua
lua = record {
  Float = ℕ;
  Seed = ℕ;
  to_number = λ s. some (integer (pos (length s)));
  less = less;
  number_text = λ n. codes "1";
  to_int = λ n. some (pos 70);
  random = one;
  float_items = λ x sounds. [];
}

less_int : (a b : ℤ) → less (integer a) (integer b) ≡ ltb_ℤ a b
unfolding less
less_int a b = refl

one_random :
    (n seed : ℕ)
    → 1 ≤ n
    → (r : ℕ) × (next : ℕ) × (one (int lua n) seed ≡ (some r, next)) × (1 ≤ r) × (r ≤ n)
unfolding one
one_random n seed h = (1, suc seed, refl, omega arith, h)

abbrev session : Session ℕ
session = record { seed = 0; replies = codes "before" ∷ [] }

abbrev audio : AudioSystem ℕ
audio = record {
  whitelist = codes "/s/" ∷ [];
  player = record { engine = true; master_volume = 70; initialized = true };
}

volume_of-clamp_volume_example : volume_of lua (codes "seven77" ∷ []) ≡ int lua 7
unfolding clamp
volume_of-clamp_volume_example =
    volume_of-clamp_volume lua (codes "seven77") [] (pos 7) less_int refl

abbrev two_sounds : List Text
two_sounds = codes "horn" ∷ codes "bell" ∷ []

list_sounds_page_example :
    let from = drop (15 * 0) two_sounds in
    (k : ℕ) × (list_sounds lua (integer (pos 1)) (some two_sounds) session
      ≡ done (reply (page_reply lua (integer (pos 1)) two_sounds (take k from)) session))
    × (length (codes "Available sounds: ") + length (concat 0 (take k from)) ≤ 450)
    × ((k ≡ length from)
        ⊎ (450 < length (codes "Available sounds: ") + length (concat 0 (take (suc k) from))))
list_sounds_page_example =
    list_sounds_page lua 0 (codes "horn") (codes "bell" ∷ []) session (omega arith)

list_sounds_low_example :
    list_sounds lua (integer (pos 0)) (some two_sounds) session ≡ raise session
list_sounds_low_example =
    list_sounds_low lua (pos 0) (codes "horn") (codes "bell" ∷ []) session refl (omega arith)

dice_rolls_example :
    (sides : ℕ) × (result : ℕ) × (next : ℕ) × AsksFor (pos 20) sides
    × (lua.random (int lua sides) session.seed ≡ (some result, next))
    × (1 ≤ result)
    × (result ≤ sides)
    × (dice lua (codes "Ann") (codes "twenty characters 20" ∷ []) session
        ≡ done (record {
          seed = next;
          replies = session.replies ++ (roll_text lua (codes "Ann") result sides ∷ []);
        }))
dice_rolls_example =
    dice_rolls lua (codes "Ann") (codes "twenty characters 20") [] (pos 20) session one_random
      less_int refl

abbrev dice_meta : CommandMetadata
dice_meta = record default_metadata { name = codes "dice" }

-- The dice, loaded.
abbrev dice_engine : LuaEngine
dice_engine = record new_engine { command_metadata = (codes "dice", dice_meta) ∷ [] }

dice_on :
    (meta : CommandMetadata)
    → Dict.lookup (codes "dice") dice_engine.command_metadata ≡ some meta
    → meta.enabled ≡ true
unfolding Dict.lookup text_eq
dice_on meta h =
    let same : dice_meta ≡ meta = cc h in ap (λ (m : CommandMetadata). m.enabled) (sym same)

handle_replies_example :
    RepliesOnce lua plain_files counting audio log_host
      (λ t key. some dice_script)
      ([], session, 0)
      (handle
        (scripted lua plain_files counting audio log_host (λ t key. some dice_script))
        (record { execute_func = dice_script; command_name = codes "dice" })
        (context_of (codes "Ann") [])
        dice_engine
        ([], session, 0)).1
handle_replies_example =
    handle_replies lua plain_files counting audio log_host (λ t key. some dice_script)
      (record { execute_func = dice_script; command_name = codes "dice" })
      (context_of (codes "Ann") []) dice_engine ([], session, 0) dice_on
