-- ===== src/CommandParser.antt =====
-- src/core/command_parser.cpp and include/seraphbot/core/command_parser.hpp.
-- A handler is a value of any type `H`, which says whether it can be called (`std::function` may
-- be null), and running it is an argument, so that the application and the script engine can
-- bring their own handlers.
pub mod Tokenizer
pub mod Tokens
pub mod Words
pub mod Quoting
pub mod Registry
pub mod Dispatch
pub mod Joining
use seraphbot.Base.{
  ℕ, zero, suc, ◌+◌, ◌-◌, ◌*◌, ◌/◌, ◌%◌, ◌^◌, ◌≤◌, ◌<◌, String, ◌≡◌, refl, sym, ap, ◌∙◌, ◌≢◌, ◌↔◌,
  ◌⊎◌, inl, inr, Bool, true, false, not, ◌&&◌, ◌||◌, Option, none, some, List, [], ◌∷◌, ◌++◌, map,
  append-nil, append_assoc, arith, ltb, leb, ◌==◌, if◌then◌else◌, ==_iff, Bool-cases, Option-cases,
  length, drop, take, length-append, drop-length_append, All, All-append, All-mono, any_of, Text,
  codes, text_eq, text_eq_iff, text_eq_refl, starts_with, starts_with-append, starts_with-split,
  is_empty, to_lower, lower, to_lower_idem, lower_idem, is_space, to_text, ℤ, pos, negsuc, pos_part,
  neg_part, sub_ℕ, ltb_ℤ, clamp, clamp_bounds,
}
use seraphbot.Base.Dict
use seraphbot.Base.Dict.{Dict}
use seraphbot.Chat.{ChatMessage}
use Tokenizer.{tokenize}

-- The reply function of a `CommandContext` is kept apart: whoever runs a handler says what a
-- reply does.
pub record CommandContext : Type 0 where
  pub message : ChatMessage
  pub command : Text
  pub args : List Text

-- The loop of `joinArgs` from index `i`, over the arguments from `i` on. `first` is `i == start`.
unfoldable pub join_from : Bool → Text → List Text → Text
join_from first result [] = result
join_from first result (arg ∷ rest) =
    join_from false ((if first then result else result ++ codes " ") ++ arg) rest

unfoldable pub join_args : CommandContext → ℕ → Text
unfolding join_from
join_args ctx start_index = join_from true [] (drop start_index ctx.args)

-- How a handler ends: it returns, or it throws a `std::exception`.
pub data HandlerEnd : Type 0 where
  returned thrown : HandlerEnd

unfoldable pub has_returned : HandlerEnd → Bool
has_returned returned = true
has_returned thrown = false

pub record CommandParser (H : Type 0) : Type 0 where
  pub prefix : Text
  pub commands : Dict H

-- `tokens[0]`, and the tokens behind it.
split_command : List Text → Text × List Text
split_command [] = ([], [])
split_command (command ∷ args) = (command, args)

unfoldable pub new_parser : (H : Type 0) → CommandParser H
new_parser H = record { prefix = codes "!"; commands = [] }

module _ {H : Type 0} where
  unfoldable pub register_command : (H → Bool) → Text → H → CommandParser H → CommandParser H
  register_command callable name handler p =
      if is_empty name
      then p
      else if not (callable handler)
      then p
      else record p { commands = Dict.insert (lower name) handler p.commands }

  unfoldable pub is_command : CommandParser H → Text → Bool
  is_command p text = not (is_empty text) && starts_with text p.prefix

  unfoldable pub parse_command : CommandParser H → Text → Text × List Text
  unfolding split_command
  parse_command p text =
      if not (is_command p text)
      then ([], [])
      else split_command (tokenize (drop (length p.prefix) text))

module _ {H W : Type 0} (run : H → CommandContext → W → HandlerEnd × W) where
  -- The `try` block: an exception of the handler becomes `false`.
  unfoldable pub execute : Option H → CommandContext → W → Bool × W
  execute none ctx w = (false, w)
  execute (some handler) ctx w = let (end, w') = run handler ctx w in (has_returned end, w')

  unfoldable pub parse_and_execute : CommandParser H → ChatMessage → W → Bool × W
  unfolding execute has_returned
  parse_and_execute p message w =
      let (command, args) = parse_command p message.text in
      if not (is_command p message.text)
      then (false, w)
      else if is_empty command
      then (false, w)
      else execute (Dict.lookup (lower command) p.commands)
          (record { message = message; command = command; args = args }) w
