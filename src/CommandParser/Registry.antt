-- ===== src/CommandParser/Registry.antt =====
-- Proofs about `registerCommand`: which handler a name finds.
use seraphbot.Base.{
  ◌≡◌, ◌⊎◌, Bool, true, false, some, arith, if◌then◌else◌, Text, text_eq, is_empty, lower,
}
use seraphbot.Base.Dict
use seraphbot.Base.Dict.{Dict}
use seraphbot.CommandParser.{CommandParser, register_command}

module _ {H : Type 0} (callable : H → Bool) where
  -- After a name that is not empty is registered with a handler that can be called, every spelling
  -- of that name in upper and lower case finds the handler, and every other name finds what it
  -- found before.
  pub lookup-register_command :
      (p : CommandParser H) (name other : Text) (handler : H)
      → is_empty name ≡ false
      → callable handler ≡ true
      → Dict.lookup (lower other) (register_command callable name handler p).commands ≡ (
          if text_eq (lower name) (lower other)
          then some handler
          else Dict.lookup (lower other) p.commands)
  unfolding register_command
  lookup-register_command p name other handler named can =
      rw (named, can) (Dict.lookup-insert _ _ _ _)

  -- An empty name or a handler that cannot be called changes nothing.
  pub register_command_refused :
      (p : CommandParser H) (name : Text) (handler : H)
      → (is_empty name ≡ true) ⊎ (callable handler ≡ false)
      → register_command callable name handler p ≡ p
  unfolding register_command
  register_command_refused p name handler h = ground arith

  -- The prefix is never changed.
  pub register_command-prefix :
      (p : CommandParser H) (name : Text) (handler : H)
      → (register_command callable name handler p).prefix ≡ p.prefix
  unfolding register_command
  register_command-prefix p name handler = ground arith
