-- ===== src/LuaHost.antt =====
-- What the script engine takes from outside the program: the Lua interpreter behind sol2, the file
-- system, the steady clock, and the reply function of a chat command. `World` is all of their
-- state; a script that runs may change it.
use seraphbot.Base.{ℕ, Bool, Option, List, Text, ℤ}
use seraphbot.CommandParser.{CommandContext}

-- How `script_file` ends: an exception, an invalid result, a value that is no table, or a table.
pub data Script (Table : Type 0) : Type 0 where
  raised invalid other : Script Table
  table : Table → Script Table

-- How the call of a Lua function ends.
pub data CallEnd : Type 0 where
  valid_call invalid_call raised_call : CallEnd

-- An entry of a directory.
pub record DirectoryEntry : Type 0 where
  pub path : Text
  pub is_regular_file : Bool
  pub extension : Text

pub record Host : Type 1 where
  pub World : Type 0
  pub Table : Type 0
  pub Function : Type 0
  -- The file system. A directory is listed up to the entry at which the iteration throws.
  pub exists : Text → World → Bool
  pub is_directory : Text → World → Bool
  pub entries : Text → World → List DirectoryEntry
  -- The interpreter.
  pub script_file : Text → World → Script Table × World
  pub call : Function → CommandContext → World → CallEnd × World
  -- Tables. A `has` is `table[key].valid()`. A value of another type is `none`, at which `get_or`
  -- takes its default and a conversion throws.
  pub has : Table → Text → Bool
  pub string_at : Table → Text → Option Text
  pub int_at : Table → Text → Option ℤ
  pub bool_at : Table → Text → Option Bool
  pub table_at : Table → Text → Option Table
  pub function_at : Table → Text → Option Function
  pub size : Table → ℕ
  pub has_item : Table → ℕ → Bool
  pub string_item : Table → ℕ → Option Text
  pub now : World → ℕ
  pub reply : Text → World → World
