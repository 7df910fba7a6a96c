-- ===== src/FileSystem.antt =====
-- What the audio code takes from `std::filesystem`. A path is the text that `string()` gives for
-- it. `none` is an exception.
use seraphbot.Base.{Bool, Option, List, Text}

pub record FileSystem : Type 0 where
  -- `weakly_canonical`, `exists`, `is_directory` and `is_regular_file`
  pub canonical : Text → Option Text
  pub exists : Text → Option Bool
  pub is_directory : Text → Option Bool
  pub is_regular_file : Text → Option Bool
  -- The entries that a `directory_iterator` gives, each with what its `is_regular_file()` gives,
  -- and whether the iteration comes to its end.
  pub entries : Text → List (Text × Option Bool) × Bool
  -- `parent_path()`, `stem()` and `extension()`, and `operator/`
  pub parent_path : Text → Text
  pub stem : Text → Text
  pub extension : Text → Text
  pub join : Text → Text → Text
