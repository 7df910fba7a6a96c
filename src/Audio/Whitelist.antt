-- ===== src/Audio/Whitelist.antt =====
-- `DirectoryWhitelist` of src/core/audio_system.cpp. The set of paths is the list of those added.
use seraphbot.Base.{
  ℕ, Bool, false, Option, none, some, List, [], ◌∷◌, map, ◌==◌, if◌then◌else◌, any_of, Text, codes,
  text_eq, starts_with,
}
use seraphbot.FileSystem.{FileSystem}

abbrev pub DirectoryWhitelist : Type 0
DirectoryWhitelist = List Text

abbrev pub slash : ℕ
slash = 47

abbrev pub backslash : ℕ
backslash = 92

unfoldable pub to_slash : ℕ → ℕ
to_slash c = if c == backslash then slash else c

-- The slash at the end, unless the text is empty or has one.
unfoldable pub close_path : Text → Text
close_path [] = []
close_path (c ∷ []) = if c == slash then c ∷ [] else c ∷ slash ∷ []
close_path (c ∷ d ∷ s) = c ∷ close_path (d ∷ s)

unfoldable pub normalize_path : Text → Text
normalize_path path = close_path (map to_slash path)

-- `insert` of the set
unfoldable pub insert_path : Text → DirectoryWhitelist → DirectoryWhitelist
insert_path path paths = if any_of (λ p. text_eq p path) paths then paths else path ∷ paths

-- What follows `weakly_canonical`.
unfoldable pub add_canonical : Option Text → DirectoryWhitelist → DirectoryWhitelist
add_canonical none paths = paths
add_canonical (some canonical) paths = insert_path (normalize_path canonical) paths

unfoldable pub canonical_allowed : Option Text → DirectoryWhitelist → Bool
canonical_allowed none paths = false
canonical_allowed (some canonical) paths = any_of (starts_with (normalize_path canonical)) paths

module _ (fs : FileSystem) where
  unfoldable pub add_whitelisted_directory : Text → DirectoryWhitelist → DirectoryWhitelist
  add_whitelisted_directory directory = add_canonical (fs.canonical directory)

  unfoldable pub new_whitelist : DirectoryWhitelist
  new_whitelist = add_whitelisted_directory (codes "./sfx") (
      add_whitelisted_directory (codes "./audio") (add_whitelisted_directory (codes "./sounds") []))

  unfoldable pub is_path_allowed : Text → DirectoryWhitelist → Bool
  is_path_allowed path = canonical_allowed (fs.canonical path)

-- `getWhitelistedDirectories`
abbrev pub get_whitelisted_directories : DirectoryWhitelist → List Text
get_whitelisted_directories paths = paths
