-- ===== src/Discord/Placeholder.antt =====
-- `std::regex_replace` of a pattern without special characters, as src/discord/notifications.cpp
-- uses it.
use seraphbot.Base.{ℕ, zero, suc, ◌-◌, [], ◌∷◌, ◌++◌, if◌then◌else◌, length, Text, starts_with}

-- From the left; `skip` characters of a match are still to be passed over.
unfoldable pub replace_from : Text → Text → ℕ → Text → Text
replace_from pattern by skip [] = []
replace_from pattern by (suc skip) (c ∷ s) = replace_from pattern by skip s
replace_from pattern by zero (c ∷ s) =
    let hit = starts_with (c ∷ s) pattern in
    (if hit then by else c ∷ [])
    ++ replace_from pattern by (if hit then length pattern - 1 else 0) s

unfoldable pub replace_all : Text → Text → Text → Text
replace_all pattern by s = replace_from pattern by 0 s
