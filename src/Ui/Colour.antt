-- ===== src/Ui/Colour.antt =====
-- src/ui/imgui_manager.cpp: `hexToImVec4`, with `std::stoul` for base 16 and the 64 bits of
-- `unsigned long` on Linux.
pub mod Hex
use seraphbot.Base.{
  ℕ, zero, suc, ◌+◌, ◌-◌, ◌*◌, ◌/◌, ◌%◌, ◌^◌, ◌≤◌, ◌<◌, String, ◌≡◌, refl, sym, ap, ◌∙◌, ◌≢◌, ◌↔◌,
  ◌⊎◌, inl, inr, Bool, true, false, not, ◌&&◌, ◌||◌, Option, none, some, List, [], ◌∷◌, ◌++◌, map,
  append-nil, append_assoc, arith, ltb, leb, ◌==◌, if◌then◌else◌, ==_iff, Bool-cases, Option-cases,
  length, drop, take, length-append, drop-length_append, All, All-append, All-mono, any_of, Text,
  codes, text_eq, text_eq_iff, text_eq_refl, starts_with, starts_with-append, starts_with-split,
  is_empty, to_lower, lower, to_lower_idem, lower_idem, is_space, to_text, ℤ, pos, negsuc, pos_part,
  neg_part, sub_ℕ, ltb_ℤ, clamp, clamp_bounds,
}

-- The components times 255, before they are rounded to `float`.
pub record ImVec4 : Type 0 where
  pub red : ℕ
  pub green : ℕ
  pub blue : ℕ
  pub alpha : ℕ

unfoldable pub hex_digit : ℕ → Option ℕ
hex_digit c =
    if leb b'0' c && leb c b'9'
    then some (c - b'0')
    else if leb b'a' c && leb c b'f'
    then some (c - b'a' + 10)
    else if leb b'A' c && leb c b'F'
    then some (c - b'A' + 10)
    else none

-- The digits up to the first other character, behind digits with the value `n`.
unfoldable pub digits : ℕ → Text → ℕ
digits n [] = n
digits n (c ∷ s) = elim (hex_digit c) [ none ↦ n | some d ↦ digits (n * 16 + d) s ]

-- The number, where there is a digit.
unfoldable pub number : Text → Option ℕ
number [] = none
number (c ∷ s) = elim (hex_digit c) [ none ↦ none | some d ↦ some (digits d s) ]

-- `0x` is a prefix only where a digit follows it; otherwise its zero is the number.
unfoldable pub prefixed : Text → Option ℕ
prefixed (z ∷ x ∷ s) =
    if z == b'0' && (x == b'x' || x == b'X')
    then elim (number s) [ none ↦ some 0 | some n ↦ some n ]
    else number (z ∷ x ∷ s)
prefixed s = number s

unfoldable pub map_option : {A B : Type 0} → (A → B) → Option A → Option B
map_option f none = none
map_option f (some a) = some (f a)

-- A minus sign negates in 64 bits.
unfoldable pub signed : Text → Option ℕ
signed [] = none
signed (c ∷ s) =
    if c == b'-'
    then map_option (λ n. (2 ^ 64 - n) % 2 ^ 64) (prefixed s)
    else if c == b'+'
    then prefixed s
    else prefixed (c ∷ s)

-- `std::stoul(s, nullptr, 16)` of at most six characters, so never out of range. `none` is
-- `std::invalid_argument`.
unfoldable pub stoul : Text → Option ℕ
stoul [] = none
stoul (c ∷ s) = let rest = stoul s in if is_space c then rest else signed (c ∷ s)

-- `hex.at(0) != '#'`
unfoldable pub has_hash : Text → Bool
has_hash [] = false
has_hash (c ∷ s) = c == b'#'

unfoldable pub colour_of : ℕ → ℕ → ImVec4
colour_of v alpha = record {
  red = (v / 65536) % 256;
  green = (v / 256) % 256;
  blue = v % 256;
  alpha = alpha;
}

unfoldable pub hex_to_im_vec4 : Text → Option ImVec4
hex_to_im_vec4 hex =
    if ltb (length hex) 7 || not (has_hash hex)
    then some (record { red = 0; green = 0; blue = 0; alpha = 255 })
    else elim (stoul (take 6 (drop 1 hex))) [
      | none ↦ none
      | some v ↦
          if ltb (length hex) 9
          then some (colour_of v 255)
          else map_option (colour_of v) (stoul (take 2 (drop 7 hex)))
    ]
