-- ===== src/Ui/Colour/Hex.antt =====
-- Proofs about colours: what a printed colour is read as.
use seraphbot.Base.{
  ℕ, ◌+◌, ◌-◌, ◌*◌, ◌/◌, ◌%◌, ◌^◌, ◌<◌, ◌≡◌, refl, ap, ◌∙◌, false, some, [], ◌∷◌, ◌++◌, arith, ltb,
  ◌==◌, if◌then◌else◌, Text, is_space,
}
use seraphbot.Ui.Colour.{
  prefixed, digits, number, signed, hex_digit, stoul, has_hash, colour_of, hex_to_im_vec4,
  map_option,
}

-- A digit below sixteen, as it is printed.
abbrev pub print_digit : ℕ → ℕ
print_digit n = if ltb n 10 then b'0' + n else b'a' + (n - 10)

-- The two digits of a component.
abbrev pub print_byte : ℕ → Text
print_byte n = print_digit (n / 16) ∷ print_digit (n % 16) ∷ []

hex_digit-print_digit : (n : ℕ) → n < 16 → hex_digit (print_digit n) ≡ some n
unfolding hex_digit
hex_digit-print_digit n h = ground arith

is_space-print_digit : (n : ℕ) → is_space (print_digit n) ≡ false
unfolding is_space
is_space-print_digit n = ground arith

-- A printed digit is no sign and no letter of a prefix.
print_digit_plain :
    (n : ℕ)
    → n < 16
    → ((print_digit n == b'-') ≡ false)
      × ((print_digit n == b'+') ≡ false)
      × ((print_digit n == b'x') ≡ false)
      × ((print_digit n == b'X') ≡ false)
print_digit_plain n h = (ground arith, ground arith, ground arith, ground arith)

digits-print_digit :
    (n d : ℕ) (s : Text) → d < 16 → digits n (print_digit d ∷ s) ≡ digits (n * 16 + d) s
unfolding digits
digits-print_digit n d s h = rw (hex_digit-print_digit d h, digits) refl

number-print_digit : (d : ℕ) (s : Text) → d < 16 → number (print_digit d ∷ s) ≡ some (digits d s)
unfolding number
number-print_digit d s h = rw (hex_digit-print_digit d h, number) refl

-- Two digits in front are no sign, no space and no prefix.
stoul-print_digit :
    (d e : ℕ) (s : Text)
    → d < 16
    → e < 16
    → stoul (print_digit d ∷ print_digit e ∷ s) ≡ some (digits (d * 16 + e) s)
unfolding stoul signed prefixed
stoul-print_digit d e s h k =
    let (minus, plus, small, capital) = print_digit_plain d h in
    let (minus', plus', small', capital') = print_digit_plain e k in
    ground (
      arith,
      is_space-print_digit d,
      minus,
      plus,
      small',
      capital',
      number-print_digit d (print_digit e ∷ s) h,
      digits-print_digit d e s k,
    )

-- The six digits of three bytes.
stoul-print_byte :
    (r g b : ℕ)
    → r < 256
    → g < 256
    → b < 256
    → stoul (print_byte r ++ (print_byte g ++ print_byte b)) ≡ some (r * 65536 + g * 256 + b)
unfolding digits
stoul-print_byte r g b hr hg hb =
    rw
      (
        stoul-print_digit (r / 16) (r % 16) (print_byte g ++ print_byte b) (omega arith)
            (omega arith),
        digits-print_digit (r / 16 * 16 + r % 16) (g / 16) (print_digit (g % 16) ∷ print_byte b)
            (omega arith),
        digits-print_digit ((r / 16 * 16 + r % 16) * 16 + g / 16) (g % 16) (print_byte b)
            (omega arith),
        digits-print_digit (((r / 16 * 16 + r % 16) * 16 + g / 16) * 16 + g % 16) (b / 16)
            (print_digit (b % 16) ∷ []) (omega arith),
        digits-print_digit ((((r / 16 * 16 + r % 16) * 16 + g / 16) * 16 + g % 16) * 16 + b / 16)
            (b % 16) [] (omega arith),
      )
      (ap some (omega arith))

stoul-alpha : (a : ℕ) → a < 256 → stoul (print_byte a) ≡ some a
unfolding digits
stoul-alpha a h =
    stoul-print_digit (a / 16) (a % 16) [] (omega (arith, h)) (omega arith) ∙ ap some (omega arith)

-- A colour of components below 256, printed in lower case as `#rrggbb`, is read back, component by component, with an alpha of one, and
-- printed as `#rrggbbaa` it is read back with its alpha.
pub hex_to_im_vec4-print_byte :
    (r g b a : ℕ)
    → r < 256
    → g < 256
    → b < 256
    → a < 256
    → (hex_to_im_vec4 (b'#' ∷ (print_byte r ++ (print_byte g ++ print_byte b)))
        ≡ some (record { red = r; green = g; blue = b; alpha = 255 }))
      × (hex_to_im_vec4 (b'#' ∷ (print_byte r ++ (print_byte g ++ (print_byte b ++ print_byte a))))
          ≡ some (record { red = r; green = g; blue = b; alpha = a }))
unfolding hex_to_im_vec4 colour_of has_hash map_option
hex_to_im_vec4-print_byte r g b a hr hg hb ha = (
  rw (stoul-print_byte r g b hr hg hb) (ground arith),
  rw (stoul-print_byte r g b hr hg hb, stoul-alpha a ha) (ground arith),
)

stoul_minus : (d : ℕ) → 0 < d → d < 16 → stoul (b'-' ∷ print_digit d ∷ []) ≡ some (2 ^ 64 - d)
unfolding stoul signed prefixed is_space map_option digits
stoul_minus d lo hd = rw (number-print_digit d [] hd) (ap some (omega arith))

-- An alpha of a minus sign and a digit other than zero is read as a number just below 2 ^ 64, so
-- the last component is far above one.
pub hex_to_im_vec4_minus :
    (r g b d : ℕ)
    → r < 256
    → g < 256
    → b < 256
    → 0 < d
    → d < 16
    → hex_to_im_vec4
        (b'#' ∷ (print_byte r ++ (print_byte g ++ (print_byte b ++ (b'-' ∷ print_digit d ∷ [])))))
      ≡ some (record { red = r; green = g; blue = b; alpha = 2 ^ 64 - d })
unfolding hex_to_im_vec4 colour_of has_hash map_option
hex_to_im_vec4_minus r g b d hr hg hb lo hd =
    rw (stoul-print_byte r g b hr hg hb, stoul_minus d lo hd) (ground arith)
