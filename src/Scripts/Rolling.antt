-- ===== src/Scripts/Rolling.antt =====
-- src/commands: the scripts that draw a random number.
use seraphbot.Base.{
  ℕ, ◌≤◌, ◌≡◌, refl, ap, ◌∙◌, ◌⊎◌, inl, inr, Bool, true, false, not, ◌&&◌, some, List, [], ◌∷◌,
  ◌++◌, arith, if◌then◌else◌, Bool-cases, Text, codes, ℤ, pos, negsuc, pos_part, ltb_ℤ,
}
use seraphbot.Scripts.{done, dice_reply, sides_of, Lua, integer, Session, int, dice, dice_sides}

-- The sides that an argument asks for: its own number from 2 to 100, and else six.
abbrev pub AsksFor : ℤ → ℕ → Type 0
AsksFor v sides =
    ((v ≡ pos sides) × (2 ≤ sides) × (sides ≤ 100))
    ⊎ (((ltb_ℤ v (pos 2) ≡ true) ⊎ (ltb_ℤ (pos 100) v ≡ true)) × (sides ≡ 6))

module _ (lua : Lua) where
  -- A die, the user, and what was drawn of how many sides.
  unfoldable pub roll_text : Text → ℕ → ℕ → Text
  roll_text user result sides =
      (240 ∷ 159 ∷ 142 ∷ 178 ∷ [])
      ++ (codes " "
          ++ (user
              ++ (codes " rolled a "
                  ++ (lua.number_text (integer (pos result))
                      ++ (codes " (1-" ++ (lua.number_text (integer (pos sides)) ++ codes ")"))))))

  -- What Lua documents of `math.random(n)`.
  abbrev pub IsRandom : Type 0
  IsRandom =
      (n : ℕ) (seed : lua.Seed)
      → 1 ≤ n
      → (r : ℕ) × (next : lua.Seed) × (lua.random (int lua n) seed ≡ (some r, next))
        × (1 ≤ r)
        × (r ≤ n)

  abbrev pub IsOrder : Type 0
  IsOrder = (a b : ℤ) → lua.less (integer a) (integer b) ≡ ltb_ℤ a b

  abbrev pub in_range : ℤ → Bool
  in_range v = ltb_ℤ (pos 1) v && not (ltb_ℤ (pos 100) v)

  in_range_pos : (v : ℤ) → in_range v ≡ true → v ≡ pos (pos_part v)
  in_range_pos (pos n) h = refl
  in_range_pos (negsuc n) h = ground arith

  in_range_bounds : (v : ℤ) → in_range v ≡ true → (2 ≤ pos_part v) × (pos_part v ≤ 100)
  in_range_bounds (pos n) h = ground arith
  in_range_bounds (negsuc n) h = ground arith

  sides_of-integer :
      (v : ℤ)
      → IsOrder
      → sides_of lua (some (integer v)) ≡ (if in_range v then integer v else int lua 6)
  unfolding sides_of
  sides_of-integer v law = rw (law (pos 1) v, law (pos 100) v) refl

  in_range_not :
      (v : ℤ) → in_range v ≡ false → (ltb_ℤ v (pos 2) ≡ true) ⊎ (ltb_ℤ (pos 100) v ≡ true)
  in_range_not (pos n) h = ground arith
  in_range_not (negsuc n) h = ground arith

  sides_cases :
      (v : ℤ)
      → (n : ℕ) × AsksFor v n
        × (1 ≤ n)
        × ((if in_range v then integer v else int lua 6) ≡ int lua n)
  sides_cases v = elim (Bool-cases (in_range v)) [
    | inl e ↦
        (let (low, high) = in_range_bounds v e in
          (
            pos_part v,
            inl (in_range_pos v e, low, high),
            omega (arith, low),
            rw e (ap integer (in_range_pos v e)),
          ))
    | inr e ↦ (6, inr (in_range_not v e, refl), omega arith, rw e refl)
  ]

  -- The dice, where the first argument is an integer, `<` is the order of integers and `math.random`
  -- draws as Lua documents: it has as many sides as that, if that is from 2 to
  -- 100, and six sides if it is below or above; the script draws one number for so many sides, which
  -- the dice can show, goes on with the next seed, and replies once, with the user, the number and
  -- the sides.
  pub dice_rolls :
      (user arg : Text) (args : List Text) (v : ℤ) (x : Session lua.Seed)
      → IsRandom
      → IsOrder
      → lua.to_number arg ≡ some (integer v)
      → (sides : ℕ) × (result : ℕ) × (next : lua.Seed) × AsksFor v sides
        × (lua.random (int lua sides) x.seed ≡ (some result, next))
        × (1 ≤ result)
        × (result ≤ sides)
        × (dice lua user (arg ∷ args) x
            ≡ done
                (record { seed = next; replies = x.replies ++ (roll_text user result sides ∷ []) }))
  unfolding dice dice_sides dice_reply roll_text
  dice_rolls user arg args v x random law e =
      let (n, which, least_side, same) = sides_cases v in
      let (r, next, drawn, least, most) = random n x.seed least_side in
      let sides : dice_sides lua (arg ∷ args) ≡ int lua n =
        ap (sides_of lua) e ∙ (sides_of-integer v law ∙ same) in
      (n, r, next, which, drawn, least, most, rw (sides, drawn) refl)
