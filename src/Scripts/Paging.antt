-- ===== src/Scripts/Paging.antt =====
-- src/commands/sfx.lua: the pages of `!sfx list`.
use seraphbot.Base.{
  ℕ, suc, ◌+◌, ◌*◌, ◌^◌, ◌≤◌, ◌<◌, ◌≡◌, refl, ap, ◌⊎◌, inl, inr, true, false, some, List, [], ◌∷◌,
  map, arith, ltb, if◌then◌else◌, Bool-cases, length, drop, take, length-append, Text, codes, ℤ,
  pos, negsuc, pos_part, neg_part,
}
use seraphbot.Scripts.Sfx.{
  page_reply, show_page, items_from, page_items, list_sounds, addition, fill_page, concat,
  start_index, signed_64,
}
use seraphbot.Scripts.{Lua, Number, integer, Session, done, raise, reply}

-- The loop, on sounds that are all there, as a function of its own.
abbrev pub fitting : List Text → ℕ → ℕ → ℕ
fitting [] added len = 0
fitting (name ∷ sounds) added len =
    let rest = fitting sounds (suc added) (len + length (addition added name)) in
    if ltb 450 (len + length (addition added name)) then 0 else suc rest

fill_page-fitting :
    (sounds : List Text) (added len : ℕ)
    → fill_page (map some sounds) added len ≡ some (take (fitting sounds added len) sounds)
unfolding fill_page
fill_page-fitting [] added len = refl
fill_page-fitting (name ∷ sounds) added len =
    elim (Bool-cases (ltb 450 (len + length (addition added name)))) [
      | inl e ↦ rw e refl
      | inr e ↦
          rw (e, fill_page-fitting sounds (suc added) (len + length (addition added name))) refl
    ]

at_most : (a b : ℕ) → ltb a b ≡ false → b ≤ a
at_most a b h = ground arith

above : (a b : ℕ) → ltb a b ≡ true → a < b
above a b h = ground arith

fitting_bound :
    (sounds : List Text) (added len : ℕ)
    → len ≤ 450
    → len + length (concat added (take (fitting sounds added len) sounds)) ≤ 450
unfolding concat
fitting_bound [] added len h = omega (arith, h)
fitting_bound (name ∷ sounds) added len h =
    elim (Bool-cases (ltb 450 (len + length (addition added name)))) [
      | inl e ↦ rw e (omega (arith, h))
      | inr e ↦ rw e (
          omega (
            arith,
            at_most 450 _ e,
            length-append (addition added name) (
                concat (suc added)
                  (take (fitting sounds (suc added) (len + length (addition added name))) sounds)),
            fitting_bound sounds (suc added) (len + length (addition added name)) (at_most 450 _ e),
          ))
    ]

-- the next does not fit
fitting_most :
    (sounds : List Text) (added len : ℕ)
    → (fitting sounds added len ≡ length sounds)
      ⊎ (450 < len + length (concat added (take (suc (fitting sounds added len)) sounds)))
unfolding concat
fitting_most [] added len = inl refl
fitting_most (name ∷ sounds) added len =
    elim (Bool-cases (ltb 450 (len + length (addition added name)))) [
      | inl e ↦ inr (rw e (omega (arith, above 450 _ e, length-append (addition added name) [])))
      | inr e ↦ elim (fitting_most sounds (suc added) (len + length (addition added name))) [
        | inl k ↦ inl (rw e (ap suc k))
        | inr k ↦ inr (
            rw e (
              omega (
                arith,
                k,
                length-append (addition added name) (
                    concat (suc added) (
                      take (suc (fitting sounds (suc added) (len + length (addition added name))))
                        sounds)),
              )))
      ]
    ]

start_index_small : (q : ℕ) → 15 * q + 1 < 2 ^ 63 → start_index (pos (suc q)) ≡ pos (suc (15 * q))
unfolding start_index signed_64
start_index_small q h = ground arith

module _ (lua : Lua) where
  -- A page from the first on, far from the limit of the integers: the reply shows sounds that stand
  -- next to each other, from 15 behind those of the page before, in at most 450 characters with the
  -- words in front of them, and as many as these characters hold or as there are.
  pub list_sounds_page :
      (q : ℕ) (sound : Text) (sounds : List Text) (x : Session lua.Seed)
      → 15 * q + 1 < 2 ^ 63
      → let page : Number lua.Float = integer (pos (suc q)) in
        let from = drop (15 * q) (sound ∷ sounds) in
        let start = length (codes "Available sounds: ") in
        (k : ℕ) × (list_sounds lua page (some (sound ∷ sounds)) x
          ≡ done (reply (page_reply lua page (sound ∷ sounds) (take k from)) x))
        × (start + length (concat 0 (take k from)) ≤ 450)
        × ((k ≡ length from) ⊎ (450 < start + length (concat 0 (take (suc k) from))))
  unfolding list_sounds page_items items_from show_page
  list_sounds_page q sound sounds x h =
      let from = drop (15 * q) (sound ∷ sounds) in
      (
        fitting from 0 18,
        rw (start_index_small q h, fill_page-fitting from 0 18) refl,
        fitting_bound from 0 18 (omega arith),
        fitting_most from 0 18,
      )

  start_index_low : (n : ℕ) → 15 * n + 29 ≤ 2 ^ 63 → (k : ℕ) × (start_index (negsuc n) ≡ negsuc k)
  unfolding start_index signed_64
  start_index_low n h = (15 * n + 28, ground arith)

  -- A page below the first, far from the limit of the integers: the script ends with an error and
  -- replies nothing, if there are sounds.
  pub list_sounds_low :
      (page : ℤ) (sound : Text) (sounds : List Text) (x : Session lua.Seed)
      → pos_part page ≡ 0
      → 15 * neg_part page + 14 ≤ 2 ^ 63
      → list_sounds lua (integer page) (some (sound ∷ sounds)) x ≡ raise x
  unfolding list_sounds page_items items_from show_page fill_page start_index signed_64
  list_sounds_low (pos n) sound sounds x e h = rw e refl
  list_sounds_low (negsuc n) sound sounds x e h = rw (start_index_low n (omega (arith, h))).1 refl
