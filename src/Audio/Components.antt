-- ===== src/Audio/Components.antt =====
-- The names along a path, and the directories that a path lies in by them. These stand beside the
-- text comparison of `isPathAllowed` (src/core/audio_system.cpp).
use seraphbot.Base.{
  ℕ, ◌≡◌, refl, sym, ap, ◌∙◌, ◌↔◌, ◌⊎◌, inl, inr, Bool, true, false, ◌||◌, List, [], ◌∷◌, ◌++◌,
  append-nil, append_assoc, arith, ◌==◌, if◌then◌else◌, All, Text, starts_with, starts_with-append,
  starts_with-split,
}
use seraphbot.Audio.Whitelist.{slash, to_slash, close_path, normalize_path}

abbrev pub is_separator : ℕ → Bool
is_separator c = c == b'/' || c == b'\\'

-- A character in front of the names behind it.
pub place : Bool → ℕ → List Text → List Text
place true c names = [] ∷ names
place false c [] = (c ∷ []) ∷ []
place false c (name ∷ names) = (c ∷ name) ∷ names

-- The names between the separators; a separator at the end adds none, and one at the start makes
-- the first name empty.
unfoldable pub components : Text → List Text
unfolding place
components [] = []
components (c ∷ s) = place (is_separator c) c (components s)

unfoldable pub joined : List Text → Text
joined [] = []
joined (name ∷ names) = name ++ (slash ∷ joined names)

to_slash_cases :
    (c : ℕ)
    → ((is_separator c ≡ true) × (to_slash c ≡ slash))
      ⊎ ((is_separator c ≡ false) × (to_slash c ≡ c) × ((c == slash) ≡ false))
unfolding to_slash
to_slash_cases c = ground arith

joined-place :
    (b : Bool) (c : ℕ) (e : Bool) (d : ℕ) (names : List Text)
    → to_slash c ≡ (if b then slash else c)
    → joined (place b c (place e d names)) ≡ to_slash c ∷ joined (place e d names)
unfolding joined place
joined-place true c e d names h = rw h refl
joined-place false c true d names h = rw h refl
joined-place false c false d [] h = rw h refl
joined-place false c false d (name ∷ names) h = rw h refl

-- The normalised path is its names, each with a slash behind it.
pub normalize_path-components : (s : Text) → normalize_path s ≡ joined (components s)
unfolding normalize_path close_path components joined place
normalize_path-components [] = refl
normalize_path-components (c ∷ []) = elim (to_slash_cases c) [
  | inl (sep, same) ↦ rw (sep, same) refl
  | inr (plain, same, apart) ↦ rw (plain, same, apart) refl
]
normalize_path-components (c ∷ d ∷ s) = elim (to_slash_cases c) [
  | inl (sep, same) ↦ rw sep (
      ap (◌∷◌ (to_slash c)) (normalize_path-components (d ∷ s))
      ∙ sym (joined-place true c (is_separator d) d (components s) same))
  | inr (plain, same, apart) ↦ rw plain (
      ap (◌∷◌ (to_slash c)) (normalize_path-components (d ∷ s))
      ∙ sym (joined-place false c (is_separator d) d (components s) same))
]

-- A name holds no separator.
abbrev IsName : Text → Type 0
IsName name = All (λ c. is_separator c ≡ false) name

place-All :
    (b : Bool) (c : ℕ) (names : List Text)
    → is_separator c ≡ b
    → All IsName names
    → All IsName (place b c names)
unfolding place
place-All true c names h all = (tt, all)
place-All false c [] h all = ((h, tt), tt)
place-All false c (name ∷ names) h all = ((h, all.0), all.1)

components-All : (s : Text) → All IsName (components s)
unfolding components
components-All [] = tt
components-All (c ∷ s) = place-All (is_separator c) c (components s) refl (components-All s)

components-name :
    (name t : Text) → IsName name → components (name ++ (slash ∷ t)) ≡ name ∷ components t
unfolding components place
components-name [] t h = refl
components-name (c ∷ name) t h = rw (h.0, components-name name t h.1) refl

components-joined :
    (names : List Text) (t : Text)
    → All IsName names
    → components (joined names ++ t) ≡ names ++ components t
unfolding components joined
components-joined [] t h = refl
components-joined (name ∷ names) t h =
    ap components (append_assoc name (slash ∷ joined names) t)
    ∙ (components-name name (joined names ++ t) h.0 ∙ ap (◌∷◌ name) (components-joined names t h.1))

joined-append : (p q : List Text) → joined (p ++ q) ≡ joined p ++ joined q
unfolding joined
joined-append [] q = refl
joined-append (name ∷ p) q =
    ap (λ s. name ++ (slash ∷ s)) (joined-append p q) ∙ sym (append_assoc name _ _)

-- The names of the path begin with all the names of the directory.
abbrev pub LiesBelow : Text → Text → Type 0
LiesBelow directory path = (rest : List Text) × (components path ≡ components directory ++ rest)

-- The comparison of the normalised texts is that of the names.
pub starts_with-normalize_path :
    (path directory : Text)
    → (starts_with (normalize_path path) (normalize_path directory) ≡ true)
      ↔ LiesBelow directory path
unfolding components
starts_with-normalize_path path directory = (
  (λ h.
      let (t, e) = starts_with-split (normalize_path path) (normalize_path directory) h in
      (
        components t,
        sym (append-nil (components path))
            ∙ (sym (components-joined (components path) [] (components-All path))
                ∙ (ap components (
                      append-nil (joined (components path))
                      ∙ (sym (normalize_path-components path)
                          ∙ (e ∙ ap (◌++ t) (normalize_path-components directory))))
                    ∙ components-joined (components directory) t (components-All directory))),
      )),
  (λ (rest, e).
      let same : normalize_path path ≡ normalize_path directory ++ joined rest =
        normalize_path-components path
        ∙ (ap joined e
            ∙ (joined-append (components directory) rest
                ∙ ap (◌++ joined rest) (sym (normalize_path-components directory)))) in
      rw same (starts_with-append (normalize_path directory) (joined rest))),
)
