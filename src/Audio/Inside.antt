-- ===== src/Audio/Inside.antt =====
-- Proofs about the whitelist: allowed paths and the directories they lie in.
use seraphbot.Base.{
  ◌≡◌, refl, ◌↔◌, ◌⊎◌, inl, inr, Bool, true, false, Option, none, some, List, [], ◌∷◌,
  if◌then◌else◌, any_of, Text, text_eq, text_eq_iff, starts_with,
}
use seraphbot.FileSystem.{FileSystem}
use seraphbot.Audio.Components.{LiesBelow, starts_with-normalize_path}
use seraphbot.Audio.Whitelist.{
  DirectoryWhitelist, normalize_path, insert_path, add_canonical, canonical_allowed,
  add_whitelisted_directory, is_path_allowed,
}

if_true : (b : Bool) {c : Bool} → c ≡ true → (if b then true else c) ≡ true
if_true true h = refl
if_true false h = h

or_cases : (b c : Bool) → (if b then true else c) ≡ true → (b ≡ true) ⊎ (c ≡ true)
or_cases true c h = inl refl
or_cases false c h = inr h

any_of_mono :
    {A : Type 0} (p q : A → Bool) (xs : List A)
    → ((x : A) → p x ≡ true → q x ≡ true)
    → any_of p xs ≡ true
    → any_of q xs ≡ true
any_of_mono p q [] f h = h
any_of_mono p q (x ∷ xs) f h = elim (or_cases (p x) (any_of p xs) h) [
  | inl here ↦ rw (f x here) refl
  | inr there ↦ if_true (q x) (any_of_mono p q xs f there)
]

-- Whether or not the path was in the set before, it is in it now, beside those that were.
inserted :
    (b : Bool) (path text : Text) (paths : DirectoryWhitelist)
    → any_of (λ p. text_eq p path) paths ≡ b
    → (any_of (starts_with text) (if b then paths else path ∷ paths) ≡ true)
      ↔ ((starts_with text path ≡ true) ⊎ (any_of (starts_with text) paths ≡ true))
inserted true path text paths known = (
  (λ h. inr h),
  (λ x. elim x [
    | inl h ↦
        any_of_mono (λ p. text_eq p path) (starts_with text) paths
          (λ p same. rw ((text_eq_iff p path).0 same) h) known
    | inr h ↦ h
  ]),
)
inserted false path text paths known = (
  (λ h. or_cases (starts_with text path) (any_of (starts_with text) paths) h),
  (λ x. elim x [ inl h ↦ rw h refl | inr h ↦ if_true (starts_with text path) h ]),
)

any_of-insert_path :
    (path text : Text) (paths : DirectoryWhitelist)
    → (any_of (starts_with text) (insert_path path paths) ≡ true)
      ↔ ((starts_with text path ≡ true) ⊎ (any_of (starts_with text) paths ≡ true))
unfolding insert_path
any_of-insert_path path text paths =
    inserted (any_of (λ p. text_eq p path) paths) path text paths refl

-- A directory whose canonical form is known, and a path below it.
pub LiesIn : Option Text → Text → Type 0
LiesIn none path = ⊥
LiesIn (some directory) path = LiesBelow directory path

any_of-add_canonical :
    (o : Option Text) (path : Text) (paths : DirectoryWhitelist)
    → (any_of (starts_with (normalize_path path)) (add_canonical o paths) ≡ true)
      ↔ (LiesIn o path ⊎ (any_of (starts_with (normalize_path path)) paths ≡ true))
unfolding add_canonical LiesIn
any_of-add_canonical none path paths =
    ((λ h. inr h), (λ x. elim x [ inl none_there ↦ absurd none_there | inr h ↦ h ]))
any_of-add_canonical (some directory) path paths =
    let (to, from) = any_of-insert_path (normalize_path directory) (normalize_path path) paths in
    let (below, starts) = starts_with-normalize_path path directory in
    (
      (λ h. elim (to h) [ inl s ↦ inl (below s) | inr rest ↦ inr rest ]),
      (λ x. elim x [ inl b ↦ from (inl (starts b)) | inr rest ↦ from (inr rest) ]),
    )

module _ (fs : FileSystem) where
  -- The set after the directories were added, the last of the list first.
  unfoldable pub whitelist_of : List Text → DirectoryWhitelist
  whitelist_of [] = []
  whitelist_of (directory ∷ directories) =
      add_whitelisted_directory fs directory (whitelist_of directories)

  -- One of the directories has the path below it.
  unfoldable pub LiesWithin : List Text → Text → Type 0
  LiesWithin [] path = ⊥
  LiesWithin (directory ∷ directories) path =
      LiesIn (fs.canonical directory) path ⊎ LiesWithin directories path

  any_of-whitelist_of :
      (directories : List Text) (path : Text)
      → (any_of (starts_with (normalize_path path)) (whitelist_of directories) ≡ true)
        ↔ LiesWithin directories path
  unfolding whitelist_of LiesWithin add_whitelisted_directory
  any_of-whitelist_of [] path = ((λ h. cc), (λ nothing. absurd nothing))
  any_of-whitelist_of (directory ∷ directories) path =
      let (to, from) =
        any_of-add_canonical (fs.canonical directory) path (whitelist_of directories) in
      let (ih, hi) = any_of-whitelist_of directories path in
      (
        (λ h. elim (to h) [ inl here ↦ inl here | inr there ↦ inr (ih there) ]),
        (λ x. elim x [ inl here ↦ from (inl here) | inr there ↦ from (inr (hi there)) ]),
      )

  canonical_allowed_iff :
      (o : Option Text) (directories : List Text)
      → (canonical_allowed o (whitelist_of directories) ≡ true)
        ↔ ((canonical : Text) × (o ≡ some canonical) × LiesWithin directories canonical)
  unfolding canonical_allowed
  canonical_allowed_iff none directories = ((λ h. cc), (λ (c, e, h). cc))
  canonical_allowed_iff (some canonical) directories =
      let (to, from) = any_of-whitelist_of directories canonical in
      (
        (λ h. (canonical, refl, to h)),
        (λ (c, e, h). (let same : canonical ≡ c = cc in from (rw same h))),
      )

  -- After any directories were added to the empty whitelist, also ones without a canonical form,
  -- which add nothing, a path is allowed exactly if it has a canonical form and that lies in the canonical form of one of them, name by name: split at slashes and backslashes, with
  -- no name behind a separator at the end, the names of the path begin with all the names of the
  -- directory.
  pub is_path_allowed_iff :
      (directories : List Text) (path : Text)
      → (is_path_allowed fs path (whitelist_of directories) ≡ true) ↔ (
          (canonical : Text) × (fs.canonical path ≡ some canonical)
          × LiesWithin directories canonical)
  unfolding is_path_allowed
  is_path_allowed_iff directories path = canonical_allowed_iff (fs.canonical path) directories
