-- ===== src/Audio/Listing.antt =====
-- Proofs about the listing of a directory.
use seraphbot.Base.{
  ℕ, ◌≡◌, refl, ap, inl, inr, Bool, true, false, not, Option, none, some, List, [], ◌∷◌, arith, ltb,
  ◌==◌, if◌then◌else◌, Bool-cases, Text,
}
use mathlib.Core.Path.{subst}
use seraphbot.Base.Chain.{◌>>=◌}
use seraphbot.FileSystem.{FileSystem}
use seraphbot.Audio.{text_leb, insert_sorted, sort, sort_if, collect, list_audio_files}
use seraphbot.Audio.Whitelist.{DirectoryWhitelist, is_path_allowed}

-- No name of the list comes before `s`, as far as its first name tells.
abbrev pub IsAbove : Text → List Text → Type 0
IsAbove s [] = Unit
IsAbove s (t ∷ ts) = text_leb s t ≡ true

-- Each name comes after the one before it.
abbrev pub IsSorted : List Text → Type 0
IsSorted [] = Unit
IsSorted (t ∷ ts) = IsAbove t ts × IsSorted ts

text_leb-total : (s t : Text) → text_leb s t ≡ false → text_leb t s ≡ true
unfolding text_leb
text_leb-total [] t h = cc
text_leb-total (c ∷ s) [] h = refl
text_leb-total (c ∷ s) (d ∷ t) h = total c d (text_leb s t) (text_leb t s) (text_leb-total s t) h
  where
    total :
        (c d : ℕ) (st ts : Bool)
        → (st ≡ false → ts ≡ true)
        → (if ltb c d then true else if c == d then st else false) ≡ false
        → (if ltb d c then true else if d == c then ts else false) ≡ true
    total c d st ts f h = ground arith

insert_sorted-IsAbove :
    (r s : Text) (ts : List Text)
    → text_leb r s ≡ true
    → IsAbove r ts
    → IsAbove r (insert_sorted s ts)
unfolding insert_sorted
insert_sorted-IsAbove r s [] h above = h
insert_sorted-IsAbove r s (t ∷ ts) h above = elim (Bool-cases (text_leb s t)) [
  | inl before ↦ rw before h
  | inr behind ↦ rw behind above
]

insert_sorted-IsSorted : (s : Text) (ts : List Text) → IsSorted ts → IsSorted (insert_sorted s ts)
unfolding insert_sorted
insert_sorted-IsSorted s [] h = (tt, tt)
insert_sorted-IsSorted s (t ∷ ts) h = elim (Bool-cases (text_leb s t)) [
  | inl before ↦ rw before (before, h)
  | inr behind ↦ rw behind (
    insert_sorted-IsAbove t s ts (text_leb-total s t behind) h.0,
    insert_sorted-IsSorted s ts h.1,
  )
]

sort-IsSorted : (ts : List Text) → IsSorted (sort ts)
unfolding sort
sort-IsSorted [] = tt
sort-IsSorted (t ∷ ts) = insert_sorted-IsSorted t (sort ts) (sort-IsSorted ts)

sort_if-IsSorted : (fs : FileSystem) (p : List Text × Bool) → p.1 ≡ true → IsSorted (sort_if fs p)
unfolding sort_if
sort_if-IsSorted fs (names, true) h = sort-IsSorted names
sort_if-IsSorted fs (names, false) h = cc

given-IsSorted :
    (names result : List Text) → IsSorted names → some names ≡ some result → IsSorted result
given-IsSorted names result s h =
    subst IsSorted (ap (λ o. elim o [ none ↦ names | some found ↦ found ]) h) s

module _ (fs : FileSystem) where
  -- What the tests before the iteration leave of its names.
  tested-IsSorted :
      (allowed : Bool) (found is_dir : Option Bool) (names result : List Text)
      → IsSorted names
      → (if not allowed then some [] else (do
        f ← found
        if not f then some [] else (do d ← is_dir; if not d then some [] else some names)))
        ≡ some result
      → IsSorted result
  tested-IsSorted false found is_dir names result s h = given-IsSorted [] result tt h
  tested-IsSorted true none is_dir names result s h = cc
  tested-IsSorted true (some false) is_dir names result s h = given-IsSorted [] result tt h
  tested-IsSorted true (some true) none names result s h = cc
  tested-IsSorted true (some true) (some false) names result s h = given-IsSorted [] result tt h
  tested-IsSorted true (some true) (some true) names result s h = given-IsSorted names result s h

  -- The names that `listAudioFiles` gives are sorted, if the iteration over the directory comes to
  -- its end without an exception.
  pub list_audio_files-IsSorted :
      (directory : Text) (whitelist : DirectoryWhitelist) (names : List Text)
      → (collect fs (fs.entries directory).0 (fs.entries directory).1).1 ≡ true
      → list_audio_files fs directory whitelist ≡ some names
      → IsSorted names
  unfolding list_audio_files
  list_audio_files-IsSorted directory whitelist names complete h =
      tested-IsSorted (is_path_allowed fs directory whitelist) (fs.exists directory)
        (fs.is_directory directory) _ names (sort_if-IsSorted fs _ complete) h
