-- ===== src/Obs/Finding.antt =====
-- Proofs about the search for a source in the items of a scene.
use seraphbot.Base.{
  ◌≡◌, refl, inl, inr, Bool, true, false, ◌&&◌, Option, none, some, List, [], ◌∷◌, if◌then◌else◌,
  Bool-cases, Text, codes, ℤ, negsuc,
}
use seraphbot.Net.{JsonLibrary}
use seraphbot.Obs.{ObsNet, ObsService, bad_json, member}
use seraphbot.Obs.Steps.{or_throw}
use seraphbot.Obs.Video.{find_source, found_source, string_is}

-- What nlohmann documents of `operator[]`: at a key that is there it gives a value.
pub record IsIndexed (json : JsonLibrary) : Type 0 where
  pub found :
      (j : json.Json) (key : Text)
      → json.contains j key ≡ true
      → (v : json.Json) × (json.index j key ≡ some v)

module _ (net : ObsNet) (json : JsonLibrary) where
  open json use {Json, contains, index, value_integer}

  -- An item with this name.
  abbrev pub is_named : Text → Json → Bool
  is_named name item =
      contains item (codes "sourceName") && (elim (index item (codes "sourceName")) [
        | none ↦ false
        | some source ↦ string_is net json source name
      ])

  abbrev pub first_named : Text → List Json → Option Json
  first_named name [] = none
  first_named name (item ∷ rest) = if is_named name item then some item else first_named name rest

  -- The number of an item, or -1.
  abbrev pub id_of : Option Json → Option ℤ
  id_of none = some (negsuc 0)
  id_of (some item) = value_integer item (codes "sceneItemId") (negsuc 0)

  -- The loop gives the number of the first item with this name, an item without a name passed
  -- over, and -1 where there is none; it fails only where that number cannot be read, and it
  -- changes nothing.
  pub find_source-first_named :
      (name : Text) (items : List Json) (s : ObsService × net.World)
      → IsIndexed json
      → find_source net json name items s ≡ or_throw (id_of (first_named name items)) bad_json s
  unfolding find_source found_source member
  find_source-first_named name [] s h = refl
  find_source-first_named name (item ∷ rest) s h =
      let ih = find_source-first_named name rest s h in
      elim (Bool-cases (contains item (codes "sourceName"))) [
        | inl there ↦
            let (source, e) = h.found item (codes "sourceName") there in
            elim (Bool-cases (string_is net json source name)) [
              | inl same ↦ rw (there, e, same) refl
              | inr other ↦ rw (there, e, other) ih
            ]
        | inr missing ↦ rw missing ih
      ]
