-- ===== src/StringMap.antt =====
-- Go's `map[string]T`: an association list with what a read of a missing key gives. A nil map is
-- `none` of an `Option` round this type, where the source tells nil from empty.
pub mod Laws
pub mod Keys
use janus_idp_operator.Prelude.{String, Option, none, some, List, [], ◌∷◌, ◌==◌, map, if◌then◌else◌}

-- One association of a map.
abbrev pub Entry {ℓ} : Type ℓ → Type ℓ
Entry T = String × T

abbrev pub StringMap {ℓ} : Type ℓ → Type ℓ
StringMap T = List (Entry T)

module _ {ℓ} {T : Type ℓ} where
  -- value, ok := m[name]
  unfoldable pub lookup : (name : String) → StringMap T → Option T
  lookup name [] = none
  lookup name (entry ∷ rest) =
      let later = lookup name rest in if entry.0 == name then some (entry.1) else later

  -- m[name] = value: the entry of a present key is replaced where it stands.
  unfoldable pub insert : (name : String) → (value : T) → StringMap T → StringMap T
  insert name value [] = (name, value) ∷ []
  insert name value (entry ∷ rest) =
      let later = insert name value rest in
      if entry.0 == name then (name, value) ∷ rest else entry ∷ later

  unfoldable pub keys : StringMap T → List String
  keys m = map (λ (entry : Entry T). entry.0) m

-- m[name] of a map from texts to texts: the empty text where the key is missing.
unfoldable pub get_or_empty : String → StringMap String → String
unfolding lookup
get_or_empty name m = elim (lookup name m) [ none ↦ "" | some value ↦ value ]

-- The same read through a map that may be nil.
unfoldable pub get_nil : String → Option (StringMap String) → String
unfolding get_or_empty
get_nil name none = ""
get_nil name (some m) = get_or_empty name m

-- for k, v := range src { dst[k] = v }
unfoldable pub insert_all : StringMap String → StringMap String → StringMap String
unfolding insert
insert_all [] dst = dst
insert_all ((name, value) ∷ src) dst = insert_all src (insert name value dst)
