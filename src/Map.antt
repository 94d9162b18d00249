-- ===== src/Map.antt =====
-- Go's map[string]V as an association list. A read of a missing key gives `none`, a write replaces
-- the value in place or adds an entry, and `delete` of a missing key does nothing, as in Go. The
-- order of the entries stands for the order in which a `range` loop happens to visit them.
pub mod Laws
pub mod Total
pub mod Every
use mephi_sfu_server_project.Common.{
  ℕ, String, str_eq, Bool, true, false, not, if◌then◌else◌, List, [], ◌∷◌, Option, none, some,
  length, ◌+◌, ◌≡◌,
}

abbrev pub Map {ℓ} : Type ℓ → Type ℓ
Map V = List (String × V)

module _ {ℓ} {V : Type ℓ} where
  -- `v, ok := m[k]`
  unfoldable pub lookup : String → Map V → Option V
  lookup k [] = none
  lookup k ((j, v) ∷ m) = if str_eq j k then some v else lookup k m

  -- `m[k] = v`
  unfoldable pub insert : String → V → Map V → Map V
  insert k v [] = (k, v) ∷ []
  insert k v ((j, w) ∷ m) = if str_eq j k then (k, v) ∷ m else (j, w) ∷ insert k v m

  -- `delete(m, k)`
  unfoldable pub delete : String → Map V → Map V
  delete k [] = []
  delete k ((j, w) ∷ m) = if str_eq j k then delete k m else (j, w) ∷ delete k m

  -- `_, ok := m[k]`
  unfoldable pub contains : String → Map V → Bool
  contains k [] = false
  contains k ((j, w) ∷ m) = if str_eq j k then true else contains k m

  -- The values, in the order of a `range` loop.
  unfoldable pub values : Map V → List V
  values [] = []
  values ((j, w) ∷ m) = w ∷ values m

  -- A `range` loop that updates each value in place.
  unfoldable pub map_values {κ} : {W : Type κ} → (String → V → W) → Map V → Map W
  map_values f [] = []
  map_values f ((j, w) ∷ m) = (j, f j w) ∷ map_values f m

  -- The sum of a measure over the values; at the constant 1 it is `len(m)`.
  unfoldable pub total : (V → ℕ) → Map V → ℕ
  total f [] = 0
  total f ((j, w) ∷ m) = f w + total f m

  -- Every key stands once, which a Go map gives by construction.
  abbrev pub Distinct : Map V → Type ℓ
  Distinct [] = Unit
  Distinct ((j, w) ∷ m) = (lookup j m ≡ none) × Distinct m
