-- ===== src/Map/Laws.antt =====
-- What a read sees after a write, for the maps of Map.antt.
use mephi_sfu_server_project.Common.{
  String, str_eq, eq_iff, true, false, if◌then◌else◌, [], ◌∷◌, none, some, ◌≡◌, refl, arith,
}
use mephi_sfu_server_project.Map.{Map, lookup, insert, delete, contains, map_values, Distinct}

module _ {ℓ} {V : Type ℓ} where
  pub lookup-insert :
      (k j : String) (v : V) (m : Map V)
      → lookup j (insert k v m) ≡ (if str_eq k j then some v else lookup j m)
  unfolding lookup insert
  lookup-insert k j v [] = refl
  lookup-insert k j v (entry ∷ rest) =
      ground (arith, eq_iff entry.0 k, eq_iff entry.0 j, eq_iff k j, lookup-insert k j v rest)

  pub lookup-delete :
      (k j : String) (m : Map V) → lookup j (delete k m) ≡ (if str_eq k j then none else lookup j m)
  unfolding lookup delete
  lookup-delete k j [] = ground arith
  lookup-delete k j ((i, w) ∷ m) =
      ground (arith, eq_iff k j, eq_iff i k, eq_iff i j, lookup-delete k j m)

  pub contains-lookup :
      (k : String) (m : Map V) → contains k m ≡ elim (lookup k m) [ none ↦ false | some v ↦ true ]
  unfolding lookup contains
  contains-lookup k [] = refl
  contains-lookup k ((j, w) ∷ m) = ground (arith, contains-lookup k m)

  pub insert-Distinct : (k : String) (v : V) (m : Map V) → Distinct m → Distinct (insert k v m)
  unfolding insert lookup
  insert-Distinct k v [] d = (refl, tt)
  insert-Distinct k v ((j, w) ∷ m) d =
      ground (arith, eq_iff j k, eq_iff k j, insert-Distinct k v m d.1, lookup-insert k j v m)

  pub delete-Distinct : (k : String) (m : Map V) → Distinct m → Distinct (delete k m)
  unfolding delete lookup
  delete-Distinct k [] d = tt
  delete-Distinct k ((j, w) ∷ m) d = ground (arith, delete-Distinct k m d.1, lookup-delete k j m)

  pub delete_absent : (k : String) (m : Map V) → lookup k m ≡ none → delete k m ≡ m
  unfolding delete lookup
  delete_absent k [] h = refl
  delete_absent k ((j, w) ∷ m) h = ground (arith, delete_absent k m)

module _ {ℓ κ} {V : Type ℓ} {W : Type κ} (f : String → V → W) where
  pub lookup-map_values :
      (k : String) (m : Map V)
      → lookup k (map_values f m) ≡ elim (lookup k m) [ none ↦ none | some v ↦ some (f k v) ]
  unfolding lookup map_values
  lookup-map_values k [] = refl
  lookup-map_values k ((j, w) ∷ m) = ground (arith, eq_iff j k, lookup-map_values k m)

  pub map_values-Distinct : (m : Map V) → Distinct m → Distinct (map_values f m)
  unfolding lookup map_values
  map_values-Distinct [] d = tt
  map_values-Distinct ((j, w) ∷ m) d =
      ground (arith, lookup-map_values j m, map_values-Distinct m d.1)
