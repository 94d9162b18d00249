-- ===== src/Map/Total.antt =====
-- Sums over the values of a map, and the number of its entries.
use mephi_sfu_server_project.Common.{
  ℕ, ◌+◌, String, eq_iff, [], ◌∷◌, none, some, length, ◌≡◌, arith,
}
use mephi_sfu_server_project.Map.{Map, lookup, insert, delete, total, Distinct}
use mephi_sfu_server_project.Map.Laws.{delete_absent}

module _ {ℓ} {V : Type ℓ} (f : V → ℕ) where
  pub total-insert_new :
      (k : String) (v : V) (m : Map V)
      → lookup k m ≡ none
      → total f (insert k v m) ≡ total f m + f v
  unfolding total insert lookup
  total-insert_new k v [] h = omega arith
  total-insert_new k v ((j, w) ∷ m) h = ground (arith, total-insert_new k v m)

  pub total-insert_old :
      (k : String) (v w : V) (m : Map V)
      → lookup k m ≡ some w
      → total f (insert k v m) + f w ≡ total f m + f v
  unfolding total insert lookup
  total-insert_old k v w [] h = cc
  total-insert_old k v w ((j, u) ∷ m) h = ground (arith, total-insert_old k v w m)

  pub total-delete :
      (k : String) (v : V) (m : Map V)
      → Distinct m
      → lookup k m ≡ some v
      → total f (delete k m) + f v ≡ total f m
  unfolding total delete lookup
  total-delete k v [] d h = cc
  total-delete k v ((j, w) ∷ m) d h =
      ground (arith, eq_iff j k, total-delete k v m d.1, delete_absent k m)

module _ {ℓ} {V : Type ℓ} where
  pub length-insert_new :
      (k : String) (v : V) (m : Map V) → lookup k m ≡ none → length (insert k v m) ≡ length m + 1
  unfolding insert lookup
  length-insert_new k v [] h = omega arith
  length-insert_new k v ((j, w) ∷ m) h = ground (arith, length-insert_new k v m)

  pub length-insert_old :
      (k : String) (v w : V) (m : Map V) → lookup k m ≡ some w → length (insert k v m) ≡ length m
  unfolding insert lookup
  length-insert_old k v w [] h = cc
  length-insert_old k v w ((j, u) ∷ m) h = ground (arith, length-insert_old k v w m)

  pub length-delete :
      (k : String) (v : V) (m : Map V)
      → Distinct m
      → lookup k m ≡ some v
      → length (delete k m) + 1 ≡ length m
  unfolding delete lookup
  length-delete k v [] d h = cc
  length-delete k v ((j, w) ∷ m) d h =
      ground (arith, eq_iff j k, length-delete k v m d.1, delete_absent k m)
