-- ===== src/Map/Every.antt =====
-- A property of every entry of a map, and how the operations keep it.
use mephi_sfu_server_project.Common.{
  suc, String, str_eq, true, [], ◌∷◌, none, some, length, map, ◌≡◌, refl, All, Option-cases,
  Bool-cases, inl, inr, str_eq-cases, if◌then◌else◌, ap, eq_refl, sym, ◌∙◌, subst,
}
use mephi_sfu_server_project.Map.{Map, lookup, insert, delete, map_values, values, Distinct}
use mephi_sfu_server_project.Map.Laws.{lookup-insert, lookup-delete, lookup-map_values}

abbrev pub Every {ℓ κ} : {V : Type ℓ} → (String → V → Type κ) → Map V → Type (ℓ ⊔ κ)
Every {V} P m = (k : String) (v : V) → lookup k m ≡ some v → P k v

module _ {ℓ κ} {V : Type ℓ} (P : String → V → Type κ) where
  pub insert-Every : (k : String) (v : V) (m : Map V) → P k v → Every P m → Every P (insert k v m)
  insert-Every k v m p h j w e = elim (str_eq-cases k j) [
    | inl same ↦
        let found : some v ≡ some w =
          sym (
            lookup-insert k j v m
            ∙ ap (λ b. if b then some v else lookup j m)
                (subst (λ x. str_eq k x ≡ true) same (eq_refl k)))
          ∙ e in
        subst (λ x. P x w) same (subst (P k) (cc found) p)
    | inr other ↦
        h j w (sym (lookup-insert k j v m ∙ ap (λ b. if b then some v else lookup j m) other) ∙ e)
  ]

  pub delete-Every : (k : String) (m : Map V) → Every P m → Every P (delete k m)
  delete-Every k m h j w e = elim (str_eq-cases k j) [
    | inl same ↦
        let gone : none ≡ some w =
          sym (
            lookup-delete k j m
            ∙ ap (λ b. if b then none else lookup j m)
                (subst (λ x. str_eq k x ≡ true) same (eq_refl k)))
          ∙ e in
        cc gone
    | inr other ↦
        h j w (sym (lookup-delete k j m ∙ ap (λ b. if b then none else lookup j m) other) ∙ e)
  ]

  pub Every-nil : Every P []
  unfolding lookup
  Every-nil k v e = cc e

module _ {ℓ κ λ₁ μ} {V : Type ℓ} {W : Type κ} (P : String → V → Type λ₁) (Q : String → W → Type μ)
    (f : String → V → W) where
  pub map_values-Every :
      ((k : String) (v : V) → P k v → Q k (f k v))
      → (m : Map V) → Every P m
      → Every Q (map_values f m)
  map_values-Every step m h k w e = elim (Option-cases (lookup k m)) [
    | inl absent ↦
        let gone : none ≡ some w =
          sym (
            lookup-map_values f k m
            ∙ ap (λ o. elim o [ none ↦ none | some v ↦ some (f k v) ]) absent)
          ∙ e in
        cc gone
    | inr (v, found) ↦
        let same : some (f k v) ≡ some w =
          sym (
            lookup-map_values f k m
            ∙ ap (λ o. elim o [ none ↦ none | some v ↦ some (f k v) ]) found)
          ∙ e in
        subst (Q k) (cc same) (step k v (h k v found))
  ]

module _ {ℓ κ} {V : Type ℓ} (P : String → V → Type κ) where
  Every-head : (j : String) (w : V) (m : Map V) → Every P ((j, w) ∷ m) → P j w
  unfolding lookup
  Every-head j w m h = h j w (rw (eq_refl j))

  Every-tail :
      (j : String) (w : V) (m : Map V) → lookup j m ≡ none → Every P ((j, w) ∷ m) → Every P m
  unfolding lookup
  Every-tail j w m fresh h k v e = elim (str_eq-cases j k) [
    | inl same ↦ let clash : none ≡ some v = sym fresh ∙ ap (λ x. lookup x m) same ∙ e in cc clash
    | inr other ↦ h k v (rw other e)
  ]

  -- A loop over the values of a map meets only values with the property.
  pub map-values-All {μ ν} :
      {W : Type μ} (Q : W → Type ν) (g : V → W) (m : Map V)
      → ((k : String) (v : V) → P k v → Q (g v))
      → Distinct m
      → Every P m
      → All Q (map g (values m))
  unfolding values
  map-values-All Q g [] step d h = tt
  map-values-All Q g ((j, w) ∷ m) step d h =
      (step j w (Every-head j w m h), map-values-All Q g m step d.1 (Every-tail j w m d.0 h))

  -- The property of the first entry and of the others.
  pub Every-uncons :
      (j : String) (w : V) (m : Map V)
      → Distinct ((j, w) ∷ m)
      → Every P ((j, w) ∷ m)
      → P j w × Every P m
  Every-uncons j w m d h = (Every-head j w m h, Every-tail j w m d.0 h)

module _ {ℓ} {V : Type ℓ} where
  pub length-values : (m : Map V) → length (values m) ≡ length m
  unfolding values
  length-values [] = refl
  length-values ((j, w) ∷ m) = ap suc (length-values m)

  pub length-map_values {κ} :
      {W : Type κ} (f : String → V → W) (m : Map V) → length (map_values f m) ≡ length m
  unfolding map_values
  length-map_values f [] = refl
  length-map_values f ((j, w) ∷ m) = ap suc (length-map_values f m)

module _ {ℓ κ} {V : Type ℓ} (Q : V → Type κ) where
  pub values-All : (m : Map V) → Distinct m → Every (λ k v. Q v) m → All Q (values m)
  unfolding values
  values-All [] d h = tt
  values-All ((j, w) ∷ m) d h =
      let parts = Every-uncons (λ k v. Q v) j w m d h in (parts.0, values-All m d.1 parts.1)

  pub lookup-values :
      (k : String) (v : V) (m : Map V) → lookup k m ≡ some v → All Q (values m) → Q v
  unfolding values lookup
  lookup-values k v [] e h = cc e
  lookup-values k v ((j, w) ∷ m) e h = elim (Bool-cases (str_eq j k)) [
    | inl b ↦ let same : some w ≡ some v = rw b at e in subst Q (cc same) h.0
    | inr b ↦ lookup-values k v m (rw b at e) h.1
  ]
