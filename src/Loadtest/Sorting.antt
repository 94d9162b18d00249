-- ===== src/Loadtest/Sorting.antt =====
-- The times of a report in their order.
use mephi_sfu_server_project.Common.{
  subst, ℕ, zero, suc, ◌≤◌, ◌<◌, List, [], ◌∷◌, some, length, ◌≡◌, refl, arith, leb, Bool-cases,
  inl, inr, All,
}
use mephi_sfu_server_project.Loadtest.Report.{insert_sorted, sort, at}

-- Each is at most those behind it.
abbrev pub IsSorted : List ℕ → Type 0
IsSorted [] = Unit
IsSorted (a ∷ rest) = All (λ b. a ≤ b) rest × IsSorted rest

All-le : (a b : ℕ) (xs : List ℕ) → a ≤ b → All (λ c. b ≤ c) xs → All (λ c. a ≤ c) xs
All-le a b [] h v = tt
All-le a b (c ∷ xs) h (now, later) = (omega (arith, h, now), All-le a b xs h later)

insert_sorted-All :
    (P : ℕ → Type 0) (a : ℕ) (xs : List ℕ) → P a → All P xs → All P (insert_sorted a xs)
unfolding insert_sorted
insert_sorted-All P a [] p v = (p, tt)
insert_sorted-All P a (b ∷ xs) p (now, later) = elim (Bool-cases (leb a b)) [
  | inl e ↦ rw (e, insert_sorted) (p, (now, later))
  | inr e ↦ rw (e, insert_sorted) (now, insert_sorted-All P a xs p later)
]

insert_sorted-All_inv :
    (P : ℕ → Type 0) (a : ℕ) (xs : List ℕ) → All P (insert_sorted a xs) → P a × All P xs
unfolding insert_sorted
insert_sorted-All_inv P a [] v = v
insert_sorted-All_inv P a (b ∷ xs) v = elim (Bool-cases (leb a b)) [
  | inl e ↦ rw (e, insert_sorted) at v
  | inr e ↦
      let w : P b × All P (insert_sorted a xs) = rw (e, insert_sorted) at v in
      let rest = insert_sorted-All_inv P a xs w.1 in (rest.0, (w.0, rest.1))
]

insert_sorted-IsSorted : (a : ℕ) (xs : List ℕ) → IsSorted xs → IsSorted (insert_sorted a xs)
unfolding insert_sorted
insert_sorted-IsSorted a [] v = (tt, tt)
insert_sorted-IsSorted a (b ∷ xs) (low, later) = elim (Bool-cases (leb a b)) [
  | inl e ↦
      let less : a ≤ b = ground (arith, e) in
      rw (e, insert_sorted) ((less, All-le a b xs less low), (low, later))
  | inr e ↦
      rw (e, insert_sorted)
        (
          insert_sorted-All (λ c. b ≤ c) a xs (ground (arith, e)) low,
          insert_sorted-IsSorted a xs later,
        )
]

pub sort-IsSorted : (xs : List ℕ) → IsSorted (sort xs)
unfolding sort
sort-IsSorted [] = tt
sort-IsSorted (a ∷ xs) = insert_sorted-IsSorted a (sort xs) (sort-IsSorted xs)

pub sort-All_inv : (P : ℕ → Type 0) (xs : List ℕ) → All P (sort xs) → All P xs
unfolding sort
sort-All_inv P [] v = tt
sort-All_inv P (a ∷ xs) v =
    let parts = insert_sorted-All_inv P a (sort xs) v in (parts.0, sort-All_inv P xs parts.1)

length-insert_sorted : (a : ℕ) (xs : List ℕ) → length (insert_sorted a xs) ≡ suc (length xs)
unfolding insert_sorted
length-insert_sorted a [] = refl
length-insert_sorted a (b ∷ xs) = ground (arith, length-insert_sorted a xs)

pub length-sort : (xs : List ℕ) → length (sort xs) ≡ length xs
unfolding sort
length-sort [] = refl
length-sort (a ∷ xs) = ground (arith, length-insert_sorted a (sort xs), length-sort xs)

pub at-within : (n : ℕ) (xs : List ℕ) → n < length xs → (a : ℕ) × (at n xs ≡ some a)
unfolding at
at-within n [] h = absurd (omega arith)
at-within zero (a ∷ xs) h = (a, refl)
at-within (suc n) (a ∷ xs) h = at-within n xs (omega arith)

pub at-All : (P : ℕ → Type 0) (n a : ℕ) (xs : List ℕ) → at n xs ≡ some a → All P xs → P a
unfolding at
at-All P n a [] e v = cc e
at-All P zero a (b ∷ xs) e (now, later) = let same : b ≡ a = cc e in subst P same now
at-All P (suc n) a (b ∷ xs) e (now, later) = at-All P n a xs e later

-- The last of sorted times is the highest.
pub highest :
    (x d : ℕ) (xs : List ℕ)
    → IsSorted (x ∷ xs)
    → at (length xs) (x ∷ xs) ≡ some d
    → All (λ a. a ≤ d) (x ∷ xs)
unfolding at
highest x d [] v e = let same : x ≡ d = cc e in (ground (arith, same), tt)
highest x d (y ∷ xs) ((low, lower), later) e =
    let rest = highest y d xs later e in (omega (arith, low, rest.0), rest)
