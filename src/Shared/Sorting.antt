-- ===== src/Shared/Sorting.antt =====
-- `Array.prototype.sort` with a comparison: stable, so that inserting from the right into a sorted
-- list gives the same list. The order of `localeCompare` is a parameter where it is used.
use core_dashboard.Prelude.{
  ℕ, zero, suc, take, All-take, ◌+◌, ◌≡◌, refl, Bool, true, false, List, [], ◌∷◌, if◌then◌else◌,
  arith, All, Bool-cases, inl, inr,
}

module _ {ℓ} {A : Type ℓ} (le : A → A → Bool) where
  unfoldable pub insert_sorted : A → List A → List A
  insert_sorted a [] = a ∷ []
  insert_sorted a (b ∷ xs) = if le a b then a ∷ b ∷ xs else b ∷ insert_sorted a xs

  unfoldable pub sort : List A → List A
  sort [] = []
  sort (a ∷ xs) = insert_sorted a (sort xs)

  abbrev pub IsSorted : List A → Type 0
  IsSorted [] = Unit
  IsSorted (a ∷ xs) = All (λ b. le a b ≡ true) xs × IsSorted xs

pub take-IsSorted {ℓ} :
    {A : Type ℓ} (le : A → A → Bool) (n : ℕ) (xs : List A)
    → IsSorted le xs
    → IsSorted le (take n xs)
take-IsSorted le zero xs s = tt
take-IsSorted le (suc n) [] s = tt
take-IsSorted le (suc n) (x ∷ xs) (h, s) =
    (All-take (λ b. le x b ≡ true) n xs h, take-IsSorted le n xs s)

-- How often a test holds.
abbrev pub count {ℓ} : {A : Type ℓ} → (A → Bool) → List A → ℕ
count p [] = 0
count p (x ∷ xs) = (if p x then 1 else 0) + count p xs

module _ {ℓ} {A : Type ℓ} (le : A → A → Bool) where
  count-insert_sorted :
      (p : A → Bool) (a : A) (xs : List A) → count p (insert_sorted le a xs) ≡ count p (a ∷ xs)
  unfolding insert_sorted
  count-insert_sorted p a [] = refl
  count-insert_sorted p a (b ∷ xs) = ground (arith, count-insert_sorted p a xs)

  -- Sorting keeps how often each test holds, and so the elements.
  pub count-sort : (p : A → Bool) (xs : List A) → count p (sort le xs) ≡ count p xs
  unfolding sort
  count-sort p [] = refl
  count-sort p (a ∷ xs) = ground (arith, count-insert_sorted p a (sort le xs), count-sort p xs)

module _ {ℓ} {A : Type ℓ} (le : A → A → Bool)
    (le_trans : (a b c : A) → le a b ≡ true → le b c ≡ true → le a c ≡ true)
    (le_total : (a b : A) → le a b ≡ false → le b a ≡ true) where
  All-le :
      (a b : A) (xs : List A)
      → le a b ≡ true
      → All (λ c. le b c ≡ true) xs
      → All (λ c. le a c ≡ true) xs
  All-le a b [] h k = tt
  All-le a b (c ∷ xs) h (e, k) = (le_trans a b c h e, All-le a b xs h k)

  All-insert_sorted :
      (b a : A) (xs : List A)
      → le b a ≡ true
      → All (λ c. le b c ≡ true) xs
      → All (λ c. le b c ≡ true) (insert_sorted le a xs)
  unfolding insert_sorted
  All-insert_sorted b a [] h k = (h, tt)
  All-insert_sorted b a (c ∷ xs) h (e, k) = ground (arith, All-insert_sorted b a xs h k)

  insert_sorted-IsSorted :
      (a : A) (xs : List A) → IsSorted le xs → IsSorted le (insert_sorted le a xs)
  unfolding insert_sorted
  insert_sorted-IsSorted a [] s = (tt, tt)
  insert_sorted-IsSorted a (b ∷ xs) (k, s) = elim (Bool-cases (le a b)) [
    | inl e ↦ ground (arith, All-le a b xs e k)
    | inr e ↦
        ground (arith, insert_sorted-IsSorted a xs s, All-insert_sorted b a xs (le_total a b e) k)
  ]

  pub sort-IsSorted : (xs : List A) → IsSorted le (sort le xs)
  unfolding sort
  sort-IsSorted [] = tt
  sort-IsSorted (a ∷ xs) = insert_sorted-IsSorted a (sort le xs) (sort-IsSorted xs)
