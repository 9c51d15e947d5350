-- ===== src/Shared/Maps.antt =====
-- JavaScript's `Map` and `Set` with string keys, in the order of insertion.
use core_dashboard.Prelude.{
  String, true, Option, none, some, List, [], ◌∷◌, ◌++◌, ◌≡◌, ◌≢◌, refl, ◌==◌, string_equality,
  if◌then◌else◌, contains, eq_iff, arith,
}

module _ {ℓ} {A : Type ℓ} where
  unfoldable pub lookup : String → List (String × A) → Option A
  lookup k [] = none
  lookup k ((j, a) ∷ m) = if j == k then some a else lookup k m

  unfoldable pub insert : String → A → List (String × A) → List (String × A)
  insert k a [] = (k, a) ∷ []
  insert k a ((j, b) ∷ m) = if j == k then (k, a) ∷ m else (j, b) ∷ insert k a m

  unfoldable pub remove : String → List (String × A) → List (String × A)
  remove k [] = []
  remove k ((j, a) ∷ m) = if j == k then remove k m else (j, a) ∷ remove k m

unfoldable pub add : String → List String → List String
add k s = if contains k s then s else s ++ k ∷ []

pub beq_refl : (k : String) → (k == k) ≡ true
beq_refl k = (eq_iff k k).1 refl

module _ {ℓ} {A : Type ℓ} where
  pub lookup-insert :
      (k : String) (a : A) (m : List (String × A)) → lookup k (insert k a m) ≡ some a
  unfolding lookup insert
  lookup-insert k a [] = ground (arith, beq_refl k)
  lookup-insert k a ((j, b) ∷ m) = ground (arith, beq_refl k, lookup-insert k a m)

  pub lookup-insert_ne :
      (k i : String) (a : A) (m : List (String × A)) → i ≢ k → lookup k (insert i a m) ≡ lookup k m
  unfolding lookup insert
  lookup-insert_ne k i a [] n = ground (arith, eq_iff i k)
  lookup-insert_ne k i a ((j, b) ∷ m) n =
      ground (arith, eq_iff i k, eq_iff j i, eq_iff j k, lookup-insert_ne k i a m n)

  pub lookup-remove : (k : String) (m : List (String × A)) → lookup k (remove k m) ≡ none
  unfolding lookup remove
  lookup-remove k [] = refl
  lookup-remove k ((j, b) ∷ m) = ground (arith, lookup-remove k m)

  pub lookup-remove_ne :
      (k i : String) (m : List (String × A)) → i ≢ k → lookup k (remove i m) ≡ lookup k m
  unfolding lookup remove
  lookup-remove_ne k i [] n = refl
  lookup-remove_ne k i ((j, b) ∷ m) n =
      ground (arith, eq_iff j i, eq_iff j k, lookup-remove_ne k i m n)
