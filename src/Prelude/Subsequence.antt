-- ===== src/Prelude/Subsequence.antt =====
-- A list that is another with some elements left out, in the same order.

use mathlib.Core.List.{List, [], ◌∷◌, ◌++◌}
use Prim.Native.Nat.{ℕ, zero, suc}
use core_dashboard.Prelude.Lists.{drop}

pub data IsSubsequence {ℓ} {A : Type ℓ} : List A → List A → Type ℓ where
  done : IsSubsequence [] []
  keep : (x : A) {xs ys : List A} → IsSubsequence xs ys → IsSubsequence (x ∷ xs) (x ∷ ys)
  skip : (y : A) {xs ys : List A} → IsSubsequence xs ys → IsSubsequence xs (y ∷ ys)

module _ {ℓ} {A : Type ℓ} where
  pub IsSubsequence-refl : (xs : List A) → IsSubsequence xs xs
  IsSubsequence-refl [] = done
  IsSubsequence-refl (x ∷ xs) = keep x (IsSubsequence-refl xs)

  pub IsSubsequence-nil : (xs : List A) → IsSubsequence [] xs
  IsSubsequence-nil [] = done
  IsSubsequence-nil (x ∷ xs) = skip x (IsSubsequence-nil xs)

  pub IsSubsequence-append :
      {xs ys zs ws : List A}
      → IsSubsequence xs ys
      → IsSubsequence zs ws
      → IsSubsequence (xs ++ zs) (ys ++ ws)
  IsSubsequence-append done k = k
  IsSubsequence-append (keep x h) k = keep x (IsSubsequence-append h k)
  IsSubsequence-append (skip y h) k = skip y (IsSubsequence-append h k)

  pub IsSubsequence-trans :
      {ys zs : List A}
      → IsSubsequence ys zs
      → {xs : List A} → IsSubsequence xs ys
      → IsSubsequence xs zs
  IsSubsequence-trans done h = h
  IsSubsequence-trans (skip y k) h = skip y (IsSubsequence-trans k h)
  IsSubsequence-trans (keep x' k) (keep x h) = keep x (IsSubsequence-trans k h)
  IsSubsequence-trans (keep y' k) (skip y h) = skip y (IsSubsequence-trans k h)

  pub IsSubsequence-drop : (n : ℕ) (xs : List A) → IsSubsequence (drop n xs) xs
  IsSubsequence-drop zero xs = IsSubsequence-refl xs
  IsSubsequence-drop (suc n) [] = done
  IsSubsequence-drop (suc n) (x ∷ xs) = skip x (IsSubsequence-drop n xs)

  -- Elements added at the end of both lists.
  pub IsSubsequence-grow :
      {xs ys : List A} (zs : List A) → IsSubsequence xs ys → IsSubsequence (xs ++ zs) (ys ++ zs)
  IsSubsequence-grow zs h = IsSubsequence-append h (IsSubsequence-refl zs)
