-- ===== src/Audit/Pages.antt =====
-- How the pages of the audit log fit together, and which failures the queue's status shows.
use core_dashboard.Prelude.{
  ℕ, zero, suc, ◌+◌, ◌≤◌, String, ◌≡◌, refl, sym, ap, ◌∙◌, Bool, true, false, List, [], ◌∷◌, ◌++◌,
  arith, take, drop, filter, length, length-take,
}
use core_dashboard.Shared.Sorting.{sort, IsSorted, sort-IsSorted, take-IsSorted}
use core_dashboard.Audit.{
  AuditLog, AuditLogFilters, matches, newest_first, list, JobRecordItem, recent_of,
  recent_failures_limit,
}

module _ {ℓ} {A : Type ℓ} where
  take_nil : (n : ℕ) → take {A = A} n [] ≡ []
  take_nil zero = refl
  take_nil (suc n) = refl

  drop_nil : (n : ℕ) → drop {A = A} n [] ≡ []
  drop_nil zero = refl
  drop_nil (suc n) = refl

  take-add : (m n : ℕ) (xs : List A) → take (m + n) xs ≡ take m xs ++ take n (drop m xs)
  take-add zero n xs = let e : 0 + n ≡ n = omega arith in ap (λ k. take k xs) e
  take-add (suc m) n [] = take_nil (suc m + n) ∙ sym (take_nil n)
  take-add (suc m) n (x ∷ xs) =
      let e : suc m + n ≡ suc (m + n) = omega arith in
      ap (λ k. take k (x ∷ xs)) e ∙ ap (◌∷◌ x) (take-add m n xs)

  drop-add : (m n : ℕ) (xs : List A) → drop (m + n) xs ≡ drop n (drop m xs)
  drop-add zero n xs = let e : 0 + n ≡ n = omega arith in ap (λ k. drop k xs) e
  drop-add (suc m) n [] = drop_nil (suc m + n) ∙ sym (drop_nil n)
  drop-add (suc m) n (x ∷ xs) =
      let e : suc m + n ≡ suc (m + n) = omega arith in ap (λ k. drop k (x ∷ xs)) e ∙ drop-add m n xs

-- Two consecutive pages of the log are, one after the other, the page of both sizes, with the same
-- total.
pub list-append :
    (filters : AuditLogFilters) (first second : ℕ) (table : List AuditLog)
    → ((list (record filters { limit = first + second }) table).entries
        ≡ (list (record filters { limit = first }) table).entries
          ++ (list
              (record filters { limit = second; offset = filters.offset + first })
              table).entries)
      × ((list (record filters { limit = first + second }) table).total
          ≡ (list (record filters { limit = second; offset = filters.offset + first }) table).total)
unfolding list matches
list-append filters first second table =
    let rows = sort newest_first (filter (matches filters) table) in
    (
      take-add first second (drop filters.offset rows)
          ∙ ap (λ xs. take first (drop filters.offset rows) ++ take second xs)
              (sym (drop-add filters.offset first rows)),
      refl,
    )

-- The status shows at most ten failures, the newest first.
pub recent_of-IsSorted :
    (newer : String → String → Bool)
    → ((a b c : String) → newer a b ≡ true → newer b c ≡ true → newer a c ≡ true)
    → ((a b : String) → newer a b ≡ false → newer b a ≡ true)
    → (failures dead : List JobRecordItem)
    → (length (recent_of newer failures dead) ≤ recent_failures_limit)
      × IsSorted (λ a b. newer a.updated_at b.updated_at) (recent_of newer failures dead)
unfolding recent_of
recent_of-IsSorted newer trans total failures dead =
    let le : JobRecordItem → JobRecordItem → Bool = λ a b. newer a.updated_at b.updated_at in
    let sorted = sort le (failures ++ dead) in
    (
      omega (arith, length-take recent_failures_limit sorted),
      take-IsSorted le recent_failures_limit sorted (
          sort-IsSorted le (λ a b c. trans a.updated_at b.updated_at c.updated_at)
            (λ a b. total a.updated_at b.updated_at) (failures ++ dead)),
    )
