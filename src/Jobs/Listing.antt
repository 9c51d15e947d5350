-- ===== src/Jobs/Listing.antt =====
-- Which runs `JobsService.list` of apps/api/src/jobs returns.
use core_dashboard.Prelude.{
  ℕ, zero, suc, ◌≤◌, String, ◌≡◌, refl, ap, ◌∙◌, Bool, true, false, List, [], ◌∷◌, map, take,
  length, length-take, min, ltb, arith, All, Bool-cases, inl, inr,
}
use core_dashboard.Shared.Sorting.{sort, IsSorted, sort-IsSorted, take-IsSorted, count, count-sort}
use core_dashboard.Jobs.{JobRun, list, list_limit, newest_first}

-- Whether a run was created after a time.
abbrev pub is_after : ℕ → JobRun → Bool
is_after time run = ltb time run.created_at

count-take :
    (time n : ℕ) (xs : List JobRun) → count (is_after time) (take n xs) ≤ count (is_after time) xs
count-take time zero xs = omega arith
count-take time (suc n) [] = omega arith
count-take time (suc n) (x ∷ xs) = omega (arith, count-take time n xs)

none_after :
    (time : ℕ) (x : JobRun) (xs : List JobRun)
    → is_after time x ≡ false
    → All (λ y. newest_first x y ≡ true) xs
    → count (is_after time) xs ≡ 0
none_after time x [] e h = refl
none_after time x (y ∷ xs) e (k, h) = ground (arith, none_after time x xs e h)

take-newest_first :
    (time n : ℕ) (xs : List JobRun)
    → IsSorted newest_first xs
    → count (is_after time) (take n xs) ≡ min n (count (is_after time) xs)
take-newest_first time zero xs s = ground arith
take-newest_first time (suc n) [] s = ground arith
take-newest_first time (suc n) (x ∷ xs) (h, s) = elim (Bool-cases (is_after time x)) [
  | inl e ↦ ground (arith, take-newest_first time n xs s)
  | inr e ↦ ground (arith, none_after time x xs e h, count-take time n xs)
]

rows-IsSorted :
    (runs : List (String × JobRun))
    → IsSorted newest_first (sort newest_first (map (λ row. row.1) runs))
rows-IsSorted runs =
    sort-IsSorted newest_first (λ a b c e f. ground arith) (λ a b e. ground arith)
      (map (λ row. row.1) runs)

-- The listing has at most a hundred runs, the newest first, and whatever time is chosen, it has all
-- the runs that were created after it, or a hundred of them if there are more.
pub list-newest_first :
    (runs : List (String × JobRun))
    → (length (list runs) ≤ list_limit)
      × IsSorted newest_first (list runs)
      × ((time : ℕ)
          → count (is_after time) (list runs)
            ≡ min list_limit (count (is_after time) (map (λ row. row.1) runs)))
unfolding list
list-newest_first runs =
    let rows = map (λ row. row.1) runs in
    (
      omega (arith, length-take list_limit (sort newest_first rows)),
      take-IsSorted newest_first list_limit (sort newest_first rows) (rows-IsSorted runs),
      λ time.
          take-newest_first time list_limit (sort newest_first rows) (rows-IsSorted runs)
          ∙ ap (min list_limit) (count-sort newest_first (is_after time) rows),
    )
