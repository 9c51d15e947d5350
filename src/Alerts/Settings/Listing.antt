-- ===== src/Alerts/Settings/Listing.antt =====
-- What the listing of the settings shows: alerts.controller.ts in apps/api/src/alerts.
use core_dashboard.Prelude.{
  ◌+◌, ◌≤◌, String, ◌≡◌, refl, subst, Bool, true, false, not, ◌&&◌, none, List, [], ◌∷◌, ◌++◌, map,
  filter, any, contains, ◌==◌, string_equality, ap, if◌then◌else◌, arith, Bool-cases, inl, inr,
  eq_iff,
}
use core_dashboard.Shared.Sorting.{IsSorted, sort-IsSorted, count, count-sort}
use core_dashboard.Alerts.Settings.{
  AlertSetting, known_keys, default_setting, missing, list_unsorted, list_settings,
}

-- Whether a row is of a key.
abbrev pub has_key : String → AlertSetting → Bool
has_key key row = row.key == key

module _ {ℓ} {A : Type ℓ} (p : A → Bool) where
  count-append : (xs ys : List A) → count p (xs ++ ys) ≡ count p xs + count p ys
  count-append [] ys = omega arith
  count-append (x ∷ xs) ys = omega (arith, count-append xs ys)

  count-any : (xs : List A) → any p xs ≡ false → count p xs ≡ 0
  count-any [] e = refl
  count-any (x ∷ xs) e = ground (arith, count-any xs)

  count_both : (q : A → Bool) (xs : List A) → count (λ x. p x && q x) xs ≤ count p xs
  count_both q [] = omega arith
  count_both q (x ∷ xs) = ground (arith, count_both q xs)

-- The row that stands for a setting that nobody has changed: turned on, without a threshold.
abbrev pub unchanged : String → AlertSetting
unchanged key = record { key = key; enabled = true; threshold = none; updated_by = none }

-- Of a key that the stored rows lack there is a row for each time that it is listed.
count-default_setting :
    (key : String) (test : AlertSetting → Bool) (existing : List AlertSetting) (keys : List String)
    → count
        (λ s. has_key key s && test s)
        (map default_setting (filter (λ k. not (any (has_key k) existing)) keys))
      ≡ (if any (has_key key) existing
          then 0
          else if test (unchanged key)
          then count (λ k. k == key) keys
          else 0)
count-default_setting key test existing [] = ground arith
count-default_setting key test existing (k ∷ keys) =
    let rest = count-default_setting key test existing keys in
    elim (Bool-cases (k == key)) [
      | inl e ↦
          let one : k ≡ key = (eq_iff k key).0 e in
          let same : any (has_key k) existing ≡ any (has_key key) existing =
            ap (λ j. any (has_key j) existing) one in
          let alike : test (unchanged k) ≡ test (unchanged key) =
            ap (λ j. test (unchanged j)) one in
          ground (arith, rest, same, alike)
      | inr e ↦ ground (arith, rest)
    ]

count-known_keys :
    (key : String) → contains key known_keys ≡ true → count (λ k. k == key) known_keys ≡ 1
count-known_keys key e = elim (Bool-cases ("container_down" == key)) [
  | inl d ↦ subst (λ k. count (λ j. j == k) known_keys ≡ 1) ((eq_iff "container_down" key).0 d) refl
  | inr d ↦ ground arith
]

unknown-known_keys :
    (key : String) → contains key known_keys ≡ false → count (λ k. k == key) known_keys ≡ 0
unknown-known_keys key e = ground arith

module _ (locale_le : String → String → Bool) (existing : List AlertSetting) (key : String)
    (test : AlertSetting → Bool) where
  abbrev both : AlertSetting → Bool
  both s = has_key key s && test s

  rows-list_settings :
      count both (list_settings locale_le existing)
      ≡ count both existing
        + (if any (has_key key) existing
            then 0
            else if test (unchanged key)
            then count (λ k. k == key) known_keys
            else 0)
  unfolding list_settings list_unsorted
  rows-list_settings =
      rw
        (
          count-sort (λ a b. locale_le a.key b.key) both (list_unsorted existing),
          count-append both existing (map default_setting (missing existing)),
          count-default_setting key test existing known_keys,
        )
        refl

  -- When `localeCompare` is a total order, the settings are listed in its order; and of each key,
  -- whatever test is put to the rows, there are the stored rows, or, for a known key that is not
  -- stored, one row that is turned on, without a threshold and a user.
  pub list_settings-rows :
      ((a b c : String) → locale_le a b ≡ true → locale_le b c ≡ true → locale_le a c ≡ true)
      → ((a b : String) → locale_le a b ≡ false → locale_le b a ≡ true)
      → (count (λ s. has_key key s && test s) (list_settings locale_le existing) ≡ (
          if contains key known_keys && not (any (has_key key) existing)
          then (if test (unchanged key) then 1 else 0)
          else count (λ s. has_key key s && test s) existing))
        × IsSorted (λ a b. locale_le a.key b.key) (list_settings locale_le existing)
  unfolding list_settings
  list_settings-rows trans total = (
    elim (Bool-cases (any (has_key key) existing)) [
      | inl a ↦ ground (arith, rows-list_settings)
      | inr a ↦
          let none_stored : count both existing ≡ 0 =
            omega
              (arith, count_both (has_key key) test existing, count-any (has_key key) existing a) in
          elim (Bool-cases (contains key known_keys)) [
            | inl e ↦ ground (arith, rows-list_settings, none_stored, count-known_keys key e)
            | inr e ↦ ground (arith, rows-list_settings, unknown-known_keys key e)
          ]
    ],
    sort-IsSorted (λ a b. locale_le a.key b.key) (λ a b c. trans a.key b.key c.key)
        (λ a b. total a.key b.key) (list_unsorted existing),
  )
