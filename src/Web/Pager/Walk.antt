-- ===== src/Web/Pager/Walk.antt =====
-- What a reader of the panels sees by going through the pages, and when an alert comes in.
use core_dashboard.Prelude.{
  ℕ, zero, suc, ◌+◌, ◌*◌, ◌≤◌, ◌≡◌, ◌∙◌, sym, ap, Bool, false, List, [], ◌∷◌, ◌++◌, append-nil,
  arith, if◌then◌else◌, length, take-all, drop-drop, length-drop, take, drop, filter, leb,
  number_equality, take-append-drop, Bool-cases, inl, inr, Option,
}
use core_dashboard.Shared.Events.{AlertType}
use core_dashboard.Web.Pager.{
  page_size, has_next, next, AlertsFilters, AlertsFeedPanel, filters_of, concerns, on_new_alert,
}

module _ {ℓ} {A : Type ℓ} (rows : List A) (list : ℕ → ℕ → List A)
    (serves : (limit offset : ℕ) → list limit offset ≡ take limit (drop offset rows)) where
  -- The pages that are shown from an offset on, by so many clicks on the button for the next.
  unfoldable pub walk : ℕ → ℕ → List A
  walk zero offset = list page_size offset
  walk (suc clicks) offset =
      let rest = walk clicks (next (length rows) offset) in
      list page_size offset ++ (if has_next (length rows) offset then rest else [])

  walk-drop :
      (clicks offset : ℕ)
      → length rows ≤ offset + page_size * suc clicks
      → walk clicks offset ≡ drop offset rows
  unfolding walk next has_next
  walk-drop zero offset h =
      serves page_size offset
      ∙ take-all page_size (drop offset rows) (omega (arith, h, length-drop offset rows))
  walk-drop (suc clicks) offset h = elim (Bool-cases (leb (length rows) (offset + page_size))) [
    | inl e ↦ rw (e) (
        ap (λ xs. xs ++ []) (serves page_size offset)
        ∙ append-nil (take page_size (drop offset rows))
        ∙ take-all page_size (drop offset rows) (ground (arith, length-drop offset rows)))
    | inr e ↦ rw (e) (
        ap (λ xs. xs ++ walk clicks (offset + page_size)) (serves page_size offset)
        ∙ ap (λ xs. take page_size (drop offset rows) ++ xs)
            (walk-drop clicks (offset + page_size) (omega (arith, h))
              ∙ sym (drop-drop offset page_size rows))
        ∙ take-append-drop page_size (drop offset rows))
  ]

  -- Whoever clicks through to the last page sees every row, once and in order.
  pub walk-rows : (clicks : ℕ) → length rows ≤ page_size * suc clicks → walk clicks 0 ≡ rows
  walk-rows clicks h = walk-drop clicks 0 (omega (arith, h))

-- What the service of the alerts holds, the newest first.
abbrev pub Feed {ℓ} : Type ℓ → Type ℓ
Feed A = List (AlertType × A)

module _ {ℓ} {A : Type ℓ} (same : AlertType → AlertType → Bool) where
  abbrev pub matching : Option AlertType → Feed A → Feed A
  matching type feed = filter (λ a. concerns same type a.0) feed

  module _ (list : Feed A → AlertsFilters → Feed A)
      (serves : (feed : Feed A) (f : AlertsFilters)
        → list feed f ≡ take f.limit (drop f.offset (matching f.type feed))) where
    -- An alert that does not make a panel at its first page ask again leaves the page as it is.
    pub on_new_alert-list :
        (feed : Feed A) (alert : AlertType × A) (s : AlertsFeedPanel)
        → s.offset ≡ 0
        → on_new_alert same alert.0 s ≡ false
        → list (alert ∷ feed) (filters_of s) ≡ list feed (filters_of s)
    unfolding on_new_alert
    on_new_alert-list feed alert s first quiet =
        serves (alert ∷ feed) (filters_of s)
        ∙ ap (λ alerts. take page_size (drop s.offset alerts)) (ground arith)
        ∙ sym (serves feed (filters_of s))
