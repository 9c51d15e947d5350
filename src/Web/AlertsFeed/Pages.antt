-- ===== src/Web/AlertsFeed/Pages.antt =====
-- The pages that a reader comes to by the controls that the panel offers, whatever its queries give.
use core_dashboard.Prelude.{
  ℕ, ◌+◌, ◌%◌, ◌≤◌, ◌<◌, ◌≡◌, ◌⊎◌, inl, inr, false, Option, some, List, [], ◌∷◌, arith, leb, refl,
  sym, subst, map, max, ◌-◌,
}
use core_dashboard.Shared.Events.{AlertType}
use core_dashboard.Web.View.{each}
use core_dashboard.Web.View.Offers.{ChoiceOffers, Offers, Offers-append}
use core_dashboard.Web.View.Silence.{nothing, showing, each-IsSilent, IsSilent-lacks}
use core_dashboard.Web.Query.{Query, body_view}
use core_dashboard.Web.Query.Parts.{body_view-IsSilent, pages_view-next}
use core_dashboard.Web.Pager.{page_size, AlertsFeedPanel}
use core_dashboard.Web.AlertsFeed.{
  AlertsPage, Action, pick_type, to_prev, to_next, act, entry, total_of, items_of, view, choices,
  keys, alert_types, type_label,
}

types-lacks :
    (types : List AlertType)
    → ¬ ChoiceOffers to_next (map (λ type. (type_label type, pick_type (some type))) types)
types-lacks [] o = o
types-lacks (type ∷ types) (inl e) = cc
types-lacks (type ∷ types) (inr o) = types-lacks types o

choices-lacks : ¬ ChoiceOffers to_next choices
choices-lacks (inl e) = cc
choices-lacks (inr o) = types-lacks alert_types o

next-Offers :
    (query : Query AlertsPage) (s : AlertsFeedPanel)
    → Offers to_next (view query s)
    → leb (total_of query.content) (s.offset + page_size) ≡ false
unfolding view
next-Offers query s (inl o) = absurd o
next-Offers query s (inr (inl o)) = absurd (choices-lacks o)
next-Offers query s (inr (inr o)) =
    elim (Offers-append to_next
      (body_view keys query.error query.is_loading (each entry) (items_of query.content)) _ o) [
        | inl p ↦ absurd (
            IsSilent-lacks to_next
              (body_view-IsSilent (each entry)
                (λ alerts. each-IsSilent entry alerts (λ a. showing (showing (showing nothing))))
                keys query.error query.is_loading (items_of query.content))
              p)
        | inr p ↦ pages_view-next _ (total_of query.content) s.offset to_prev to_next (λ e. cc) p
      ]

-- A control is used while a query is shown that counts no more alerts than there are of the type.
pub data Step (total : Option AlertType → ℕ) (s t : AlertsFeedPanel) : Type 0 where
  uses :
      (query : Query AlertsPage) (action : Action)
      → total_of query.content ≤ total s.type
      → Offers action (view query s)
      → t ≡ act action s
      → Step total s t

pub data Reach (total : Option AlertType → ℕ) (s : AlertsFeedPanel) : AlertsFeedPanel → Type 0 where
  here : Reach total s s
  next : {t u : AlertsFeedPanel} → Reach total s t → Step total t u → Reach total s u

-- A page starts at a multiple of its size, and at an alert unless it is the first.
pub record IsOnPage (total : Option AlertType → ℕ) (s : AlertsFeedPanel) : Type 0 where
  pub whole : s.offset % page_size ≡ 0
  pub shown : (s.offset ≡ 0) ⊎ (s.offset < total s.type)

module _ (total : Option AlertType → ℕ) where
  back :
      (s : AlertsFeedPanel)
      → (s.offset ≡ 0) ⊎ (s.offset < total s.type)
      → (max 0 (s.offset - page_size) ≡ 0) ⊎ (max 0 (s.offset - page_size) < total s.type)
  back s (inl first) = inl (omega arith)
  back s (inr after) = inr (omega arith)

  act-IsOnPage :
      (query : Query AlertsPage) (action : Action) (s : AlertsFeedPanel)
      → total_of query.content ≤ total s.type
      → Offers action (view query s)
      → IsOnPage total s
      → IsOnPage total (act action s)
  unfolding act
  act-IsOnPage query (pick_type type) s h o v = record { whole = refl; shown = inl refl }
  act-IsOnPage query to_prev s h o v = record { whole = omega arith; shown = back s v.shown }
  act-IsOnPage query to_next s h o v = ground (arith, next-Offers query s o)

  Step-IsOnPage : {s t : AlertsFeedPanel} → Step total s t → IsOnPage total s → IsOnPage total t
  Step-IsOnPage {s} (uses query action h o e) v =
      subst (IsOnPage total) (sym e) (act-IsOnPage query action s h o v)

  -- However a reader uses the controls that the panel offers: each page asked for starts at a
  -- multiple of twenty, and unless it is the first, at an alert that there is.
  pub Reach-IsOnPage :
      {s t : AlertsFeedPanel} → IsOnPage total s → Reach total s t → IsOnPage total t
  Reach-IsOnPage v here = v
  Reach-IsOnPage v (next r step) = Step-IsOnPage step (Reach-IsOnPage v r)
