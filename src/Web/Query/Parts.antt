-- ===== src/Web/Query/Parts.antt =====
-- The shared parts of the panels: the body has no control, and the footer has two.
use core_dashboard.Prelude.{
  ℕ, ◌+◌, ◌≡◌, ◌≢◌, String, Bool, false, Option, none, some, List, [], ◌∷◌, leb, number_equality,
  inl, inr,
}
use core_dashboard.Web.View.{View}
use core_dashboard.Web.View.Offers.{Offers}
use core_dashboard.Web.View.Silence.{IsSilent, nothing, showing, if-IsSilent}
use core_dashboard.Web.Pager.{page_size}
use core_dashboard.Web.Query.{QueryError, list_view, body_view, pages_view}

module _ {A B : Type 0} (list : List B → View A) (silent : (bs : List B) → IsSilent (list bs)) where
  list_view-IsSilent : (empty : String) (bs : List B) → IsSilent (list_view empty list bs)
  list_view-IsSilent empty [] = showing nothing
  list_view-IsSilent empty (b ∷ bs) = silent (b ∷ bs)

  pub body_view-IsSilent :
      (keys : String × String × String) (error : Option QueryError) (is_loading : Bool)
      (rows : List B)
      → IsSilent (body_view keys error is_loading list rows)
  unfolding body_view
  body_view-IsSilent keys (some e) is_loading rows = showing nothing
  body_view-IsSilent keys none is_loading rows =
      if-IsSilent is_loading (showing nothing) (list_view-IsSilent keys.2 rows)

-- The button for the next page is enabled only before the last.
pub pages_view-next :
    {A : Type 0} (keys : String × String × String) (total offset : ℕ) (prev next : A)
    → prev ≢ next
    → Offers next (pages_view keys total offset prev next)
    → leb total (offset + page_size) ≡ false
unfolding pages_view
pages_view-next keys total offset prev next apart (inl o) = absurd o
pages_view-next keys total offset prev next apart (inr (inl (d, e))) = absurd (apart e)
pages_view-next keys total offset prev next apart (inr (inr (inl (d, e)))) = d
pages_view-next keys total offset prev next apart (inr (inr (inr o))) = absurd o
