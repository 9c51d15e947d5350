-- ===== src/Web/Query.antt =====
-- What react-query gives a panel of apps/web/src/components: the data of the last answer, the
-- error of the last one, and whether the first is still awaited; and the parts of their views that
-- the panels share.
pub mod Parts
use core_dashboard.Prelude.{
  ℕ, String, Bool, Option, none, some, List, [], ◌∷◌, if◌then◌else◌, leb, ◌+◌, ◌==◌,
  number_equality,
}
use core_dashboard.Web.Pager.{page_size}
use core_dashboard.Web.View.{Label, literal, message, View, text, danger, muted, button, count}

-- The panel's own error of the api, with its text, or another.
pub data QueryError : Type 0 where
  api_error : String → QueryError
  other_error : QueryError

pub record Query (A : Type 0) : Type 0 where
  pub content : Option A
  pub error : Option QueryError
  pub is_loading : Bool

-- `query.error instanceof ... ? query.error.message : t("error")`.
abbrev pub error_label : String → QueryError → Label
error_label otherwise (api_error words) = literal words
error_label otherwise other_error = message otherwise []

module _ {A B : Type 0} where
  abbrev pub list_view : String → (List B → View A) → List B → View A
  list_view empty list [] = text muted (message empty []) ∷ []
  list_view empty list (b ∷ bs) = list (b ∷ bs)

  -- The body of a panel: an error, the first answer awaited, no rows, or the rows.
  unfoldable pub body_view :
      (String × String × String) → Option QueryError → Bool → (List B → View A) → List B → View A
  body_view (failure, loading, empty) (some e) is_loading list rows =
      text danger (error_label failure e) ∷ []
  body_view (failure, loading, empty) none is_loading list rows =
      if is_loading then text muted (message loading []) ∷ [] else list_view empty list rows

module _ {A : Type 0} where
  -- The footer of a panel with pages: the total and the two buttons.
  unfoldable pub pages_view : (String × String × String) → ℕ → ℕ → A → A → View A
  pages_view (total_key, prev_key, next_key) total offset prev next =
      text muted (message total_key (("total", count total) ∷ []))
      ∷ button (offset == 0) muted (message prev_key []) prev
      ∷ button (leb total (offset + page_size)) muted (message next_key []) next
      ∷ []
