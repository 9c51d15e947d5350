-- ===== src/Web/View/Silence.antt =====
-- Views that only show: they have no control. The rules are for `search`.
use core_dashboard.Prelude.{Bool, String, true, false, inl, inr, List, [], ◌∷◌, ◌++◌, if◌then◌else◌}
use core_dashboard.Web.View.{Label, Tone, text, figure, View, each}
use core_dashboard.Web.View.Offers.{Offers}

module _ {A : Type 0} where
  pub data IsSilent : View A → Type 0 where
    nothing : IsSilent []
    showing : {tone : Tone} {l : Label} {v : View A} → IsSilent v → IsSilent (text tone l ∷ v)
    drawing : {lines : List String} {v : View A} → IsSilent v → IsSilent (figure lines ∷ v)

  pub append-IsSilent : {v w : View A} → IsSilent v → IsSilent w → IsSilent (v ++ w)
  append-IsSilent nothing t = t
  append-IsSilent (showing s) t = showing (append-IsSilent s t)
  append-IsSilent (drawing s) t = drawing (append-IsSilent s t)

  pub each-IsSilent {ℓ} :
      {B : Type ℓ} (f : B → View A) (bs : List B)
      → ((b : B) → IsSilent (f b))
      → IsSilent (each f bs)
  each-IsSilent f [] h = nothing
  each-IsSilent f (b ∷ bs) h = append-IsSilent (h b) (each-IsSilent f bs h)

  pub if-IsSilent :
      (test : Bool) {v w : View A} → IsSilent v → IsSilent w → IsSilent (if test then v else w)
  if-IsSilent true s t = s
  if-IsSilent false s t = t

  pub IsSilent-lacks : (a : A) {v : View A} → IsSilent v → ¬ Offers a v
  IsSilent-lacks a nothing o = o
  IsSilent-lacks a (showing s) (inl o) = o
  IsSilent-lacks a (showing s) (inr o) = IsSilent-lacks a s o
  IsSilent-lacks a (drawing s) (inl o) = o
  IsSilent-lacks a (drawing s) (inr o) = IsSilent-lacks a s o
