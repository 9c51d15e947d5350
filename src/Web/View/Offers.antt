-- ===== src/Web/View/Offers.antt =====
-- What a user can do with a view: the clicks of enabled buttons, the choices, and typing.
use core_dashboard.Prelude.{
  ◌≡◌, ◌≢◌, refl, ap, ◌⊎◌, inl, inr, Bool, true, false, List, [], ◌∷◌, ◌++◌, Text,
}
use core_dashboard.Web.View.{
  Label, Item, text, button, choice, field, figure, View, when, each, inside, inside_choices,
  inside_item,
}

module _ {A : Type 0} (a : A) where
  abbrev pub ChoiceOffers : List (Label × A) → Type 0
  ChoiceOffers [] = ⊥
  ChoiceOffers ((l, b) ∷ choices) = (b ≡ a) ⊎ ChoiceOffers choices

  abbrev pub ItemOffers : Item A → Type 0
  ItemOffers (text tone l) = ⊥
  ItemOffers (button disabled tone l b) = (disabled ≡ false) × (b ≡ a)
  ItemOffers (choice choices) = ChoiceOffers choices
  ItemOffers (field l value f) = (t : Text) × (f t ≡ a)
  ItemOffers (figure lines) = ⊥

  abbrev pub Offers : View A → Type 0
  Offers [] = ⊥
  Offers (i ∷ view) = ItemOffers i ⊎ Offers view

module _ {A : Type 0} (a : A) where
  pub Offers-append : (v w : View A) → Offers a (v ++ w) → Offers a v ⊎ Offers a w
  Offers-append [] w o = inr o
  Offers-append (i ∷ v) w (inl o) = inl (inl o)
  Offers-append (i ∷ v) w (inr o) = elim (Offers-append v w o) [
    | inl p ↦ inl (inr p)
    | inr p ↦ inr p
  ]

  pub Offers-left : (v w : View A) → Offers a v → Offers a (v ++ w)
  Offers-left [] w o = absurd o
  Offers-left (i ∷ v) w (inl o) = inl o
  Offers-left (i ∷ v) w (inr o) = inr (Offers-left v w o)

  pub Offers-right : (v w : View A) → Offers a w → Offers a (v ++ w)
  Offers-right [] w o = o
  Offers-right (i ∷ v) w o = inr (Offers-right v w o)

  -- A view that is shown under a test offers nothing without it.
  pub Offers-when : (test : Bool) (v : View A) → Offers a (when test v) → (test ≡ true) × Offers a v
  Offers-when true v o = (refl, o)
  Offers-when false v o = absurd o

  pub each-lacks {ℓ} :
      {B : Type ℓ} (f : B → View A) (bs : List B)
      → ((b : B) → ¬ Offers a (f b))
      → ¬ Offers a (each f bs)
  each-lacks f [] h o = o
  each-lacks f (b ∷ bs) h o = elim (Offers-append (f b) (each f bs) o) [
    | inl p ↦ h b p
    | inr p ↦ each-lacks f bs h p
  ]

module _ {A B : Type 0} (f : A → B) {b : B} where
  ChoiceOffers-inside :
      (choices : List (Label × A))
      → ChoiceOffers b (inside_choices f choices)
      → (a : A) × (f a ≡ b) × ChoiceOffers a choices
  ChoiceOffers-inside [] o = absurd o
  ChoiceOffers-inside ((l, a) ∷ choices) (inl e) = (a, e, inl refl)
  ChoiceOffers-inside ((l, a) ∷ choices) (inr o) =
      let (c, e, p) = ChoiceOffers-inside choices o in (c, e, inr p)

  ItemOffers-inside :
      (i : Item A) → ItemOffers b (inside_item f i) → (a : A) × (f a ≡ b) × ItemOffers a i
  ItemOffers-inside (text tone l) o = absurd o
  ItemOffers-inside (button disabled tone l a) o = (a, o.1, (o.0, refl))
  ItemOffers-inside (choice choices) o = ChoiceOffers-inside choices o
  ItemOffers-inside (field l value g) (t, e) = (g t, e, (t, refl))
  ItemOffers-inside (figure lines) o = absurd o

  -- What a component offers inside another is what it offers by itself.
  pub Offers-inside : (v : View A) → Offers b (inside f v) → (a : A) × (f a ≡ b) × Offers a v
  Offers-inside [] o = absurd o
  Offers-inside (i ∷ v) (inl o) = let (a, e, p) = ItemOffers-inside i o in (a, e, inl p)
  Offers-inside (i ∷ v) (inr o) = let (a, e, p) = Offers-inside v o in (a, e, inr p)

  -- A component offers nothing that is not its own.
  pub inside-lacks : (v : View A) → ((a : A) → f a ≢ b) → ¬ Offers b (inside f v)
  inside-lacks v h o = let (a, e, p) = Offers-inside v o in h a e

module _ {A B : Type 0} (f : A → B) (a : A) where
  ChoiceOffers-inside_own :
      (choices : List (Label × A))
      → ChoiceOffers a choices
      → ChoiceOffers (f a) (inside_choices f choices)
  ChoiceOffers-inside_own [] o = absurd o
  ChoiceOffers-inside_own ((l, c) ∷ choices) (inl e) = inl (ap f e)
  ChoiceOffers-inside_own ((l, c) ∷ choices) (inr o) = inr (ChoiceOffers-inside_own choices o)

  ItemOffers-inside_own : (i : Item A) → ItemOffers a i → ItemOffers (f a) (inside_item f i)
  ItemOffers-inside_own (text tone l) o = absurd o
  ItemOffers-inside_own (button disabled tone l c) (d, e) = (d, ap f e)
  ItemOffers-inside_own (choice choices) o = ChoiceOffers-inside_own choices o
  ItemOffers-inside_own (field l value g) (t, e) = (t, ap f e)
  ItemOffers-inside_own (figure lines) o = absurd o

  pub Offers-inside_own : (v : View A) → Offers a v → Offers (f a) (inside f v)
  Offers-inside_own [] o = absurd o
  Offers-inside_own (i ∷ v) (inl o) = inl (ItemOffers-inside_own i o)
  Offers-inside_own (i ∷ v) (inr o) = inr (Offers-inside_own v o)
