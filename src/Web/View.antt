-- ===== src/Web/View.antt =====
-- What a component of apps/web/src/components renders: its texts and controls in the order of the
-- document. The elements that only group others, and the classes that do not depend on the state,
-- are left out. A text of next-intl is its key with its arguments.
pub mod Offers
pub mod Silence
use core_dashboard.Prelude.{
  ℕ, String, Bool, Option, none, some, List, [], ◌∷◌, ◌++◌, Text, if◌then◌else◌,
}

pub data Argument : Type 0 where
  count : ℕ → Argument
  words : String → Argument
  label : String → Argument

pub data Label : Type 0 where
  literal : String → Label
  letters : Text → Label
  number : ℕ → Label
  message : String → List (String × Argument) → Label

-- The class that a state gives to an element.
pub data Tone : Type 0 where
  plain muted success warning danger chosen : Tone

module _ (A : Type 0) where
  -- A text; a button, whether it is disabled, and what a click does; a choice between named values;
  -- a field with its value; and a chart with the names of its lines.
  pub data Item : Type 0 where
    text : Tone → Label → Item
    button : Bool → Tone → Label → A → Item
    choice : List (Label × A) → Item
    field : Label → Text → (Text → A) → Item
    figure : List String → Item

  abbrev pub View : Type 0
  View = List Item

module _ {A : Type 0} where
  abbrev pub said : Label → View A
  said l = text plain l ∷ []

  -- `{test && view}`.
  abbrev pub when : Bool → View A → View A
  when test view = if test then view else []

  -- `{values.map(...)}`.
  abbrev pub each {ℓ} : {B : Type ℓ} → (B → View A) → List B → View A
  each f [] = []
  each f (b ∷ bs) = f b ++ each f bs

module _ {A B : Type 0} (f : A → B) where
  abbrev pub inside_choices : List (Label × A) → List (Label × B)
  inside_choices [] = []
  inside_choices ((l, a) ∷ choices) = (l, f a) ∷ inside_choices choices

  abbrev pub inside_item : Item A → Item B
  inside_item (text tone l) = text tone l
  inside_item (button disabled tone l a) = button disabled tone l (f a)
  inside_item (choice choices) = choice (inside_choices choices)
  inside_item (field l value g) = field l value (λ t. f (g t))
  inside_item (figure lines) = figure lines

  -- A component inside another, whose state holds its own.
  abbrev pub inside : View A → View B
  inside [] = []
  inside (i ∷ view) = inside_item i ∷ inside view
