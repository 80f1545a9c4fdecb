-- ===== src/Ui/NumberInput/View.antt =====
-- The properties that `NumberInput` gives to the native input (components/inputs/number-input.tsx).
use toolkit_inference_mesh.Common.{ℕ, ◌≡◌, refl, Option, none, some, List, [], ◌∷◌, get_or_else}
use toolkit_inference_mesh.Js.Text.{Text, lit}

-- `slotProps.input`: the properties that may be given, with the style as its entries.
pub record InputProps : Type 0 where
  pub step : Option ℕ
  pub minimum : Option ℕ
  pub sx : Option (List (Text × Text))

abbrev pub or_given {ℓ} : {A : Type ℓ} → Option A → A → Option A
or_given none a = some a
or_given (some b) a = some b

-- A spread of what is given over the defaults; a style that is given replaces the whole style.
unfoldable pub merged : InputProps → InputProps
merged given = record {
  step = or_given given.step 1;
  minimum = or_given given.minimum 1;
  sx = or_given given.sx ((lit "textAlign", lit "center") ∷ get_or_else given.sx []);
}

abbrev pub nothing_given : InputProps
nothing_given = record { step = none; minimum = none; sx = none }

-- The entry `input` of `slotProps`: the last spread puts what is given in the place of the merged one.
unfoldable pub slot_input : Option InputProps → InputProps
unfolding merged
slot_input none = merged nothing_given
slot_input (some given) = given

-- With no properties for the input the browser counts in steps of one from one; properties that are
-- given without these two leave the input without a step and a least number.
slot_input_drops :
    (sx : Option (List (Text × Text)))
    → ((slot_input none).minimum ≡ some 1)
      × ((slot_input none).step ≡ some 1)
      × ((slot_input (some (record { step = none; minimum = none; sx = sx }))).minimum ≡ none)
      × ((slot_input (some (record { step = none; minimum = none; sx = sx }))).step ≡ none)
unfolding slot_input
slot_input_drops sx = (refl, refl, refl, refl)
