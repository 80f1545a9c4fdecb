-- ===== src/Ui/ModelSelect/View/Laws.antt =====
-- The name that the select shows.
use toolkit_inference_mesh.Common.{
  All, ◌∙◌, ◌≡◌, List, [], ◌∷◌, Bool-cases, find, refl, inl, inr, some, map,
}
use toolkit_inference_mesh.Js.Text.{Text, text_eq}
use toolkit_inference_mesh.Ui.ModelSelect.View.{
  Value, row, plain, SelectVariant, outlined, text_variant, value_of, render_value,
}
use toolkit_inference_mesh.Cluster.Config.{RawModel, to_model_info}
use toolkit_inference_mesh.Cluster.Info.{ModelInfo}
use toolkit_inference_mesh.Js.Text.Laws.{text_eq_iff}

-- The texts of a value, without the logo.
abbrev pub names : Value → List Text
names (row logo display name) = display ∷ name ∷ []
names (plain t) = t ∷ []

value_of-names :
    (variant : SelectVariant) (value : Text) (m : ModelInfo)
    → m.name ≡ value
    → m.display_name ≡ m.name
    → All (λ t. t ≡ value) (names (value_of variant value (some m)))
value_of-names outlined value m n d = (d ∙ n, (n, tt))
value_of-names text_variant value m n d = (n, tt)

find-names :
    (variant : SelectVariant) (value : Text) (models : List ModelInfo)
    → All (λ m. m.display_name ≡ m.name) models
    → All
        (λ t. t ≡ value)
        (names (value_of variant value (find (λ m. text_eq m.name value) models)))
find-names variant value [] h = (refl, tt)
find-names variant value (m ∷ models) (d, ds) = elim (Bool-cases (text_eq m.name value)) [
  | inl y ↦ rw y (value_of-names variant value m ((text_eq_iff m.name value).0 y) d)
  | inr n ↦ rw n (find-names variant value models ds)
]

to_model_info-names :
    (urls : List (Text × Text)) (raw : List RawModel)
    → All (λ m. m.display_name ≡ m.name) (map (to_model_info urls) raw)
unfolding to_model_info
to_model_info-names urls [] = tt
to_model_info-names urls (r ∷ raw) = (refl, to_model_info-names urls raw)

-- Whatever list of models was loaded, and before any was, the select shows the name of the
-- configured model and no other name, in both of its variants.
pub render_value-names :
    (urls : List (Text × Text)) (raw : List RawModel) (variant : SelectVariant) (value : Text)
    → All (λ t. t ≡ value) (names (render_value variant (map (to_model_info urls) raw) value))
unfolding render_value
render_value-names urls raw variant value =
    find-names variant value (map (to_model_info urls) raw) (to_model_info-names urls raw)
