-- ===== src/Ui/AlertStyle/Laws.antt =====
-- Which style an alert has.
use toolkit_inference_mesh.Common.{
  ◌≡◌, refl, Bool, true, false, ◌&&◌, Option, none, some, List, [], ◌∷◌, map, filter,
}
use toolkit_inference_mesh.Ui.AlertStyle.{
  Severity, Variant, Entry, Style, variants, error, warning, info, success, outlined, standard,
  notification, outlined_style, standard_style, notification_style,
}

abbrev same_severity : Severity → Severity → Bool
same_severity error error = true
same_severity warning warning = true
same_severity info info = true
same_severity success success = true
same_severity _ _ = false

abbrev same_variant : Variant → Variant → Bool
same_variant outlined outlined = true
same_variant standard standard = true
same_variant notification notification = true
same_variant _ _ = false

abbrev fits_severity : Option Severity → Severity → Bool
fits_severity none s = true
fits_severity (some t) s = same_severity t s

-- The library applies each entry whose properties the alert has.
unfoldable applied : Variant → Severity → List Entry → List Style
applied v s entries =
    map (λ e. e.style)
      (filter (λ e. same_variant e.variant v && fits_severity e.severity s) entries)

abbrev style_of : Variant → Severity → Style
style_of outlined s = outlined_style
style_of standard s = standard_style s
style_of notification s = notification_style

-- Every alert has exactly one of the styles: an outlined one has the neutral colors whatever its
-- severity, and a standard one those of its severity.
applied-variants : (v : Variant) (s : Severity) → applied v s variants ≡ style_of v s ∷ []
unfolding applied variants
applied-variants outlined error = refl
applied-variants outlined warning = refl
applied-variants outlined info = refl
applied-variants outlined success = refl
applied-variants standard error = refl
applied-variants standard warning = refl
applied-variants standard info = refl
applied-variants standard success = refl
applied-variants notification error = refl
applied-variants notification warning = refl
applied-variants notification info = refl
applied-variants notification success = refl
