-- ===== src/Ui/Button/Laws.antt =====
-- Which styles a button gets.
use toolkit_inference_mesh.Common.{
  ◌≡◌, refl, ◌*◌, ◌≤◌, arith, Bool, true, false, ◌&&◌, [], ◌∷◌, if◌then◌else◌,
}
use toolkit_inference_mesh.Ui.Button.{
  Color, Variant, Size, brand, primary, secondary, error, info, success, warning, inherit, text,
  outlined, contained, contained_rounded, contained_square, contained_circle, small, medium, large,
  contained_box_shadow_variants, contained_color_variants, entries, applied, shadows_of, colors_of,
  size_style,
}

abbrev pub is_contained : Variant → Bool
is_contained text = false
is_contained outlined = false
is_contained contained = true
is_contained contained_rounded = true
is_contained contained_square = true
is_contained contained_circle = true

abbrev pub is_styled : Color → Bool
is_styled inherit = false
is_styled brand = true
is_styled primary = true
is_styled secondary = true
is_styled error = true
is_styled info = true
is_styled success = true
is_styled warning = true

entries-applied :
    {S : Type 0} (style : Color → S) (v : Variant) (c : Color)
    → applied v c (entries style) ≡ (if is_contained v && is_styled c then style c ∷ [] else [])
entries-applied style v c = ground arith

-- A contained button of any of the theme's colors gets exactly one style for its shadows and one
-- for its colors, those of its color; a button of another variant, or one that inherits its color,
-- gets none of them.
pub applied-entries :
    (v : Variant) (c : Color)
    → (applied v c contained_box_shadow_variants
        ≡ (if is_contained v && is_styled c then shadows_of c ∷ [] else []))
      × (applied v c contained_color_variants
          ≡ (if is_contained v && is_styled c then colors_of c ∷ [] else []))
applied-entries v c = (entries-applied shadows_of v c, entries-applied colors_of v c)

-- In every size, a square and a circle button are as wide as they are high, without padding; a
-- rounded button is round at its sides, its radius being half of its height; and no other button is
-- narrower than it is high.
pub size_style-widths :
    (s : Size)
    → ((size_style s).square_width ≡ (size_style s).height)
      × ((size_style s).circle_width ≡ (size_style s).height)
      × (2 * (size_style s).rounded_radius ≡ (size_style s).height)
      × (3 * (size_style s).height ≤ (size_style s).min_width_thirds)
unfolding size_style
size_style-widths small = (refl, refl, refl, omega arith)
size_style-widths medium = (refl, refl, refl, omega arith)
size_style-widths large = (refl, refl, refl, omega arith)
