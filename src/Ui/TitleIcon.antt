-- ===== src/Ui/TitleIcon.antt =====
-- `TitleIcon` of components/mui/title-icon: its color, and the form of its outline.
pub mod Laws
use toolkit_inference_mesh.Common.{ℕ, ◌==◌, List, [], ◌∷◌, if◌then◌else◌}

pub data Color : Type 0 where
  default inherit primary secondary error info success warning : Color

pub data Variant : Type 0 where
  circle square : Variant

-- `COLORS`
abbrev pub colors : List Color
colors = inherit ∷ primary ∷ secondary ∷ error ∷ info ∷ success ∷ warning ∷ []

-- A value of the style's property `color`.
pub data CssColor : Type 0 where
  inherited text_primary : CssColor
  main : Color → CssColor

abbrev pub color_index : Color → ℕ
color_index default = 0
color_index inherit = 1
color_index primary = 2
color_index secondary = 3
color_index error = 4
color_index info = 5
color_index success = 6
color_index warning = 7

-- The style of the entry of a color.
abbrev pub entry_color : Color → CssColor
entry_color inherit = inherited
entry_color default = text_primary
entry_color primary = main primary
entry_color secondary = main secondary
entry_color error = main error
entry_color info = main info
entry_color success = main success
entry_color warning = main warning

-- The entries of `variants` that fit are applied over the style, a later one over an earlier.
abbrev pub with_variants : List Color → Color → CssColor → CssColor
with_variants [] c style = style
with_variants (e ∷ es) c style =
    with_variants es c (if color_index e == color_index c then entry_color e else style)

-- The color of the root, whose own style inherits it.
unfoldable pub root_color : Color → CssColor
root_color c = with_variants colors c inherited

-- The radius of the two outlines: half of the width, or a length in hundredths.
pub data Radius : Type 0 where
  half : Radius
  hundredths_rem hundredths_em : ℕ → Radius

abbrev pub outer_radius : Variant → Radius
outer_radius circle = half
outer_radius square = hundredths_rem 38

abbrev pub inner_radius : Variant → Radius
inner_radius circle = half
inner_radius square = hundredths_em 25
