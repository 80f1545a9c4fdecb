-- ===== src/Ui/Button.antt =====
-- The styles of buttons that themes/components/form/button.ts computes: the shadows and colors by
-- variant and color, and the measures by size. Lengths are thousandths of a rem, exactly as written
-- there; `theme` is the component library's, and its entries stand here by their names.
pub mod Laws
pub mod Icon
use Prim.Native.Nat.{◌/◌}
use toolkit_inference_mesh.Common.{
  ℕ, ◌*◌, ◌&&◌, Option, some, none, List, [], ◌∷◌, map, concat, filter, get_or_else, ◌==◌,
}

-- The colors of a button; `inherit` is the library's own, which the theme does not style.
pub data Color : Type 0 where
  brand primary secondary error info success warning inherit : Color

pub data Variant : Type 0 where
  text outlined contained contained_rounded contained_square contained_circle : Variant

pub data Size : Type 0 where
  small medium large : Size

-- `COLORS`
abbrev pub colors : List Color
colors = brand ∷ primary ∷ secondary ∷ error ∷ info ∷ success ∷ warning ∷ []

-- `SIZES`
abbrev pub sizes : List Size
sizes = small ∷ medium ∷ large ∷ []

abbrev pub contained_variants : List Variant
contained_variants = contained ∷ contained_rounded ∷ contained_square ∷ contained_circle ∷ []

-- The entries of `theme.overlays`.
pub data Overlay : Type 0 where
  button_shade_default button_shade_active_dark button_shade_active_light : Overlay
  button_shade_brand button_shade_error : Overlay

-- `colorShadowMap`
abbrev pub color_shadow_map : Color → Option Overlay
color_shadow_map primary = some button_shade_active_dark
color_shadow_map secondary = some button_shade_active_light
color_shadow_map brand = some button_shade_brand
color_shadow_map error = some button_shade_error
color_shadow_map info = none
color_shadow_map success = none
color_shadow_map warning = none
color_shadow_map inherit = none

-- The entries of a color of the palette, and the text that is disabled.
pub data Shade : Type 0 where
  contrast_text darker main light lighter : Color → Shade
  text_disabled : Shade

-- A property in each state of a button.
pub record Shadows : Type 0 where
  pub normal : Overlay
  pub hover : Overlay
  pub active : Overlay
  pub disabled : Overlay

pub record Colors : Type 0 where
  pub color : Shade
  pub border_color : Shade
  pub background : Shade
  pub hover_background : Shade
  pub active_background : Shade
  pub disabled_color : Shade
  pub disabled_border : Shade
  pub disabled_background : Shade

-- An entry of `variants`: a style, and the properties it is for.
pub record Entry (S : Type 0) : Type 0 where
  pub variant : Variant
  pub color : Color
  pub style : S

abbrev pub shadows_of : Color → Shadows
shadows_of c = record {
  normal = button_shade_default;
  hover = button_shade_default;
  active = get_or_else (color_shadow_map c) button_shade_active_light;
  disabled = button_shade_default;
}

abbrev pub colors_of : Color → Colors
colors_of c = record {
  color = contrast_text c;
  border_color = darker c;
  background = main c;
  hover_background = light c;
  active_background = main c;
  disabled_color = text_disabled;
  disabled_border = lighter c;
  disabled_background = lighter c;
}

-- An entry for each color and each contained variant.
abbrev pub entries : {S : Type 0} → (Color → S) → List (Entry S)
entries style = concat (
    map (λ c. map (λ v. record { variant = v; color = c; style = style c }) contained_variants)
      colors)

abbrev pub contained_box_shadow_variants : List (Entry Shadows)
contained_box_shadow_variants = entries shadows_of

abbrev pub contained_color_variants : List (Entry Colors)
contained_color_variants = entries colors_of

abbrev pub color_index : Color → ℕ
color_index brand = 0
color_index primary = 1
color_index secondary = 2
color_index error = 3
color_index info = 4
color_index success = 5
color_index warning = 6
color_index inherit = 7

abbrev pub variant_index : Variant → ℕ
variant_index text = 0
variant_index outlined = 1
variant_index contained = 2
variant_index contained_rounded = 3
variant_index contained_square = 4
variant_index contained_circle = 5

-- The styles of the entries that are for a button: the library applies each one whose properties
-- the button has.
abbrev pub applied : {S : Type 0} → Variant → Color → List (Entry S) → List S
applied v c es =
    map (λ e. e.style)
      (filter
        (λ e. variant_index e.variant == variant_index v && color_index e.color == color_index c)
        es)

-- `INPUT_SIZE_REM_MAP`, `SIZE_PADDING_INLINE_REM_MAP` and `INPUT_ICON_SIZE_REM_MAP`
abbrev pub size_rem : Size → ℕ
size_rem small = 2250
size_rem medium = 2750
size_rem large = 3500

abbrev pub padding_inline_rem : Size → ℕ
padding_inline_rem small = 875
padding_inline_rem medium = 1125
padding_inline_rem large = 1500

abbrev pub icon_size_rem : Size → ℕ
icon_size_rem small = 1000
icon_size_rem medium = 1250
icon_size_rem large = 1500

pub data Typography : Type 0 where
  subtitle2 h3 : Typography

abbrev pub typography_of : Size → Typography
typography_of small = subtitle2
typography_of medium = h3
typography_of large = h3

-- `sizeSmall`, `sizeMedium` and `sizeLarge`: the style of a size, with those of the text, the
-- rounded, the square and the circle variant in it; a text button is one line high. The smallest width is a third of `min_width_thirds`, since
-- `MIN_WIDTH_MULTIPLY` is 3 / 2.25.
pub record SizeStyle : Type 0 where
  pub min_width_thirds : ℕ
  pub height : ℕ
  pub typography : Typography
  pub padding_inline : ℕ
  pub text_min_width : ℕ
  pub text_height_lines : ℕ
  pub text_padding_inline : ℕ
  pub rounded_radius : ℕ
  pub square_width : ℕ
  pub square_padding_inline : ℕ
  pub circle_width : ℕ
  pub circle_radius_percent : ℕ
  pub circle_padding_inline : ℕ

unfoldable pub size_style : Size → SizeStyle
size_style s = record {
  min_width_thirds = 4 * size_rem s;
  height = size_rem s;
  typography = typography_of s;
  padding_inline = padding_inline_rem s;
  text_min_width = 0;
  text_height_lines = 1;
  text_padding_inline = 0;
  rounded_radius = size_rem s / 2;
  square_width = size_rem s;
  square_padding_inline = 0;
  circle_width = size_rem s;
  circle_radius_percent = 50;
  circle_padding_inline = 0;
}
