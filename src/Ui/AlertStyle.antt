-- ===== src/Ui/AlertStyle.antt =====
-- The styles of alerts that depend on the variant and the severity (themes/components/feedback/
-- alert.tsx). The entries of the palette stand by their names.
pub mod Laws
use toolkit_inference_mesh.Common.{
  Bool, true, false, Option, none, some, List, [], ◌∷◌, ◌++◌, map, ℕ,
}

pub data Severity : Type 0 where
  error warning info success : Severity

pub data Variant : Type 0 where
  outlined standard notification : Variant

-- `COLORS`
abbrev pub colors : List Severity
colors = error ∷ warning ∷ info ∷ success ∷ []

-- `iconMapping`
pub data Icon : Type 0 where
  icon_info_circle icon_circle_check icon_alert_circle : Icon

abbrev pub icon_mapping : Severity → Icon
icon_mapping info = icon_info_circle
icon_mapping success = icon_circle_check
icon_mapping warning = icon_alert_circle
icon_mapping error = icon_alert_circle

pub data Shade : Type 0 where
  text_secondary text_disabled background_default background_area divider : Shade
  main lighter : Severity → Shade

pub data Align : Type 0 where
  flex_start stretch : Align

-- A style of the root; `none` where an entry leaves a property to the others. The gap is in halves of
-- the theme's spacing; `wraps` stands for wrapping with the contents spread, `flat` for no padding.
pub record Style : Type 0 where
  pub color : Option Shade
  pub background : Option Shade
  pub border_color : Option Shade
  pub borderless : Bool
  pub align : Option Align
  pub gap : Option ℕ
  pub wraps : Bool
  pub flat : Bool

-- An entry of `variants`: without a severity it is for all of them.
pub record Entry : Type 0 where
  pub variant : Variant
  pub severity : Option Severity
  pub style : Style

abbrev pub outlined_style : Style
outlined_style = record {
  color = some text_secondary;
  background = some background_default;
  border_color = some divider;
  borderless = false;
  align = none;
  gap = none;
  wraps = false;
  flat = false;
}

-- `(color === 'info' && palette.text.disabled) || palette[color].main`, and in the same way the
-- background.
abbrev pub standard_color : Severity → Shade
standard_color info = text_disabled
standard_color s = main s

abbrev pub standard_background : Severity → Shade
standard_background info = background_area
standard_background s = lighter s

abbrev pub standard_style : Severity → Style
standard_style s = record {
  color = some (standard_color s);
  background = some (standard_background s);
  border_color = none;
  borderless = true;
  align = some flex_start;
  gap = some 1;
  wraps = false;
  flat = false;
}

abbrev pub notification_style : Style
notification_style = record {
  color = none;
  background = none;
  border_color = none;
  borderless = false;
  align = some stretch;
  gap = some 0;
  wraps = true;
  flat = true;
}

unfoldable pub variants : List Entry
variants =
    map (λ s. record { variant = outlined; severity = some s; style = outlined_style }) colors
    ++ map (λ s. record { variant = standard; severity = some s; style = standard_style s }) colors
    ++ record { variant = notification; severity = none; style = notification_style } ∷ []
