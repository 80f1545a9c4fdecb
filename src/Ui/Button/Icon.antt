-- ===== src/Ui/Button/Icon.antt =====
-- The measures of icon buttons (`MuiIconButton` of themes/components/form/button.ts).
use toolkit_inference_mesh.Common.{ℕ, Option, none, some}
use toolkit_inference_mesh.Ui.Button
use toolkit_inference_mesh.Ui.Button.{size_rem, icon_size_rem}

-- The sizes of the theme, and those of the library's buttons.
pub data IconSize : Type 0 where
  mini em lh : IconSize
  sized : Button.Size → IconSize

-- In `rem` a length is in thousandths.
pub data Length : Type 0 where
  one_em one_lh inherited : Length
  rem : ℕ → Length

pub record IconStyle : Type 0 where
  pub width : Length
  pub height : Length
  pub font_size : Length
  -- the radius where the size has its own
  pub radius : Option ℕ

unfoldable pub icon_style : IconSize → IconStyle
icon_style mini = record {
  width = one_em;
  height = one_em;
  font_size = rem 1000;
  radius = some 250;
}
icon_style em = record { width = one_em; height = one_em; font_size = inherited; radius = some 250 }
icon_style lh = record { width = one_lh; height = one_lh; font_size = one_lh; radius = some 250 }
icon_style (sized s) = record {
  width = rem (size_rem s);
  height = rem (size_rem s);
  font_size = rem (icon_size_rem s);
  radius = none;
}

-- The text color by the color of the button, as a shade of grey; another color has none here.
pub data IconColor : Type 0 where
  primary_color secondary_color info_color other_color : IconColor

abbrev pub grey_shade : IconColor → Option ℕ
grey_shade primary_color = some 800
grey_shade secondary_color = some 500
grey_shade info_color = some 700
grey_shade other_color = none
