-- ===== src/Ui/TitleIcon/Laws.antt =====
-- The color of the icon of a dialog.
use toolkit_inference_mesh.Common.{◌≡◌, refl, arith}
use toolkit_inference_mesh.Ui.Dialog.View
use toolkit_inference_mesh.Ui.TitleIcon.{
  Color, inherited, main, root_color, default, primary, secondary, error, info, success, warning,
}

-- The color of a dialog as one of its icon.
abbrev pub of_dialog : View.Color → Color
of_dialog View.primary = primary
of_dialog View.secondary = secondary
of_dialog View.error = error
of_dialog View.info = info
of_dialog View.success = success
of_dialog View.warning = warning

-- The icon of a dialog has the main color of the palette that the dialog asks for.
pub root_color-of_dialog : (c : View.Color) → root_color (of_dialog c) ≡ main (of_dialog c)
unfolding root_color
root_color-of_dialog c = ground arith

-- An icon of the default color inherits it: the style that is meant for this color is in no entry.
pub root_color_default : root_color default ≡ inherited
unfolding root_color
root_color_default = refl
