-- ===== src/Tests/Dialog.antt =====
-- A dialog of two buttons, and a component that has been rendered twice.
use toolkit_inference_mesh.Common.{◌≡◌, refl, [], ◌∷◌, some, none, true, any, false, map}
use toolkit_inference_mesh.Js.Text.{lit}
use toolkit_inference_mesh.Ui.Dialog.{mounted}
use toolkit_inference_mesh.Ui.Dialog.View.{Props, color_of_dialog, alert_dialog, view, View}
use toolkit_inference_mesh.Ui.Dialog.View
use toolkit_inference_mesh.Ui.Dialog.View.Laws.{alert_dialog-is_form, is_submit, shown_buttons}
use toolkit_inference_mesh.Ui.Drawer.View.{dialog_props, waiting}
use toolkit_inference_mesh.Ui.Drawer.View.Laws.{dialog_props-run, event_of, opens, confirmed}
use toolkit_inference_mesh.Ui.Dialog.{run}

abbrev form_props : Props
form_props = record {
  title_id = none;
  title = lit "Title";
  content_id = none;
  content = lit "Content";
  color = View.primary;
  title_icon_color = View.warning;
  title_icon = color_of_dialog;
  cancel_label = some (lit "Cancel");
  confirm_label = none;
  submit_label = some (lit "Save");
  has_on_submit_valid = true;
  has_handle_submit = true;
  secondary_action = none;
}

alert_dialog-is_form_example :
    any is_submit (shown_buttons (view form_props mounted)) ≡ (view form_props mounted).is_form
unfolding alert_dialog
alert_dialog-is_form_example =
    alert_dialog-is_form form_props mounted (view form_props mounted) refl

dialog_props-run_example :
    (v : View.View) × (alert_dialog false
        (dialog_props (λ k. lit "content") waiting)
        (run mounted (map event_of (opens ∷ confirmed ∷ []))).0
      ≡ some v)
    × (v.is_open ≡ false)
    × (shown_buttons v
        ≡ record {
          key = View.confirm;
          label = lit "Finish";
          color = some View.primary;
          loading = false;
          full_width = true;
        }
          ∷ [])
dialog_props-run_example =
    dialog_props-run (λ k. lit "content") false waiting (opens ∷ []) confirmed
