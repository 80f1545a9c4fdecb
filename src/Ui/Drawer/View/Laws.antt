-- ===== src/Ui/Drawer/View/Laws.antt =====
-- The dialogs of the layout can be closed.
use toolkit_inference_mesh.Common.{
  ◌≡◌, refl, Bool, true, false, some, List, [], ◌∷◌, ◌++◌, map, arith,
}
use toolkit_inference_mesh.Js.Text.{Text, lit}
use toolkit_inference_mesh.Ui.Dialog.{Event, mounted, run, step, dispatch, Dialog}
use toolkit_inference_mesh.Ui.Dialog
use toolkit_inference_mesh.Ui.Dialog.View
use toolkit_inference_mesh.Ui.Dialog.View.{alert_dialog, view, action_buttons, has_form, View}
use toolkit_inference_mesh.Ui.Dialog.View.Laws.{shown_buttons}
use toolkit_inference_mesh.Ui.Drawer.View.{Kind, dialog_props, confirm}

-- What happens to a dialog of the layout: it opens, and is dismissed or confirmed.
pub data LayoutEvent : Type 0 where
  opens dismissed confirmed : LayoutEvent

abbrev pub event_of : LayoutEvent → Event
event_of opens = Dialog.open_dialog
event_of dismissed = Dialog.dismiss
event_of confirmed = confirm

abbrev pub opened_by : LayoutEvent → Bool
opened_by opens = true
opened_by dismissed = false
opened_by confirmed = false

step-layout :
    (d : Dialog.Dialog) (e : LayoutEvent)
    → d.loading ≡ false
    → (step d (event_of e)).0 ≡ record d { is_open = opened_by e }
unfolding step dispatch Dialog.safe_on_close Dialog.pipe_handlers Dialog.finish Dialog.on_close
    Dialog.handle_action_result
step-layout d opens h = refl
step-layout d dismissed h = rw h refl
step-layout d confirmed h = rw h refl

run-layout :
    (d : Dialog.Dialog) (es : List LayoutEvent) (e : LayoutEvent)
    → d.loading ≡ false
    → ((run d (map event_of (es ++ e ∷ []))).0.is_open ≡ opened_by e)
      × ((run d (map event_of (es ++ e ∷ []))).0.loading ≡ false)
unfolding run
run-layout d [] e h = rw (run, step-layout d e h) (refl, h)
run-layout d (x ∷ es) e h =
    rw (run, step-layout d x h) (run-layout (record d { is_open = opened_by x }) es e h)

-- The dialogs of the layout never lock: each shows exactly one button, `Finish`, which takes the
-- full width and is not in its loading state, and whatever happened before, the dialog is open
-- exactly if it was opened after it was last dismissed or confirmed.
pub dialog_props-run :
    (content : Kind → Text) (is_dev : Bool) (k : Kind) (es : List LayoutEvent) (e : LayoutEvent)
    → (v : View.View) × (alert_dialog is_dev
          (dialog_props content k)
          (run mounted (map event_of (es ++ e ∷ []))).0
        ≡ some v)
      × (v.is_open ≡ opened_by e)
      × (shown_buttons v
          ≡ record {
            key = View.confirm;
            label = lit "Finish";
            color = some View.primary;
            loading = false;
            full_width = true;
          }
            ∷ [])
unfolding alert_dialog view action_buttons has_form dialog_props
dialog_props-run content is_dev k es e =
    let d = (run mounted (map event_of (es ++ e ∷ []))).0 in
    let (shown, idle) = run-layout mounted es e refl in
    (view (dialog_props content k) d, ground arith, shown, rw idle refl)
