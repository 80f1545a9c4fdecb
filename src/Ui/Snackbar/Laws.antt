-- ===== src/Ui/Snackbar/Laws.antt =====
-- What a snack shows.
use toolkit_inference_mesh.Common.{
  is_some, ℕ, ◌≡◌, refl, Bool, true, false, any, ltb, ◌&&◌, Option, some, none, arith, ◌||◌,
  if◌then◌else◌,
}
use toolkit_inference_mesh.Js.Text.{Text, lit}
use toolkit_inference_mesh.Ui.Notification
use toolkit_inference_mesh.Ui.Notification.{
  notification, other_variant, Part, title_part, children_part, countdown_part, bottom_actions,
  side_actions, render, node_actions, countdown,
}
use toolkit_inference_mesh.Ui.Snackbar.{
  Snack, simple, is_notification, is_closable, duration_of, call_action,
}

abbrev pub is_countdown : Part → Bool
is_countdown (countdown_part n) = true
is_countdown (title_part t) = false
is_countdown (children_part t) = false
is_countdown (bottom_actions ts) = false
is_countdown (side_actions ts) = false

abbrev pub has_actions : Part → Bool
has_actions (bottom_actions ts) = true
has_actions (side_actions ts) = true
has_actions (countdown_part n) = false
has_actions (title_part t) = false
has_actions (children_part t) = false

abbrev notification_props :
    Bool → Option Text → Option Text → Option Text → Bool → ℕ → Notification.Props
notification_props b title children action dismiss n = record {
  variant = if b then notification else other_variant;
  title = title;
  children = children;
  action = action;
  has_on_dismiss = dismiss;
  dismiss_label = lit "Dismiss";
  auto_hide_duration = n;
}

parts_of :
    (b dismiss : Bool) (title children action : Option Text) (n : ℕ)
    → (any is_countdown (render (notification_props b title children action dismiss n))
        ≡ (b && ltb 0 n))
      × (any has_actions (render (notification_props b title children action dismiss n))
          ≡ (dismiss || is_some action))
unfolding render node_actions
parts_of b dismiss title children action n = (ground arith, ground arith)

-- A snack shows a countdown exactly if it is a notification, which it is unless it says otherwise,
-- and hides by itself after a time; it shows actions exactly if it can be dismissed or has an
-- action of its own; and only its own id is ever closed by its cross and its dismiss button.
pub simple-parts :
    (s : Snack)
    → (any is_countdown (render (simple s).props)
        ≡ (is_notification s && ltb 0 (duration_of s.auto_hide_duration)))
      × (any has_actions (render (simple s).props)
          ≡ (s.dismiss_able || is_some (call_action s.action s.id)))
      × ((simple s).on_close ≡ (if is_closable s then some s.id else none))
unfolding render simple node_actions
simple-parts s =
    let (countdown, actions) =
      parts_of (is_notification s) s.dismiss_able s.title s.message (call_action s.action s.id)
        (duration_of s.auto_hide_duration) in
    (countdown, actions, refl)
