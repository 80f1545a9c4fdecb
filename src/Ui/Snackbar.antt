-- ===== src/Ui/Snackbar.antt =====
-- `Simple` of themes/components/feedback/notistack.tsx, which hands a snack of notistack on to
-- `Notification`, and the settings of its `Provider`. A node of React is a text, as in
-- `Ui.Notification`.
pub mod Laws
use toolkit_inference_mesh.Common.{ℕ, Bool, true, Option, some, none, if◌then◌else◌, not}
use toolkit_inference_mesh.Js.Text.{Text, lit}
use toolkit_inference_mesh.Ui.Notification
use toolkit_inference_mesh.Ui.Notification.{notification, other_variant}

pub data Variant : Type 0 where
  default info success warning error : Variant

pub data Severity : Type 0 where
  info_severity success_severity warning_severity error_severity : Severity

-- The property `action`: a node, or a function of the snack's id.
pub data Action : Type 0 where
  action_node : Option Text → Action
  action_function : (Text → Option Text) → Action

-- Of a snack, the properties that `Simple` reads; an option that is missing is none.
pub record Snack : Type 0 where
  pub id : Text
  pub variant : Variant
  pub title : Option Text
  pub message : Option Text
  pub action : Action
  pub notification : Option Bool
  pub closable : Option Bool
  pub dismiss_able : Bool
  pub auto_hide_duration : Option ℕ
  pub hide_icon_variant : Bool

abbrev pub severity_of : Variant → Severity
severity_of default = info_severity
severity_of info = info_severity
severity_of success = success_severity
severity_of warning = warning_severity
severity_of error = error_severity

-- `typeof propsAction === 'function' ? propsAction(id) : propsAction`
abbrev pub call_action : Action → Text → Option Text
call_action (action_node t) id = t
call_action (action_function f) id = f id

-- A property with a default.
abbrev pub or_default : Option Bool → Bool → Bool
or_default none b = b
or_default (some b') b = b'

abbrev pub is_notification : Snack → Bool
is_notification s = or_default s.notification true

abbrev pub is_closable : Snack → Bool
is_closable s = or_default s.closable (is_notification s)

-- `propsAutoHideDuration || undefined`, where 0 stands for none.
abbrev pub duration_of : Option ℕ → ℕ
duration_of none = 0
duration_of (some n) = n

-- What `Notification` gets; `on_close` and `on_dismiss` hold the id that they close.
pub record Simple : Type 0 where
  pub severity : Severity
  pub has_icon : Bool
  pub on_close : Option Text
  pub on_dismiss : Option Text
  pub props : Notification.Props

unfoldable pub simple : Snack → Simple
simple s = record {
  severity = severity_of s.variant;
  has_icon = not s.hide_icon_variant;
  on_close = if is_closable s then some s.id else none;
  on_dismiss = if s.dismiss_able then some s.id else none;
  props = record {
    variant = if is_notification s then notification else other_variant;
    title = s.title;
    children = s.message;
    action = call_action s.action s.id;
    has_on_dismiss = s.dismiss_able;
    dismiss_label = lit "Dismiss";
    auto_hide_duration = duration_of s.auto_hide_duration;
  };
}

-- `maxSnack` and `autoHideDuration` of the `Provider`.
abbrev pub max_snack : ℕ
max_snack = 5

abbrev pub provider_auto_hide_duration : ℕ
provider_auto_hide_duration = 5000
