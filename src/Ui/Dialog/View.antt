-- ===== src/Ui/Dialog/View.antt =====
-- What `AlertDialog` renders (components/mui/dialog/alert-dialog.tsx). A node of React is a text
-- here, and a missing one, or one that counts as false, is none.
pub mod Laws
use toolkit_inference_mesh.Common.{
  is_some, Bool, true, false, ◌&&◌, ◌||◌, not, Option, none, some, List, [], ◌∷◌, ◌++◌,
  if◌then◌else◌,
}
use toolkit_inference_mesh.Js.Text.{Text}
use toolkit_inference_mesh.Ui.Dialog.{Dialog}

pub data Color : Type 0 where
  primary secondary error info success warning : Color

pub data Icon : Type 0 where
  info_circle alert_circle circle_check : Icon

-- `COLOR_ICON_MAP`
abbrev pub color_icon : Color → Icon
color_icon primary = info_circle
color_icon secondary = info_circle
color_icon info = info_circle
color_icon error = alert_circle
color_icon warning = alert_circle
color_icon success = circle_check

-- The property `titleIcon`: `'form'`, `true`, a node, or a value that counts as false.
pub data TitleIconProp : Type 0 where
  form_icon color_of_dialog no_icon : TitleIconProp
  icon_node : Text → TitleIconProp

-- The properties, after their defaults; of the handlers of the form, whether they are given.
pub record Props : Type 0 where
  pub title_id : Option Text
  pub title : Text
  pub content_id : Option Text
  pub content : Text
  pub color : Color
  pub title_icon_color : Color
  pub title_icon : TitleIconProp
  pub cancel_label : Option Text
  pub confirm_label : Option Text
  pub submit_label : Option Text
  pub has_on_submit_valid : Bool
  pub has_handle_submit : Bool
  pub secondary_action : Option Text

pub data ButtonKey : Type 0 where
  cancel confirm submit : ButtonKey

pub record Button : Type 0 where
  pub key : ButtonKey
  pub label : Text
  pub color : Option Color
  pub loading : Bool
  pub full_width : Bool

abbrev pub button : ButtonKey → Option Color → Bool → Option Text → List Button
button key color loading none = []
button key color loading (some label) =
    record { key = key; label = label; color = color; loading = loading; full_width = false } ∷ []

-- `actionButtonPropsList`
unfoldable pub action_buttons : Props → Bool → List Button
action_buttons p loading =
    button cancel (some secondary) loading p.cancel_label
    ++ (button confirm (some p.color) loading p.confirm_label
        ++ button submit none loading p.submit_label)

-- A button that stands alone takes the full width.
abbrev pub spread : List Button → List Button
spread [] = []
spread (b ∷ []) = record b { full_width = true } ∷ []
spread (b ∷ c ∷ bs) = b ∷ c ∷ bs

-- Whether `formProps` is set.
unfoldable pub has_form : Props → Bool
has_form p = is_some p.submit_label && (p.has_handle_submit && p.has_on_submit_valid)

pub data TitleIcon : Type 0 where
  title_icon_form : TitleIcon
  title_icon_circle : Color → TitleIcon
  -- with an icon of the map, or with a node
  with_slot : Color → Icon → TitleIcon
  with_node : Color → Text → TitleIcon

abbrev pub title_icon_of : Props → TitleIconProp → TitleIcon
title_icon_of p form_icon = title_icon_form
title_icon_of p color_of_dialog = with_slot p.title_icon_color (color_icon p.color)
title_icon_of p (icon_node t) = with_node p.title_icon_color t
title_icon_of p no_icon = title_icon_circle p.title_icon_color

abbrev pub has_icon : TitleIconProp → Bool
has_icon no_icon = false
has_icon form_icon = true
has_icon color_of_dialog = true
has_icon (icon_node t) = true

-- An element with an id and a text.
pub record Labelled : Type 0 where
  pub id : Option Text
  pub text : Text

-- The elements of the dialog, in order. The id of the title bar is `(!SlotIcon && titleId)`, and the
-- map has an icon for every color, so it is missing.
pub record View : Type 0 where
  pub is_open : Bool
  pub is_form : Bool
  pub labelled_by : Option Text
  pub described_by : Option Text
  pub title_icon : TitleIcon
  pub bar_id : Option Text
  pub bar_title : Option Text
  pub content_title : Option Labelled
  pub content : Labelled
  -- the secondary action with the buttons, where there are any
  pub actions : Option (Option Text × List Button)

abbrev pub actions_of : Option Text → List Button → Option (Option Text × List Button)
actions_of secondary_action [] = none
actions_of secondary_action (b ∷ bs) = some (secondary_action, spread (b ∷ bs))

unfoldable pub view : Props → Dialog → View
unfolding action_buttons has_form
view p d = record {
  is_open = d.is_open;
  is_form = has_form p;
  labelled_by = p.title_id;
  described_by = p.content_id;
  title_icon = title_icon_of p p.title_icon;
  bar_id = none;
  bar_title = if has_icon p.title_icon then none else some p.title;
  content_title =
      if has_icon p.title_icon then some (record { id = p.title_id; text = p.title }) else none;
  content = record { id = p.content_id; text = p.content };
  actions = actions_of p.secondary_action (action_buttons p d.loading);
}

-- In development, the properties of a form are checked first; none is an error that is thrown.
unfoldable pub alert_dialog : Bool → Props → Dialog → Option View
unfolding view
alert_dialog is_dev p d =
    if is_dev && (is_some p.submit_label && (not p.has_handle_submit || not p.has_on_submit_valid))
    then none
    else some (view p d)
