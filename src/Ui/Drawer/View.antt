-- ===== src/Ui/Drawer/View.antt =====
-- What `DrawerLayout` renders (components/common/drawer-layout.tsx): its side, and its dialogs. The
-- contents of the dialogs, which hold other components, are the parameter `content`.
pub mod Laws
use toolkit_inference_mesh.Common.{Bool, true, false, none, some, List, [], ◌∷◌, ◌++◌, not}
use toolkit_inference_mesh.Js.Text.{Text, lit}
use toolkit_inference_mesh.Ui.NodeList.{ListVariant, menu}
use toolkit_inference_mesh.Ui.Dialog.{Event, Dialog}
use toolkit_inference_mesh.Ui.Dialog
use toolkit_inference_mesh.Ui.Dialog.View
use toolkit_inference_mesh.Ui.Dialog.View.{Props, TitleIconProp, View}

pub data SidePart : Type 0 where
  brand collapse_button expand_button topology_title add_nodes_button : SidePart
  node_list : ListVariant → SidePart

-- The head of the side: the logo, and the button that turns `sidebarExpanded` over.
abbrev pub side_head : Bool → List SidePart
side_head true = brand ∷ collapse_button ∷ []
side_head false = brand ∷ expand_button ∷ []

abbrev pub side_body : Bool → List SidePart
side_body true = topology_title ∷ node_list menu ∷ add_nodes_button ∷ []
side_body false = []

unfoldable pub side : Bool → List SidePart
side sidebar_expanded = side_head sidebar_expanded ++ side_body sidebar_expanded

-- `setMenuOpen((prev) => !prev)`
abbrev pub toggle : Bool → Bool
toggle sidebar_expanded = not sidebar_expanded

-- The dialogs, in the order in which they are rendered.
pub data Kind : Type 0 where
  join_command waiting rebalancing failed need_more_nodes : Kind

abbrev pub dialogs : List Kind
dialogs = join_command ∷ waiting ∷ rebalancing ∷ failed ∷ need_more_nodes ∷ []

abbrev pub dialog_title : Kind → Text
dialog_title join_command = lit "Add New Nodes"
dialog_title waiting = lit "Reconnect your nodes"
dialog_title rebalancing = []
dialog_title failed = []
dialog_title need_more_nodes = []

-- `titleIcon`, which is `true` where it is not given; icons stand by their names.
abbrev pub dialog_icon : Kind → TitleIconProp
dialog_icon join_command = View.icon_node (lit "IconCirclePlus")
dialog_icon waiting = View.icon_node (lit "IconInfoCircle")
dialog_icon rebalancing = View.color_of_dialog
dialog_icon failed = View.color_of_dialog
dialog_icon need_more_nodes = View.color_of_dialog

unfoldable pub dialog_props : (Kind → Text) → Kind → Props
dialog_props content k = record {
  title_id = none;
  title = dialog_title k;
  content_id = none;
  content = content k;
  color = View.primary;
  title_icon_color = View.warning;
  title_icon = dialog_icon k;
  cancel_label = none;
  confirm_label = some (lit "Finish");
  submit_label = none;
  has_on_submit_valid = false;
  has_handle_submit = false;
  secondary_action = none;
}

-- A click on the button to confirm: `onConfirm` is the default, which returns nothing.
abbrev pub confirm : Event
confirm = Dialog.click (Dialog.returns Dialog.undefined_result)
