-- ===== src/Ui/NodeList/View.antt =====
-- `Node` of components/inputs/node-list.tsx: what is shown of a node, apart from its text.
pub mod Laws
use toolkit_inference_mesh.Common.{Bool, true, false, Option, none, some, ℕ}
use toolkit_inference_mesh.Js.Text.{Text}
use toolkit_inference_mesh.Cluster.Status.{NodeStatus}
use toolkit_inference_mesh.Cluster.Nodes.{NodeInfo}
use toolkit_inference_mesh.Ui.NodeList.{ListVariant, list, menu, node_title}

-- A color of the palette, or the grey of a node that waits.
pub data StatusColor : Type 0 where
  grey info success error : StatusColor

pub data StatusIcon : Type 0 where
  loader check x circle_filled : StatusIcon

-- `STATUS_COLOR_MAP`
abbrev pub status_color : NodeStatus → StatusColor
status_color NodeStatus.waiting = info
status_color NodeStatus.available = success
status_color NodeStatus.failed = error

-- `STATUS_ICON_MAP`
abbrev pub status_icon : NodeStatus → StatusIcon
status_icon NodeStatus.waiting = loader
status_icon NodeStatus.available = check
status_icon NodeStatus.failed = x

abbrev pub is_waiting : NodeStatus → Bool
is_waiting NodeStatus.waiting = true
is_waiting _ = false

abbrev pub is_failed : NodeStatus → Bool
is_failed NodeStatus.failed = true
is_failed _ = false

-- `main`
abbrev pub main_color : NodeStatus → StatusColor
main_color NodeStatus.waiting = grey
main_color NodeStatus.available = status_color NodeStatus.available
main_color NodeStatus.failed = status_color NodeStatus.failed

abbrev pub variant_icon : ListVariant → NodeStatus → StatusIcon
variant_icon list status = status_icon status
variant_icon menu status = circle_filled

-- `ListItemStatus`, which turns while the node waits.
pub record Mark : Type 0 where
  pub color : StatusColor
  pub icon : StatusIcon
  pub turns : Bool

-- A node that is not known has a skeleton in place of its text, and no mark.
pub record NodeView : Type 0 where
  pub in_paper : Bool
  pub faded : Bool
  pub title : Option Text
  pub mark : Option Mark

abbrev pub is_list : ListVariant → Bool
is_list list = true
is_list menu = false

unfoldable pub node_view : (ℕ → Text) → ListVariant → Option NodeInfo → NodeView
unfolding node_title
node_view num_text variant none = record {
  in_paper = is_list variant;
  faded = false;
  title = none;
  mark = none;
}
node_view num_text variant (some n) = record {
  in_paper = is_list variant;
  faded = is_failed n.status;
  title = some (node_title num_text n);
  mark = some (record {
    color = main_color n.status;
    icon = variant_icon variant n.status;
    turns = is_waiting n.status;
  });
}
