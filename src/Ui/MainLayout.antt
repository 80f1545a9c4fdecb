-- ===== src/Ui/MainLayout.antt =====
-- `MainLayout` (components/common/main-layout.tsx): where its contents stand, and the information
-- for developers at its end. `stringify` is `JSON.stringify`, which gives no text for undefined.
pub mod Laws
use toolkit_inference_mesh.Common.{Bool, true, false, Option, none, some, List, [], ◌∷◌, map}
use toolkit_inference_mesh.Js.Text.{Text, lit}
use toolkit_inference_mesh.Js.Json.{Json, undef, bool, num, str, obj, Fields, end, field}
use toolkit_inference_mesh.Cluster.Status
use toolkit_inference_mesh.Cluster.Status.{ClusterStatus, NetworkType}
use toolkit_inference_mesh.Cluster.Info.{ModelInfo, ClusterInfo}
use toolkit_inference_mesh.Cluster.Provider.{Value, ConfigValue}

-- `renderRecord`: a title, and a line for each entry: its key, and the text of its value.
pub record Section : Type 0 where
  pub title : Text
  pub lines : List (Text × Option Text)

abbrev pub status_name : ClusterStatus → Text
status_name Status.offline = lit "offline"
status_name Status.idle = lit "idle"
status_name ClusterStatus.waiting = lit "waiting"
status_name ClusterStatus.available = lit "available"
status_name Status.rebalancing = lit "rebalancing"
status_name ClusterStatus.failed = lit "failed"

abbrev pub network_name : NetworkType → Text
network_name Status.local_network = lit "local"
network_name Status.remote_network = lit "remote"

abbrev pub model_value : Option ModelInfo → Json
model_value none = undef
model_value (some m) = obj (
    field (lit "name") (str m.name) (
      field (lit "displayName") (str m.display_name)
        (field (lit "logoUrl") (str m.logo_url) (field (lit "vram") (num m.vram) end))))

abbrev pub command_fields : List (Text × Text) → Fields
command_fields [] = end
command_fields ((k, v) ∷ more) = field k (str v) (command_fields more)

-- `Object.entries` of the two records, in the order in which they are written.
abbrev pub config_entries : ConfigValue → List (Text × Json)
config_entries c =
    (lit "initNodesNumber", num c.init_nodes_number)
    ∷ (lit "networkType", str (network_name c.network_type))
    ∷ (lit "modelName", str c.model_name)
    ∷ []

abbrev pub info_entries : ClusterInfo → List (Text × Json)
info_entries i =
    (lit "id", str i.id)
    ∷ (lit "status", str (status_name i.status))
    ∷ (lit "modelName", str i.model_name)
    ∷ (lit "modelInfo", model_value i.model_info)
    ∷ (lit "nodeJoinCommand", obj (command_fields i.node_join_command))
    ∷ (lit "initNodesNumber", num i.init_nodes_number)
    ∷ (lit "needMoreNodes", bool i.need_more_nodes)
    ∷ []

unfoldable pub render_record : (Json → Option Text) → Text → List (Text × Json) → Section
render_record stringify title entries = record {
  title = title;
  lines = map (λ e. (e.0, stringify e.1)) entries;
}

-- What `DebugInfo` renders: two records and three links, and nothing outside of development.
pub record Debug : Type 0 where
  pub sections : List Section
  pub links : List Text

unfoldable pub debug_info : Bool → (Json → Option Text) → Value → Option Debug
unfolding render_record
debug_info false stringify v = none
debug_info true stringify v = some (record {
  sections =
      render_record stringify (lit "Init Parameters") (config_entries v.config)
      ∷ render_record stringify (lit "Status Info") (info_entries v.cluster_info)
      ∷ [];
  links = lit "/setup" ∷ lit "/join" ∷ lit "/chat" ∷ [];
})

-- A content at the end: what is given, or the information for developers.
pub data EndContent (A : Type 0) : Type 0 where
  given : A → EndContent A
  debug : EndContent A

-- The places of the layout; the ones at the sides are there only with a content.
pub record Layout (A : Type 0) : Type 0 where
  pub content : A
  pub start : Option A
  pub at_end : Option (EndContent A)

-- A `contentEnd` that is not given is the default; one that is given may be empty.
abbrev pub end_content : {A : Type 0} → Option (Option A) → Option (EndContent A)
end_content none = some debug
end_content (some none) = none
end_content (some (some a)) = some (given a)

unfoldable pub main_layout : {A : Type 0} → A → Option A → Option (Option A) → Layout A
main_layout children content_start content_end = record {
  content = children;
  start = content_start;
  at_end = end_content content_end;
}
