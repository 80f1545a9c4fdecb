-- ===== src/Cluster/Info.antt =====
-- The cluster's information in services/cluster.tsx, and what a status message makes of it.
pub mod Laws
use mathlib.Core.Logic.{ite}
use native.Mathlib.Decide.{ℕ_discrete}
use toolkit_inference_mesh.Common.{
  ℕ, if◌then◌else◌, get_or_else, find, Bool, false, Option, none, some, List, [],
}
use toolkit_inference_mesh.Js.Text.{Text, text_eq, is_empty}
use toolkit_inference_mesh.Cluster.Status.{ClusterStatus, offline, idle}
use toolkit_inference_mesh.Cluster.Nodes.{NodeInfo, RawNode, update_nodes}

pub record ModelInfo : Type 0 where
  pub name : Text
  pub display_name : Text
  pub logo_url : Text
  pub vram : ℕ

pub record ClusterInfo : Type 0 where
  pub id : Text
  pub status : ClusterStatus
  pub model_name : Text
  pub model_info : Option ModelInfo
  pub node_join_command : List (Text × Text)
  pub init_nodes_number : ℕ
  pub need_more_nodes : Bool

abbrev pub initial_cluster_info : ClusterInfo
initial_cluster_info = record {
  id = [];
  status = offline;
  model_name = [];
  model_info = none;
  node_join_command = [];
  init_nodes_number = 4;
  need_more_nodes = false;
}

-- The data of a `cluster_status` message, with what may be missing.
pub record StatusData : Type 0 where
  pub status : Option ClusterStatus
  pub init_nodes_num : Option ℕ
  pub model_name : Option Text
  pub node_join_command : Option (List (Text × Text))
  pub node_list : List RawNode
  pub need_more_nodes : Option Bool

-- A message of the stream: its type tells whether it carries a status.
pub data StreamMessage : Type 0 where
  cluster_status : StatusData → StreamMessage
  other_message : StreamMessage

-- `(model_name && status) || 'idle'`
abbrev pub status_of : Text → Option ClusterStatus → ClusterStatus
status_of name none = idle
status_of name (some s) = if is_empty name then idle else s

unfoldable pub find_model : Text → List ModelInfo → Option ModelInfo
unfolding text_eq
find_model name models = find (λ m. text_eq m.name name) models

-- `next` of the function given to `setClusterInfo`. `models` is the list that the handler sees.
unfoldable pub next_info : List ModelInfo → StatusData → ClusterInfo → ClusterInfo
unfolding find_model
next_info models d prev =
    let name : Text = get_or_else d.model_name [] in
    record prev {
      status = status_of name d.status;
      init_nodes_number = get_or_else d.init_nodes_num 0;
      model_name = name;
      model_info = elim d.model_name [ none ↦ none | some n ↦ find_model n models ];
      node_join_command = get_or_else d.node_join_command [];
      need_more_nodes = get_or_else d.need_more_nodes false;
    }

unfoldable pub info_discrete : Discrete ClusterInfo
info_discrete = hlevel ℕ_discrete

unfoldable pub update_info : List ModelInfo → StatusData → ClusterInfo → ClusterInfo
unfolding next_info info_discrete
update_info models d prev =
    let next = next_info models d prev in ite (info_discrete next prev) prev next

-- What the provider keeps of the cluster, and the models that it has loaded.
pub record ClusterStates : Type 0 where
  pub cluster_info : ClusterInfo
  pub node_info_list : List NodeInfo
  pub model_info_list : List ModelInfo

-- The first render of the provider.
abbrev pub first_states : ClusterStates
first_states = record {
  cluster_info = initial_cluster_info;
  node_info_list = [];
  model_info_list = [];
}

-- The stream's handler. It is made once, by `useMemo` with no dependencies, so the model list that
-- it sees is the one of the first render and not that of `s`.
unfoldable pub on_message : StreamMessage → ClusterStates → ClusterStates
unfolding update_info update_nodes
on_message (cluster_status d) s = record s {
  cluster_info = update_info first_states.model_info_list d s.cluster_info;
  node_info_list = update_nodes d.node_list s.node_info_list;
}
on_message other_message s = s

unfoldable pub reset : ClusterStates → ClusterStates
reset s = record s { cluster_info = initial_cluster_info; node_info_list = [] }

unfoldable pub set_model_info_list : List ModelInfo → ClusterStates → ClusterStates
set_model_info_list models s = record s { model_info_list = models }
