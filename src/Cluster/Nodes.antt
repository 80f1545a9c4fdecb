-- ===== src/Cluster/Nodes.antt =====
-- The node list of services/cluster.tsx: how a status message changes the list that is shown.
-- JSON.stringify tells two lists of nodes apart exactly where they differ, so the comparison of
-- the texts is a decision of equality.
pub mod Laws
pub mod Lookup
use mathlib.Core.Logic.{ite}
use native.Mathlib.Decide.{ℕ_discrete}
use toolkit_inference_mesh.Common.{
  ℕ, get_or_else, filter, zero, suc, Bool, false, not, ◌||◌, Option, none, some, List, [], ◌∷◌,
  ◌++◌, map,
}
use toolkit_inference_mesh.Js.Text.{Text, text_eq}
use toolkit_inference_mesh.Cluster.Status.{NodeStatus, failed}

pub record NodeInfo : Type 0 where
  pub id : Text
  pub status : NodeStatus
  pub gpu_number : ℕ
  pub gpu_name : Text
  pub gpu_memory : ℕ

-- An entry of `node_list`, with what may be missing.
pub record RawNode : Type 0 where
  pub node_id : Text
  pub status : NodeStatus
  pub gpu_num : Option ℕ
  pub gpu_name : Option Text
  pub gpu_memory : Option ℕ

-- `n || d` at a number that may be missing or 0.
abbrev pub num_or : Option ℕ → ℕ → ℕ
num_or none d = d
num_or (some zero) d = d
num_or (some (suc n)) d = suc n

unfoldable pub to_node_info : RawNode → NodeInfo
to_node_info raw = record {
  id = raw.node_id;
  status = raw.status;
  gpu_number = num_or raw.gpu_num 1;
  gpu_name = get_or_else raw.gpu_name [];
  gpu_memory = num_or raw.gpu_memory 0;
}

unfoldable pub NodeStatus-discrete : Discrete NodeStatus
NodeStatus-discrete = hlevel

unfoldable pub nodes_discrete : Discrete (List NodeInfo)
nodes_discrete = hlevel ℕ_discrete

unfoldable pub has_id : Text → List NodeInfo → Bool
unfolding text_eq
has_id k [] = false
has_id k (n ∷ ns) = text_eq n.id k || has_id k ns

abbrev pub mark_failed : NodeInfo → NodeInfo
mark_failed n = record n { status = failed }

unfoldable pub prev_online_nodes : List NodeInfo → List NodeInfo → List NodeInfo
unfolding has_id
prev_online_nodes next prev = filter (λ n. has_id n.id next) prev

unfoldable pub prev_offline_nodes : List NodeInfo → List NodeInfo → List NodeInfo
unfolding has_id
prev_offline_nodes next prev = map mark_failed (filter (λ n. not (has_id n.id next)) prev)

-- The list with the nodes that have gone, where those that have not are as they were.
unfoldable pub with_offline : List NodeInfo → List NodeInfo → List NodeInfo
unfolding prev_online_nodes prev_offline_nodes nodes_discrete
with_offline next prev =
    ite (nodes_discrete next (prev_online_nodes next prev)) (next ++ prev_offline_nodes next prev)
      next

-- The function that is given to `setNodeInfoList`.
unfoldable pub update_nodes : List RawNode → List NodeInfo → List NodeInfo
unfolding with_offline to_node_info nodes_discrete
update_nodes node_list prev =
    let next = with_offline (map to_node_info node_list) prev in
    ite (nodes_discrete next prev) prev next
