-- ===== src/Ui/Pages.antt =====
-- The two pages that start a cluster: pages/setup.tsx and pages/join.tsx.
pub mod Laws
pub mod View
pub mod Setup
use toolkit_inference_mesh.Common.{
  ℕ, Bool, true, false, ◌&&◌, ltb, leb, every, length, Option, some, none, if◌then◌else◌, List, [],
  ◌∷◌, ◌++◌,
}
use toolkit_inference_mesh.Cluster.Status.{ClusterStatus, NodeStatus}
use toolkit_inference_mesh.Cluster.Nodes.{NodeInfo}
use toolkit_inference_mesh.Cluster.Info.{ModelInfo}
use toolkit_inference_mesh.Cluster.Config.{
  ClusterConfig, InitParams, InitResult, init_scheduler, no_nodes, no_model, sends,
}

-- What a click on the button to continue does, in order.
pub data Action : Type 0 where
  set_loading : Bool → Action
  request : InitParams → Action
  navigate_join : Action
  log_error : Action

-- `status === 'idle' || status === 'failed'`
abbrev pub needs_init : ClusterStatus → Bool
needs_init ClusterStatus.idle = true
needs_init ClusterStatus.failed = true
needs_init _ = false

-- What follows the call of `init`; `answered` tells whether the scheduler's promise is fulfilled.
abbrev pub after_init : Bool → InitResult → List Action
after_init answered no_nodes = log_error ∷ []
after_init answered no_model = log_error ∷ []
after_init true (sends p) = request p ∷ navigate_join ∷ []
after_init false (sends p) = request p ∷ log_error ∷ []

unfoldable pub on_continue : ClusterStatus → ClusterConfig → Bool → List Action
unfolding init_scheduler
on_continue status config answered =
    if needs_init status
    then set_loading true ∷ after_init answered (init_scheduler config) ++ set_loading false ∷ []
    else navigate_join ∷ []

-- `!!modelInfo && modelInfo.vram > 0`
unfoldable pub shows_vram : Option ModelInfo → Bool
shows_vram none = false
shows_vram (some m) = ltb 0 m.vram

abbrev pub is_node_available : NodeInfo → Bool
is_node_available n = elim n.status [ NodeStatus.available ↦ true | _ ↦ false ]

abbrev pub is_status_waiting : ClusterStatus → Bool
is_status_waiting ClusterStatus.waiting = true
is_status_waiting _ = false

-- All the nodes have come and are available, and yet the cluster waits.
unfoldable pub is_error : ClusterStatus → ℕ → List NodeInfo → Bool
is_error status init_nodes_number nodes =
    ltb 0 init_nodes_number
    && leb init_nodes_number (length nodes)
    && every is_node_available nodes
    && is_status_waiting status

-- The alerts of the join page.
pub data Alert : Type 0 where
  error_alert info_alert vram_warning : Alert

unfoldable pub join_alerts :
    ClusterStatus → ℕ → Bool → Option ModelInfo → List NodeInfo → List Alert
unfolding is_error shows_vram
join_alerts status init_nodes_number need_more_nodes model nodes =
    (if is_error status init_nodes_number nodes then error_alert ∷ [] else info_alert ∷ [])
    ++ (if shows_vram model && need_more_nodes then vram_warning ∷ [] else [])
