-- ===== src/Ui/Drawer.antt =====
-- The dialogs of `DrawerLayout` (components/common/drawer-layout.tsx) that open by themselves: the
-- effects on the cluster's status and on its need for more nodes, and the delay of one second.
pub mod Laws
pub mod View
use toolkit_inference_mesh.Common.{Bool, true, false, ◌&&◌, ◌||◌, List, [], ◌∷◌, if◌then◌else◌}
use toolkit_inference_mesh.Cluster.Status.{ClusterStatus, HostType, is_idle}

-- Which dialogs are open, and whether the timer of the last one runs.
pub record Dialogs : Type 0 where
  pub waiting_open : Bool
  pub rebalancing_open : Bool
  pub need_more_nodes_open : Bool
  pub failed_open : Bool
  pub timer : Bool

abbrev pub is_cluster : HostType → Bool
is_cluster HostType.cluster_host = true
is_cluster HostType.node_host = false

abbrev pub is_waiting : ClusterStatus → Bool
is_waiting ClusterStatus.waiting = true
is_waiting _ = false

abbrev pub is_rebalancing : ClusterStatus → Bool
is_rebalancing ClusterStatus.rebalancing = true
is_rebalancing _ = false

abbrev pub is_failed : ClusterStatus → Bool
is_failed ClusterStatus.failed = true
is_failed _ = false

-- A change of the status: the cleanup of the last effect clears the timer, then the effects run.
unfoldable pub on_status : HostType → ClusterStatus → Dialogs → Dialogs
on_status host status d = record d {
  waiting_open = d.waiting_open || is_cluster host && is_waiting status;
  rebalancing_open = d.rebalancing_open || is_rebalancing status;
  failed_open = d.failed_open || is_failed status;
  timer = is_idle status;
}

-- A change of `needMoreNodes`.
unfoldable pub on_need_more_nodes : Bool → Dialogs → Dialogs
on_need_more_nodes need d = record d { need_more_nodes_open = d.need_more_nodes_open || need }

-- One second has passed since the timer was set.
unfoldable pub on_timer : Dialogs → Dialogs
on_timer d = if d.timer then record d { failed_open = true; timer = false } else d

-- The dialogs that open by themselves.
pub data Kind : Type 0 where
  waiting_kind rebalancing_kind need_more_nodes_kind failed_kind : Kind

-- The user closes a dialog.
abbrev pub close : Kind → Dialogs → Dialogs
close waiting_kind d = record d { waiting_open = false }
close rebalancing_kind d = record d { rebalancing_open = false }
close need_more_nodes_kind d = record d { need_more_nodes_open = false }
close failed_kind d = record d { failed_open = false }

pub data Event : Type 0 where
  status_changed : ClusterStatus → Event
  need_more_nodes_changed : Bool → Event
  second_passed : Event
  closed : Kind → Event

unfoldable pub step : HostType → Event → Dialogs → Dialogs
unfolding on_status on_need_more_nodes on_timer
step host (status_changed s) d = on_status host s d
step host (need_more_nodes_changed n) d = on_need_more_nodes n d
step host second_passed d = on_timer d
step host (closed k) d = close k d

unfoldable pub run : HostType → List Event → Dialogs → Dialogs
unfolding step
run host [] d = d
run host (e ∷ es) d = run host es (step host e d)
