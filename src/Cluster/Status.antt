-- ===== src/Cluster/Status.antt =====
-- The states of a cluster, of a node, and of the host (services/cluster.tsx, services/host.tsx).
use toolkit_inference_mesh.Common.{Bool, true, false}

pub data ClusterStatus : Type 0 where
  offline idle waiting available rebalancing failed : ClusterStatus

pub data NodeStatus : Type 0 where
  waiting available failed : NodeStatus

pub data NetworkType : Type 0 where
  local_network remote_network : NetworkType

pub data HostType : Type 0 where
  cluster_host node_host : HostType

abbrev pub is_idle : ClusterStatus → Bool
is_idle ClusterStatus.idle = true
is_idle _ = false

abbrev pub is_available : ClusterStatus → Bool
is_available ClusterStatus.available = true
is_available _ = false
