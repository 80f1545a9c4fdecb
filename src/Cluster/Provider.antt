-- ===== src/Cluster/Provider.antt =====
-- The value that `ClusterProvider` hands to the components (services/cluster.tsx), and `useCluster`.
pub mod Laws
use toolkit_inference_mesh.Common.{ℕ, Option, none, some, List}
use toolkit_inference_mesh.Js.Text.{Text}
use toolkit_inference_mesh.Js.Result.{Result, ok, throws}
use toolkit_inference_mesh.Cluster.Status.{NetworkType}
use toolkit_inference_mesh.Cluster.Nodes.{NodeInfo}
use toolkit_inference_mesh.Cluster.Info
use toolkit_inference_mesh.Cluster.Info.{ModelInfo, ClusterInfo, find_model}
use toolkit_inference_mesh.Cluster.Config
use toolkit_inference_mesh.Cluster.Config.{ClusterConfig}

-- What the user has chosen, with what is known of the model.
pub record ConfigValue : Type 0 where
  pub network_type : NetworkType
  pub init_nodes_number : ℕ
  pub model_name : Text
  pub model_info : Option ModelInfo
  pub model_info_list : List ModelInfo

pub record Value : Type 0 where
  pub config : ConfigValue
  pub cluster_info : ClusterInfo
  pub node_info_list : List NodeInfo

unfoldable pub provider_value : ClusterConfig → Info.ClusterStates → Value
unfolding find_model
provider_value c s = record {
  config = record {
    network_type = c.network_type;
    init_nodes_number = c.init_nodes_number;
    model_name = c.model_name;
    model_info = find_model c.model_name s.model_info_list;
    model_info_list = s.model_info_list;
  };
  cluster_info = s.cluster_info;
  node_info_list = s.node_info_list;
}

-- `useCluster`: outside of a provider the context is undefined.
abbrev pub use_cluster : Option Value → Result Value
use_cluster none = throws
use_cluster (some v) = ok v

-- The effect on the model's name, with what the provider keeps.
unfoldable pub with_model_name : Info.ClusterStates → ClusterConfig → ClusterConfig
unfolding Config.init_model_name
with_model_name s c = record c {
  model_name =
      Config.init_model_name s.cluster_info.status s.cluster_info.model_name s.model_info_list
        c.model_name;
}
