-- ===== src/Cluster/Provider/Laws.antt =====
-- The model that is chosen first.
use toolkit_inference_mesh.Common.{◌≡◌, ◌≢◌, refl, some, List, [], ◌∷◌}
use toolkit_inference_mesh.Js.Text.Laws.{text_eq_refl}
use toolkit_inference_mesh.Cluster.Status.{
  ClusterStatus, offline, idle, waiting, available, rebalancing, failed,
}
use toolkit_inference_mesh.Cluster.Info.{ClusterStates, ModelInfo, find_model}
use toolkit_inference_mesh.Cluster.Config.{ClusterConfig, init_model_name}
use toolkit_inference_mesh.Cluster.Provider.{provider_value, with_model_name}

first_name :
    (status : ClusterStatus) (m : ModelInfo) (models : List ModelInfo)
    → status ≢ offline
    → init_model_name status [] (m ∷ models) [] ≡ m.name
unfolding init_model_name
first_name offline m models h = absurd (h refl)
first_name idle m models h = refl
first_name waiting m models h = refl
first_name available m models h = refl
first_name rebalancing m models h = refl
first_name failed m models h = refl

-- Where neither the user nor the cluster names a model, the first model of the list is chosen as
-- soon as it is loaded and the cluster is not offline, and the components get what is known of it.
pub with_model_name-first :
    (s : ClusterStates) (c : ClusterConfig) (m : ModelInfo) (models : List ModelInfo)
    → s.model_info_list ≡ m ∷ models
    → s.cluster_info.status ≢ offline
    → s.cluster_info.model_name ≡ []
    → c.model_name ≡ []
    → ((provider_value (with_model_name s c) s).config.model_name ≡ m.name)
      × ((provider_value (with_model_name s c) s).config.model_info ≡ some m)
unfolding provider_value with_model_name find_model
with_model_name-first s c m models l o n u =
    let name = first_name s.cluster_info.status m models o in
    rw (l, n, u, name, text_eq_refl m.name) (refl, refl)
