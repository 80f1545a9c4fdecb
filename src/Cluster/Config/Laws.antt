-- ===== src/Cluster/Config/Laws.antt =====
-- What the configuration guarantees.
use toolkit_inference_mesh.Common.{
  ℕ, refl, replicate, zero, suc, ◌<◌, ◌≡◌, ◌≢◌, ◌↔◌, false, Option, none, some, List, ◌∷◌, ◌++◌,
  map, arith,
}
use toolkit_inference_mesh.Js.Text.{Text, is_empty}
use toolkit_inference_mesh.Cluster.Status.{ClusterStatus, waiting}
use toolkit_inference_mesh.Cluster.Config.{
  init_model_name, RawModel, to_model_info, update_model_list, ClusterConfig, InitParams, sends,
  is_local, init_scheduler,
}
use toolkit_inference_mesh.Cluster.Info.{ModelInfo}

-- `init` sends a request exactly where there is a node and a model's name, and sends what the user
-- has configured.
pub init_scheduler-sends_iff :
    (c : ClusterConfig) (p : InitParams)
    → (init_scheduler c ≡ sends p) ↔ (
        (0 < c.init_nodes_number)
        × (is_empty c.model_name ≡ false)
        × (p.model_name ≡ c.model_name)
        × (p.init_nodes_num ≡ c.init_nodes_number)
        × (p.is_local_network ≡ is_local c.network_type))
unfolding init_scheduler
init_scheduler-sends_iff c p = ground arith

-- Once the model's name is set, and the cluster's own name and the model list stay, the effect does
-- not change it again; and a name that the user has set changes only while the cluster is waiting.
pub init_model_name_idem :
    (s : ClusterStatus) (cluster_model : Text) (models : List ModelInfo) (prev : Text)
    → (init_model_name s cluster_model models (init_model_name s cluster_model models prev)
        ≡ init_model_name s cluster_model models prev)
      × (is_empty prev ≡ false → s ≢ waiting → init_model_name s cluster_model models prev ≡ prev)
unfolding init_model_name
init_model_name_idem s cluster_model models prev = ground arith

-- The loop sets the list of the first answer that comes, after waiting for every failed one before.
pub update_model_list-first :
    (urls : List (Text × Text)) (n : ℕ) (raw : List RawModel)
    (answers : List (Option (List RawModel)))
    → update_model_list urls (replicate n none ++ some raw ∷ answers)
      ≡ (some (map (to_model_info urls) raw), suc n)
unfolding update_model_list
update_model_list-first urls zero raw answers = refl
update_model_list-first urls (suc n) raw answers = rw (update_model_list-first urls n raw answers)
