-- ===== src/Cluster/Config.antt =====
-- The configuration of services/cluster.tsx: the model list, the model's name, and `init`.
pub mod Laws
use toolkit_inference_mesh.Common.{
  ℕ, ltb, ◌==◌, if◌then◌else◌, get_or_else, suc, Bool, true, false, ◌||◌, Option, none, some, List,
  [], ◌∷◌, map,
}
use toolkit_inference_mesh.Js.Text.{Text, text_eq, is_empty, to_lower_case, split}
use toolkit_inference_mesh.Cluster.Status.{
  ClusterStatus, offline, idle, waiting, available, rebalancing, failed, NetworkType, local_network,
  remote_network, HostType, cluster_host, node_host,
}
use toolkit_inference_mesh.Cluster.Info.{ModelInfo}
use toolkit_inference_mesh.Cluster.Nodes.{num_or}

-- `logoUrlMap`, with the keys of the source and the URLs as the build gives them.
unfoldable pub lookup_url : Text → List (Text × Text) → Option Text
unfolding text_eq
lookup_url k [] = none
lookup_url k ((j, v) ∷ m) = let rest = lookup_url k m in if text_eq j k then some v else rest

abbrev pub head_or_empty : List Text → Text
head_or_empty [] = []
head_or_empty (x ∷ xs) = x

-- '-' or '/'
abbrev pub is_name_separator : ℕ → Bool
is_name_separator c = c == 45 || c == 47

unfoldable pub get_logo_url : List (Text × Text) → Text → Text
unfolding lookup_url to_lower_case split
get_logo_url logo_url_map name =
    get_or_else
      (lookup_url (head_or_empty (split is_name_separator (to_lower_case name))) logo_url_map) []

-- An entry of the model list, with what may be missing.
pub record RawModel : Type 0 where
  pub name : Option Text
  pub vram_gb : Option ℕ

unfoldable pub to_model_info : List (Text × Text) → RawModel → ModelInfo
unfolding get_logo_url
to_model_info logo_url_map raw =
    let name : Text = get_or_else raw.name [] in
    record {
      name = name;
      display_name = name;
      logo_url = get_logo_url logo_url_map name;
      vram = num_or raw.vram_gb 0;
    }

-- The loop of `updateModelList` over the answers of `getModelList`, `none` where it throws: the
-- list that is set, and how many answers have been waited for. Without a list it goes on.
unfoldable pub update_model_list :
    List (Text × Text) → List (Option (List RawModel)) → Option (List ModelInfo) × ℕ
unfolding to_model_info
update_model_list logo_url_map [] = (none, 0)
update_model_list logo_url_map (some raw_list ∷ answers) =
    (some (map (to_model_info logo_url_map) raw_list), 1)
update_model_list logo_url_map (none ∷ answers) =
    let (list, waits) = update_model_list logo_url_map answers in (list, suc waits)

-- A node's page asks for no list.
unfoldable pub load_models :
    HostType → List (Text × Text) → List (Option (List RawModel)) → Option (List ModelInfo) × ℕ
unfolding update_model_list
load_models node_host logo_url_map answers = (none, 0)
load_models cluster_host logo_url_map answers = update_model_list logo_url_map answers

abbrev pub first_model_name : List ModelInfo → Text
first_model_name [] = []
first_model_name (m ∷ ms) = m.name

-- `a || b`
abbrev pub or_text : Text → Text → Text
or_text [] b = b
or_text (c ∷ s) b = c ∷ s

-- The effect that sets the configured model's name.
unfoldable pub init_model_name : ClusterStatus → Text → List ModelInfo → Text → Text
init_model_name waiting cluster_model models prev =
    or_text cluster_model (or_text prev (first_model_name models))
init_model_name offline cluster_model models prev = prev
init_model_name idle cluster_model models prev =
    or_text prev (or_text cluster_model (first_model_name models))
init_model_name available cluster_model models prev =
    or_text prev (or_text cluster_model (first_model_name models))
init_model_name rebalancing cluster_model models prev =
    or_text prev (or_text cluster_model (first_model_name models))
init_model_name failed cluster_model models prev =
    or_text prev (or_text cluster_model (first_model_name models))

-- What the user has chosen.
pub record ClusterConfig : Type 0 where
  pub network_type : NetworkType
  pub init_nodes_number : ℕ
  pub model_name : Text

-- The parameters of `initScheduler`.
pub record InitParams : Type 0 where
  pub model_name : Text
  pub init_nodes_num : ℕ
  pub is_local_network : Bool

pub data InitResult : Type 0 where
  no_nodes no_model : InitResult
  sends : InitParams → InitResult

abbrev pub is_local : NetworkType → Bool
is_local local_network = true
is_local remote_network = false

-- `init`, up to the call of the scheduler.
unfoldable pub init_scheduler : ClusterConfig → InitResult
init_scheduler c =
    if ltb c.init_nodes_number 1
    then no_nodes
    else if is_empty c.model_name
    then no_model
    else sends (record {
      model_name = c.model_name;
      init_nodes_num = c.init_nodes_number;
      is_local_network = is_local c.network_type;
    })
