-- ===== src/Ui/ModelSelect.antt =====
-- `ModelSelect` (components/inputs/model-select.tsx): the choice of a model, the effect that starts
-- the scheduler with it, and the options that are listed.
pub mod Laws
pub mod View
use toolkit_inference_mesh.Common.{
  Bool, true, false, ◌&&◌, ◌||◌, not, List, map, if◌then◌else◌, [], ◌∷◌,
}
use toolkit_inference_mesh.Js.Text.{Text, text_eq}
use toolkit_inference_mesh.Cluster.Status.{ClusterStatus, is_idle}
use toolkit_inference_mesh.Cluster.Info.{ModelInfo}

-- The configured model, and whether a choice has still to be committed.
pub record Select : Type 0 where
  pub config_model_name : Text
  pub can_auto_commit : Bool

-- The effect; the second part tells whether it calls `init`.
unfoldable pub commit_effect : Text → Select → Select × Bool
unfolding text_eq
commit_effect cluster_model_name s =
    if s.can_auto_commit && not (text_eq s.config_model_name cluster_model_name)
    then (record s { can_auto_commit = false }, true)
    else (s, false)

-- `onChange`
unfoldable pub on_change : Bool → Text → Select → Select
on_change auto_commit value s = record {
  config_model_name = value;
  can_auto_commit = if auto_commit then true else s.can_auto_commit;
}

abbrev pub bool_eq : Bool → Bool → Bool
bool_eq true b = b
bool_eq false b = not b

-- The effect runs after a rendering in which one of its dependencies has changed.
unfoldable pub deps_changed : Select → Select → Bool
unfolding text_eq
deps_changed s t =
    not (text_eq s.config_model_name t.config_model_name)
    || not (bool_eq s.can_auto_commit t.can_auto_commit)

unfoldable pub after_render : Text → Select → Select → Select × Bool
unfolding commit_effect deps_changed
after_render cluster_model_name before now =
    if deps_changed before now then commit_effect cluster_model_name now else (now, false)

-- A choice, the rendering with it, and the rendering that the effect causes.
unfoldable pub choose : Bool → Text → Text → Select → Select × List Bool
unfolding on_change after_render
choose auto_commit cluster_model_name value s =
    let now = on_change auto_commit value s in
    let (committed, first) = after_render cluster_model_name s now in
    let (last, second) = after_render cluster_model_name now committed in
    (last, first ∷ second ∷ [])

-- An option of the list.
pub record ModelOption : Type 0 where
  pub model : ModelInfo
  pub selected : Bool
  pub loading : Bool

unfoldable pub to_option : ClusterStatus → Text → Text → ModelInfo → ModelOption
unfolding text_eq
to_option status config_model_name cluster_model_name model = record {
  model = model;
  selected = text_eq model.name config_model_name || text_eq model.name cluster_model_name;
  loading =
      not (is_idle status)
      && text_eq model.name config_model_name
      && not (text_eq config_model_name cluster_model_name);
}

unfoldable pub options : ClusterStatus → Text → Text → List ModelInfo → List ModelOption
unfolding to_option
options status config_model_name cluster_model_name models =
    map (to_option status config_model_name cluster_model_name) models
