-- ===== src/App.antt =====
-- The page of the cluster's host (`Main` of App.tsx): the state of `ClusterProvider`, with the path
-- of `MainRouter` and the dialogs of the chat's layout, and the effects that run where one of them
-- has changed. `matches` is how react-router compares a route with a path.
pub mod Effects
pub mod Laws
pub mod Names
pub mod Arrival
pub mod Leaving
pub mod Contexts
pub mod Node
use mathlib.Core.Logic.{ite}
use mathlib.Core.Option
use toolkit_inference_mesh.Common.{
  ◌&&◌, not, ℕ, Bool, true, false, Option, none, some, List, [], ◌∷◌,
}
use toolkit_inference_mesh.Js.Text.{Text}
use toolkit_inference_mesh.Js.Json.{Json}
use toolkit_inference_mesh.Cluster.Status.{
  HostType, ClusterStatus, NetworkType, local_network, cluster_host,
}
use toolkit_inference_mesh.Stream.Http.{Action}
use toolkit_inference_mesh.Cluster.Info.{
  StreamMessage, ClusterStates, ClusterInfo, ModelInfo, first_states, info_discrete,
  set_model_info_list,
}
use toolkit_inference_mesh.Cluster.Config.{ClusterConfig}
use toolkit_inference_mesh.Cluster.Provider.{with_model_name}
use toolkit_inference_mesh.Cluster.Session.{apply_actions}
use toolkit_inference_mesh.Ui.Router.{is_chat_screen, main_routes}
use toolkit_inference_mesh.Ui.Router.Steps
use toolkit_inference_mesh.Ui.Router.Steps.{Page}
use toolkit_inference_mesh.Ui.Drawer
use toolkit_inference_mesh.Ui.Drawer.{Dialogs}

pub record App : Type 0 where
  pub cluster : ClusterStates
  pub config : ClusterConfig
  pub page : Page
  -- the dialogs, where the chat is shown
  pub layout : Option Dialogs

-- A `turn` is what the stream client calls between two renderings.
pub data Event : Type 0 where
  turn : List Action → Event
  models_loaded : List ModelInfo → Event
  set_network_type : NetworkType → Event
  set_init_nodes_number : ℕ → Event
  set_model_name : Text → Event
  navigated : Text → Event
  redirect delay_over : Event
  dialog_closed : Drawer.Kind → Event

abbrev pub first_config : ClusterConfig
first_config = record { network_type = local_network; init_nodes_number = 1; model_name = [] }

unfoldable pub status_discrete : Discrete ClusterStatus
status_discrete = hlevel

-- The dialogs when the layout is rendered first: all are closed, and then its effects run.
unfoldable pub mount_layout : HostType → ClusterInfo → Dialogs
unfolding Drawer.on_status Drawer.on_need_more_nodes
mount_layout host info = Drawer.on_need_more_nodes info.need_more_nodes (
    Drawer.on_status host info.status (record {
      waiting_open = false;
      rebalancing_open = false;
      need_more_nodes_open = false;
      failed_open = false;
      timer = false;
    }))

-- The effects of the layout where the information has changed, by their dependencies: a change of
-- `needMoreNodes` opens its dialog where it is one to true.
unfoldable pub layout_effects : HostType → ClusterInfo → ClusterInfo → Dialogs → Dialogs
unfolding Drawer.on_status Drawer.on_need_more_nodes status_discrete
layout_effects host before after d =
    let d' =
      ite (status_discrete after.status before.status) d (Drawer.on_status host after.status d) in
    Drawer.on_need_more_nodes (after.need_more_nodes && not before.need_more_nodes) d'

-- The layout is mounted, stays, or is unmounted.
unfoldable pub layout_at : HostType → Bool → ClusterInfo → Option Dialogs → Option Dialogs
unfolding mount_layout
layout_at host false info before = none
layout_at host true info none = some (mount_layout host info)
layout_at host true info (some d) = some d

-- The effect that names the model has the information and the list of models as dependencies.
unfoldable pub config_effect : ClusterStates → ClusterStates → ClusterConfig → ClusterConfig
unfolding with_model_name info_discrete
config_effect before after c =
    ite (info_discrete after.cluster_info before.cluster_info) c (with_model_name after c)

-- The effect of the router has the status as a dependency.
unfoldable pub page_effect : ClusterStatus → Page → Page
unfolding Steps.step status_discrete
page_effect after p =
    ite (status_discrete after p.status) p (Steps.step p (Steps.status_changed after))

-- The provider's states have changed.
unfoldable pub on_cluster : ClusterStates → App → App
unfolding config_effect page_effect layout_effects
on_cluster next a = record {
  cluster = next;
  config = config_effect a.cluster next a.config;
  page = page_effect next.cluster_info.status a.page;
  layout =
      Option.map (layout_effects cluster_host a.cluster.cluster_info next.cluster_info) a.layout;
}

unfoldable pub on_models : List ModelInfo → App → App
unfolding with_model_name set_model_info_list
on_models models a =
    let next = set_model_info_list models a.cluster in
    record a { cluster = next; config = with_model_name next a.config }

-- The path may have changed, and with it the element of the route.
unfoldable pub go : (Text → Text → Bool) → Page → App → App
unfolding layout_at
go matches p a = record a {
  page = p;
  layout =
      layout_at cluster_host (is_chat_screen (main_routes matches p.pathname))
        a.cluster.cluster_info a.layout;
}

module _ (matches : Text → Text → Bool) (read : Json → StreamMessage) where
  unfoldable pub step : Event → App → App
  unfolding on_cluster on_models go apply_actions Steps.step Drawer.step
  step (turn actions) a = on_cluster (apply_actions read actions a.cluster) a
  step (models_loaded models) a = on_models models a
  step (set_network_type t) a = record a { config = record a.config { network_type = t } }
  step (set_init_nodes_number n) a = record a { config = record a.config { init_nodes_number = n } }
  step (set_model_name t) a = record a { config = record a.config { model_name = t } }
  step (navigated t) a = go matches (Steps.step a.page (Steps.navigated t)) a
  step redirect a = go matches (Steps.step a.page Steps.timer) a
  step delay_over a = record a {
    layout = Option.map (Drawer.step cluster_host Drawer.second_passed) a.layout;
  }
  step (dialog_closed k) a = record a {
    layout = Option.map (Drawer.step cluster_host (Drawer.closed k)) a.layout;
  }

  unfoldable pub run : List Event → App → App
  unfolding step
  run [] a = a
  run (e ∷ es) a = run es (step e a)

  -- The first rendering, at a path; the effect that names the model leaves it while offline.
  unfoldable pub mounted : Text → App
  unfolding layout_at
  mounted pathname = record {
    cluster = first_states;
    config = first_config;
    page = Steps.mounted pathname ClusterStatus.offline;
    layout =
        layout_at cluster_host (is_chat_screen (main_routes matches pathname))
          first_states.cluster_info none;
  }
