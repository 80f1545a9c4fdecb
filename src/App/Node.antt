-- ===== src/App/Node.antt =====
-- The page of a node (`Chat` of App.tsx): the provider's state, the path of `ChatRouter`, and the
-- dialogs of the chat's layout. `ClusterProvider` loads no models there.
pub mod Laws
use mathlib.Core.Option
use toolkit_inference_mesh.Common.{Bool, Option, none, some, List, [], ◌∷◌}
use toolkit_inference_mesh.Js.Text.{Text}
use toolkit_inference_mesh.Js.Json.{Json}
use toolkit_inference_mesh.Stream.Http.{Action}
use toolkit_inference_mesh.Cluster.Status.{node_host}
use toolkit_inference_mesh.Cluster.Info.{StreamMessage, ClusterStates, first_states}
use toolkit_inference_mesh.Cluster.Config.{ClusterConfig}
use toolkit_inference_mesh.Cluster.Session.{apply_actions}
use toolkit_inference_mesh.Ui.Router.{chat_redirect, chat_routes, is_chat_screen}
use toolkit_inference_mesh.Ui.Drawer
use toolkit_inference_mesh.Ui.Drawer.{Dialogs}
use toolkit_inference_mesh.App.{first_config, config_effect, layout_effects, layout_at}

pub record Node : Type 0 where
  pub cluster : ClusterStates
  pub config : ClusterConfig
  pub pathname : Text
  -- where the timer of the router leads, if it runs
  pub target : Option Text
  pub layout : Option Dialogs

pub data Event : Type 0 where
  turn : List Action → Event
  navigated : Text → Event
  redirect delay_over : Event
  dialog_closed : Drawer.Kind → Event

-- The provider's states have changed; the effect of `ChatRouter` does not depend on them.
unfoldable pub on_cluster : ClusterStates → Node → Node
unfolding config_effect layout_effects
on_cluster next a = record a {
  cluster = next;
  config = config_effect a.cluster next a.config;
  layout = Option.map (layout_effects node_host a.cluster.cluster_info next.cluster_info) a.layout;
}

module _ (matches : Text → Text → Bool) (read : Json → StreamMessage) where
  -- The path has changed: the effect of the router runs, and the element of the route is shown.
  unfoldable pub go : Text → Node → Node
  unfolding chat_redirect layout_at
  go t a = record a {
    pathname = t;
    target = chat_redirect t;
    layout =
        layout_at node_host (is_chat_screen (chat_routes matches t)) a.cluster.cluster_info
          a.layout;
  }

  unfoldable pub on_redirect : Option Text → Node → Node
  unfolding go
  on_redirect none a = a
  on_redirect (some t) a = go t a

  unfoldable pub step : Event → Node → Node
  unfolding on_cluster go on_redirect apply_actions Drawer.step
  step (turn actions) a = on_cluster (apply_actions read actions a.cluster) a
  step (navigated t) a = go t a
  step redirect a = on_redirect a.target a
  step delay_over a = record a {
    layout = Option.map (Drawer.step node_host Drawer.second_passed) a.layout;
  }
  step (dialog_closed k) a = record a {
    layout = Option.map (Drawer.step node_host (Drawer.closed k)) a.layout;
  }

  unfoldable pub run : List Event → Node → Node
  unfolding step
  run [] a = a
  run (e ∷ es) a = run es (step e a)

  -- The first rendering, at a path.
  unfoldable pub mounted : Text → Node
  unfolding go
  mounted pathname = go pathname (record {
    cluster = first_states;
    config = first_config;
    pathname = pathname;
    target = none;
    layout = none;
  })
