-- ===== src/Ui/Pages/View.antt =====
-- What the two pages that start a cluster render (pages/setup.tsx, pages/join.tsx), inside of
-- `MainLayout`, and the handlers of the setup page's inputs. `to_text` is the conversion of a number
-- in a template, `to_number` is `Number`.
use toolkit_inference_mesh.Common.{
  ℕ, Bool, Option, none, some, List, [], ◌∷◌, ◌++◌, map, if◌then◌else◌,
}
use toolkit_inference_mesh.Js.Text.{Text, lit}
use toolkit_inference_mesh.Cluster.Status.{NetworkType}
use toolkit_inference_mesh.Cluster.Info.{ModelInfo}
use toolkit_inference_mesh.Cluster.Config.{ClusterConfig}
use toolkit_inference_mesh.Cluster.Provider.{Value, ConfigValue}
use toolkit_inference_mesh.Ui.Router.{path_setup}
use toolkit_inference_mesh.Ui.Pages.{
  shows_vram, join_alerts, Alert, error_alert, info_alert, vram_warning,
}

pub data Part : Type 0 where
  heading step_title : Text → Part
  number_input : ℕ → Part
  network_toggle : NetworkType → Part
  model_select join_command node_list : Part
  alert : Alert → (emphasis : Text) → Part
  continue_button : (loading : Bool) → Part

-- The emphasized text of a warning on memory.
abbrev pub vram_text : (ℕ → Text) → Option ModelInfo → Text
vram_text to_text none = []
vram_text to_text (some m) = lit "minimum of " ++ (to_text m.vram ++ lit " GB of total VRAM")

unfoldable pub setup_page : (ℕ → Text) → ConfigValue → Bool → List Part
unfolding shows_vram
setup_page to_text config loading =
    heading (lit "Build Your Own AI Cluster")
      ∷ step_title (lit "Step 1 - Specify the initial number of nodes")
      ∷ number_input config.init_nodes_number
      ∷ network_toggle config.network_type
      ∷ step_title (lit "Step 2 - Select the model you would like to host")
      ∷ model_select
      ∷ (if shows_vram config.model_info
          then alert vram_warning (vram_text to_text config.model_info) ∷ []
          else [])
    ++ continue_button loading ∷ []

-- `onChange` of the number of nodes.
abbrev pub on_nodes_change : (Text → ℕ) → Text → ClusterConfig → ClusterConfig
on_nodes_change to_number value c = record c { init_nodes_number = to_number value }

-- `onChange` of the toggle: a click on the chosen button gives no value, and changes nothing.
abbrev pub on_network_change : Option NetworkType → ClusterConfig → ClusterConfig
on_network_change none c = c
on_network_change (some t) c = record c { network_type = t }

-- The alerts of the join page, with what is emphasized in them.
abbrev pub alert_part : (ℕ → Text) → Option ModelInfo → Alert → Part
alert_part to_text model error_alert = alert error_alert []
alert_part to_text model info_alert = alert info_alert []
alert_part to_text model vram_warning = alert vram_warning (vram_text to_text model)

unfoldable pub join_page : (ℕ → Text) → Value → List Part
unfolding join_alerts
join_page to_text v =
    heading (lit "Get Your Nodes Running")
      ∷ step_title (lit "Step 1 - Run join command on all nodes")
      ∷ join_command
      ∷ step_title (lit "Step 2 - Check your node status")
      ∷ map (alert_part to_text v.config.model_info) (
          join_alerts v.cluster_info.status v.cluster_info.init_nodes_number
            v.cluster_info.need_more_nodes v.config.model_info v.node_info_list)
    ++ node_list ∷ []

-- The link of the join page, at the start of its layout.
abbrev pub join_back : Text
join_back = path_setup
