-- ===== src/Ui/Pages/Laws.antt =====
-- When the setup page goes on, and what an error on the join page means.
use toolkit_inference_mesh.Common.{
  ℕ, ◌≡◌, ap, ◌∙◌, ◌<◌, ◌↔◌, ◌⊎◌, Bool, true, false, List, [], ◌∷◌, map, arith, some, Bool-cases,
  length, ◌-◌, inl, inr, append-nil,
}
use toolkit_inference_mesh.Ui.Pages.{
  on_continue, Action, is_error, set_loading, request, navigate_join, log_error, needs_init,
}
use toolkit_inference_mesh.Ui.NodeList.{node_list, ListVariant}
use toolkit_inference_mesh.Ui.NodeList.Laws.{node_list-layout, layout, entries}
use toolkit_inference_mesh.Cluster.Status.{ClusterStatus, is_idle}
use toolkit_inference_mesh.Cluster.Config.{ClusterConfig}
use toolkit_inference_mesh.Cluster.Nodes.{NodeInfo}
use toolkit_inference_mesh.Js.Text.{is_empty}

-- The page goes to the next one.
abbrev pub navigates : List Action → Bool
navigates [] = false
navigates (navigate_join ∷ actions) = true
navigates (set_loading b ∷ actions) = navigates actions
navigates (request p ∷ actions) = navigates actions
navigates (log_error ∷ actions) = navigates actions

-- A click on the button to continue goes to the join page exactly if the cluster has been started
-- before, or if there are nodes and a model to start it with and the scheduler accepts them.
pub on_continue-navigates_iff :
    (status : ClusterStatus) (config : ClusterConfig) (answered : Bool)
    → (navigates (on_continue status config answered) ≡ true) ↔ (
        (needs_init status ≡ false)
        ⊎ ((0 < config.init_nodes_number)
            × (is_empty config.model_name ≡ false)
            × (answered ≡ true)))
unfolding on_continue
on_continue-navigates_iff status config answered = ground arith

none_missing_on_error :
    (status : ClusterStatus) (init_nodes_number : ℕ) (nodes : List NodeInfo)
    → is_error status init_nodes_number nodes ≡ true
    → init_nodes_number - length nodes ≡ 0
unfolding is_error
none_missing_on_error status init_nodes_number nodes h = ground arith

no_placeholders :
    (status : ClusterStatus) (init_nodes_number : ℕ) (nodes : List NodeInfo)
    → is_error status init_nodes_number nodes ≡ true
    → entries status init_nodes_number nodes ≡ map some nodes
no_placeholders status init_nodes_number nodes h =
    rw (none_missing_on_error status init_nodes_number nodes h)
      (elim (Bool-cases (is_idle status)) [
        | inl y ↦ rw y (append-nil (map some nodes))
        | inr n ↦ rw n (append-nil (map some nodes))
      ])

-- Where the join page reports an error, the list of nodes below it shows the cluster's nodes and no
-- skeleton: none is missing to the initial number.
pub is_error_complete :
    (v : ListVariant) (g : Bool) (status : ClusterStatus) (n : ℕ) (nodes : List NodeInfo)
    → is_error status n nodes ≡ true
    → node_list v g status n nodes ≡ layout v g (map some nodes)
is_error_complete v g status n nodes h =
    node_list-layout v g status n nodes ∙ ap (layout v g) (no_placeholders status n nodes h)
