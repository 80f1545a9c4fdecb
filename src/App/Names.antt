-- ===== src/App/Names.antt =====
-- The model that the configuration names while the page runs.
use mathlib.Core.Logic.{if_pos, if_neg}
use toolkit_inference_mesh.Common.{
  ◌≡◌, ◌≢◌, refl, ◌∙◌, Bool, true, false, not, ◌&&◌, List, [], ◌∷◌, All, arith,
}
use toolkit_inference_mesh.Js.Text.{Text, is_empty}
use toolkit_inference_mesh.Js.Json.{Json}
use toolkit_inference_mesh.Stream.Http
use toolkit_inference_mesh.Stream.Http.{Action}
use toolkit_inference_mesh.Cluster.Status.{ClusterStatus, offline}
use toolkit_inference_mesh.Cluster.Info
use toolkit_inference_mesh.Cluster.Info.{
  StreamMessage, ClusterStates, ModelInfo, info_discrete, set_model_info_list, on_message, reset,
}
use toolkit_inference_mesh.Cluster.Config.{
  ClusterConfig, init_model_name, first_model_name, init_scheduler, no_model,
}
use toolkit_inference_mesh.Cluster.Provider.{with_model_name}
use toolkit_inference_mesh.Cluster.Session.{apply_actions, apply_action}
use toolkit_inference_mesh.App.{
  App, Event, turn, models_loaded, set_network_type, set_init_nodes_number, set_model_name,
  navigated, redirect, delay_over, dialog_closed, config_effect, on_cluster, on_models, go, step,
  run, mounted,
}

abbrev pub is_offline : ClusterStatus → Bool
is_offline offline = true
is_offline _ = false

-- A model is named once the provider hears from the cluster and the first model of the list has a
-- name.
abbrev pub IsNamed : ClusterStates → ClusterConfig → Type 0
IsNamed s c =
    is_empty c.model_name
      && not (is_offline s.cluster_info.status)
      && not (is_empty (first_model_name s.model_info_list))
    ≡ false

-- A user does not choose a model without a name.
abbrev pub chooses_named : Event → Bool
chooses_named (set_model_name t) = not (is_empty t)
chooses_named _ = true

init_model_name-named :
    (s : ClusterStatus) (cluster_model prev : Text) (models : List ModelInfo)
    → is_empty (init_model_name s cluster_model models prev)
        && not (is_offline s)
        && not (is_empty (first_model_name models))
      ≡ false
unfolding init_model_name
init_model_name-named s cluster_model prev models = ground arith

with_model_name-IsNamed : (s : ClusterStates) (c : ClusterConfig) → IsNamed s (with_model_name s c)
unfolding with_model_name
with_model_name-IsNamed s c =
    init_model_name-named s.cluster_info.status s.cluster_info.model_name c.model_name
      s.model_info_list

config_effect-IsNamed :
    (before after : ClusterStates) (c : ClusterConfig)
    → after.model_info_list ≡ before.model_info_list
    → IsNamed before c
    → IsNamed after (config_effect before after c)
unfolding config_effect
config_effect-IsNamed before after c m h =
    elim (info_discrete after.cluster_info before.cluster_info) [
      | yes e ↦
          rw
            (if_pos (info_discrete after.cluster_info before.cluster_info) e c
              (with_model_name after c))
            (rw (e, m) h)
      | no n ↦
          rw
            (if_neg (info_discrete after.cluster_info before.cluster_info) n c
              (with_model_name after c))
            (with_model_name-IsNamed after c)
    ]

on_message-models :
    (m : StreamMessage) (s : ClusterStates) → (on_message m s).model_info_list ≡ s.model_info_list
unfolding on_message
on_message-models (Info.cluster_status d) s = refl
on_message-models Info.other_message s = refl

module _ (read : Json → StreamMessage) where
  -- No message touches the list of models.
  apply_action-models :
      (a : Action) (s : ClusterStates) → (apply_action read a s).model_info_list ≡ s.model_info_list
  unfolding apply_action on_message reset
  apply_action-models (Http.message v) s = on_message-models (read v) s
  apply_action-models Http.error_callback s = refl
  apply_action-models (Http.status_change status) s = refl
  apply_action-models Http.reconnect_later s = refl
  apply_action-models Http.abort_fetch s = refl

  apply_actions-models :
      (actions : List Action) (s : ClusterStates)
      → (apply_actions read actions s).model_info_list ≡ s.model_info_list
  unfolding apply_actions
  apply_actions-models [] s = refl
  apply_actions-models (a ∷ more) s =
      apply_actions-models more (apply_action read a s) ∙ apply_action-models a s

module _ (matches : Text → Text → Bool) (read : Json → StreamMessage) where
  step-IsNamed :
      (e : Event) (a : App)
      → chooses_named e ≡ true
      → IsNamed a.cluster a.config
      → IsNamed (step matches read e a).cluster (step matches read e a).config
  unfolding step on_cluster on_models go
  step-IsNamed (turn actions) a n h =
      config_effect-IsNamed a.cluster (apply_actions read actions a.cluster) a.config
        (apply_actions-models read actions a.cluster) h
  step-IsNamed (models_loaded models) a n h =
      with_model_name-IsNamed (set_model_info_list models a.cluster) a.config
  step-IsNamed (set_network_type t) a n h = h
  step-IsNamed (set_init_nodes_number k) a n h = h
  step-IsNamed (set_model_name t) a n h = ground arith
  step-IsNamed (navigated t) a n h = h
  step-IsNamed redirect a n h = h
  step-IsNamed delay_over a n h = h
  step-IsNamed (dialog_closed k) a n h = h

  run-IsNamed :
      (es : List Event) (a : App)
      → All (λ e. chooses_named e ≡ true) es
      → IsNamed a.cluster a.config
      → IsNamed (run matches read es a).cluster (run matches read es a).config
  unfolding run
  run-IsNamed [] a n h = h
  run-IsNamed (e ∷ es) a (n, ns) h =
      run-IsNamed es (step matches read e a) ns (step-IsNamed e a n h)

  sends_of_named :
      (s : ClusterStates) (c : ClusterConfig)
      → IsNamed s c
      → is_offline s.cluster_info.status ≡ false
      → is_empty (first_model_name s.model_info_list) ≡ false
      → (is_empty c.model_name ≡ false) × (init_scheduler c ≢ no_model)
  unfolding init_scheduler
  sends_of_named s c h o m = ground arith

  -- Where the user chooses only models that have a name, then at any time after which the provider
  -- has heard from the cluster and has loaded a list whose first model has a name, the configuration
  -- names a model: `init` does not refuse to start for the want of one.
  pub run-starts :
      (pathname : Text) (es : List Event)
      → All (λ e. chooses_named e ≡ true) es
      → is_offline (run matches read es (mounted matches read pathname)).cluster.cluster_info.status
        ≡ false
      → is_empty (
          first_model_name
            (run matches read es (mounted matches read pathname)).cluster.model_info_list)
        ≡ false
      → (is_empty (run matches read es (mounted matches read pathname)).config.model_name ≡ false)
        × (init_scheduler (run matches read es (mounted matches read pathname)).config ≢ no_model)
  run-starts pathname es n o m =
      let a = run matches read es (mounted matches read pathname) in
      sends_of_named a.cluster a.config
        (run-IsNamed es (mounted matches read pathname) n (unfold mounted in refl)) o m
