-- ===== src/Cluster/Info/Laws.antt =====
-- What status messages do to the cluster's information.
use mathlib.Core.Logic.{if_pos, if_neg}
use toolkit_inference_mesh.Common.{
  ◌≡◌, refl, sym, ap, ◌∙◌, ◌⊎◌, inr, true, none, List, [], ◌∷◌, Option, some, get_or_else, inl,
}
use toolkit_inference_mesh.Cluster.Status.{offline, idle, ClusterStatus}
use toolkit_inference_mesh.Cluster.Nodes.Laws.{update_nodes_idem}
use toolkit_inference_mesh.Cluster.Info.{
  ClusterInfo, on_message, ModelInfo, StatusData, StreamMessage, cluster_status, other_message,
  next_info, info_discrete, update_info, ClusterStates, reset, set_model_info_list, find_model,
  first_states, status_of,
}
use toolkit_inference_mesh.Js.Text.{is_empty, Text}
use toolkit_inference_mesh.Cluster.Nodes.{update_nodes}

pub update_info-next_info :
    (models : List ModelInfo) (d : StatusData) (prev : ClusterInfo)
    → update_info models d prev ≡ next_info models d prev
unfolding update_info
update_info-next_info models d prev = elim (info_discrete (next_info models d prev) prev) [
  | yes p ↦ rw (if_pos _ p) (sym p)
  | no p ↦ rw (if_neg _ p)
]

next_info_idem :
    (models : List ModelInfo) (d : StatusData) (prev : ClusterInfo)
    → next_info models d (next_info models d prev) ≡ next_info models d prev
unfolding next_info
next_info_idem models d prev = refl

-- A message of the stream that comes a second time changes nothing, in the information and in the
-- list of nodes.
pub on_message_idem :
    (m : StreamMessage) (s : ClusterStates) → on_message m (on_message m s) ≡ on_message m s
unfolding on_message
on_message_idem (cluster_status d) s = λ i. record s {
  cluster_info =
      (update_info-next_info [] d (update_info [] d s.cluster_info)
          ∙ ap (next_info [] d) (update_info-next_info [] d s.cluster_info)
          ∙ next_info_idem [] d s.cluster_info
          ∙ sym (update_info-next_info [] d s.cluster_info))
        i;
  node_info_list = update_nodes_idem d.node_list s.node_info_list i;
}
on_message_idem other_message s = refl

-- What can happen to the provider's cluster states.
pub data Event : Type 0 where
  message : StreamMessage → Event
  stream_error : Event
  models_loaded : List ModelInfo → Event

unfoldable pub step : Event → ClusterStates → ClusterStates
unfolding on_message reset set_model_info_list
step (message m) s = on_message m s
step stream_error s = reset s
step (models_loaded models) s = set_model_info_list models s

unfoldable pub run : List Event → ClusterStates → ClusterStates
unfolding step
run [] s = s
run (e ∷ es) s = run es (step e s)

-- The status is idle or offline where there is no model, and the model is never resolved.
pub record Inv (s : ClusterStates) : Type 0 where
  pub unresolved : s.cluster_info.model_info ≡ none
  pub no_model :
      is_empty s.cluster_info.model_name ≡ true
      → (s.cluster_info.status ≡ idle) ⊎ (s.cluster_info.status ≡ offline)

status_of_no_model :
    (name : Text) (status : Option ClusterStatus)
    → is_empty name ≡ true
    → status_of name status ≡ idle
status_of_no_model name none h = refl
status_of_no_model name (some c) h = rw h

next_info-Inv :
    (d : StatusData) (s : ClusterStates)
    → Inv (record s {
      cluster_info = next_info [] d s.cluster_info;
      node_info_list = update_nodes d.node_list s.node_info_list;
    })
unfolding next_info find_model
next_info-Inv d s = record {
  unresolved =
      elim d.model_name
        as (λ o.
          elim o as (λ o'. Option ModelInfo) [ none ↦ none | some n ↦ find_model n [] ] ≡ none) [
            | none ↦ refl
            | some n ↦ refl
          ];
  no_model = λ z. inl (status_of_no_model (get_or_else d.model_name []) d.status z);
}

step-Inv : (e : Event) (s : ClusterStates) → Inv s → Inv (step e s)
unfolding step
step-Inv (message (cluster_status d)) s v =
    rw (update_info-next_info [] d s.cluster_info) (next_info-Inv d s)
step-Inv (message other_message) s v = v
step-Inv stream_error s v = record { unresolved = refl; no_model = λ z. inr refl }
step-Inv (models_loaded models) s v = record { unresolved = v.unresolved; no_model = v.no_model }

run-Inv : (es : List Event) (s : ClusterStates) → Inv s → Inv (run es s)
unfolding run
run-Inv [] s v = v
run-Inv (e ∷ es) s v = run-Inv es (step e s) (step-Inv e s v)

-- Whatever the stream sends and whatever models are loaded, `modelInfo` of the cluster is never
-- set; and where the cluster names no model, its status is idle or offline.
pub run-first_states-Inv : (es : List Event) → Inv (run es first_states)
run-first_states-Inv es =
    run-Inv es first_states (record { unresolved = refl; no_model = λ z. inr refl })
