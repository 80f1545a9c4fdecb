-- ===== src/Tests/Cluster.antt =====
-- The cluster: one node, known before.
use toolkit_inference_mesh.Cluster.Nodes.Lookup.{lookup_node, update_nodes-lookup_node}
use toolkit_inference_mesh.Common.{
  ◌⊎◌, ◌≢◌, Option, refl, ◌≡◌, List, [], ◌∷◌, some, none, true, ◌++◌, map, All, ℕ,
}
use toolkit_inference_mesh.Js.Text.{split, text_eq, lit, Text}
use toolkit_inference_mesh.Cluster.Status
use toolkit_inference_mesh.Cluster.Info.{StatusData, ClusterStates}
use toolkit_inference_mesh.Cluster.Session.{watch}
use toolkit_inference_mesh.Stream.Response.{received, lines_of}
use toolkit_inference_mesh.Cluster.Session.Recovery.{watch-fresh, fresh}
use toolkit_inference_mesh.Cluster.Session.Laws.{watch-lines_of, on_values, watch_last, reads}
use toolkit_inference_mesh.Stream.Http
use toolkit_inference_mesh.Stream.Http.{parse_lines}
use toolkit_inference_mesh.Stream.Frames.Laws.{complete_lines}
use toolkit_inference_mesh.Tests.Stream.{read_text}
use toolkit_inference_mesh.Ui.NodeList.View.Laws.{update_nodes-node_view, lost_view, shown, missing}
use toolkit_inference_mesh.Ui.NodeList.{menu}
use toolkit_inference_mesh.Cluster.Status.{HostType}
use toolkit_inference_mesh.Cluster.Api.{load_answers}
use toolkit_inference_mesh.Cluster.Api.Laws.{load_answers_first}
use toolkit_inference_mesh.Js.Json.{Json, Fields, field, end, str, arr, nil, obj, null, get}
use toolkit_inference_mesh.Cluster.Config.{RawModel}
use toolkit_inference_mesh.Cluster.Nodes.{
  RawNode, NodeInfo, update_nodes, to_node_info, prev_online_nodes,
}
use toolkit_inference_mesh.Cluster.Nodes.Laws.{IsLost}
use toolkit_inference_mesh.Cluster.Info.{StreamMessage, first_states, on_message, cluster_status}
use toolkit_inference_mesh.Cluster.Info.Laws.{on_message_idem}
use toolkit_inference_mesh.Cluster.Config.{ClusterConfig, InitParams}

abbrev pub raw_node : RawNode
raw_node = record {
  node_id = lit "n1";
  status = Status.NodeStatus.available;
  gpu_num = none;
  gpu_name = some (lit "A100");
  gpu_memory = some 80;
}

abbrev gone_node : NodeInfo
gone_node = record {
  id = lit "n0";
  status = Status.NodeStatus.available;
  gpu_number = 1;
  gpu_name = lit "A100";
  gpu_memory = 80;
}

abbrev pub status_data : StatusData
status_data = record {
  status = some Status.ClusterStatus.available;
  init_nodes_num = some 1;
  model_name = some (lit "qwen3");
  node_join_command = none;
  node_list = raw_node ∷ [];
  need_more_nodes = none;
}

abbrev pub status_message : StreamMessage
status_message = cluster_status status_data

update_nodes-lookup_node_example :
    ((n : NodeInfo) × (lookup_node (lit "n0") (map to_node_info (raw_node ∷ [])) ≡ some n)
      × (lookup_node
            (lit "n0")
            (update_nodes (raw_node ∷ []) (to_node_info raw_node ∷ gone_node ∷ []))
          ≡ some n))
    ⊎ ((lookup_node (lit "n0") (map to_node_info (raw_node ∷ [])) ≡ none)
        × ((lookup_node
                (lit "n0")
                (update_nodes (raw_node ∷ []) (to_node_info raw_node ∷ gone_node ∷ []))
              ≡ none)
            ⊎ ((n : NodeInfo) × (lookup_node
                    (lit "n0")
                    (update_nodes (raw_node ∷ []) (to_node_info raw_node ∷ gone_node ∷ []))
                  ≡ some n)
                × (n.status ≡ Status.NodeStatus.failed))))
update_nodes-lookup_node_example =
    update_nodes-lookup_node (raw_node ∷ []) (to_node_info raw_node ∷ gone_node ∷ []) (lit "n0")

on_message_idem_example :
    on_message status_message (on_message status_message first_states)
    ≡ on_message status_message first_states
on_message_idem_example = on_message_idem status_message first_states

abbrev test_config : ClusterConfig
test_config = record {
  network_type = Status.local_network;
  init_nodes_number = 2;
  model_name = lit "qwen3";
}

abbrev test_params : InitParams
test_params = record { model_name = lit "qwen3"; init_nodes_num = 2; is_local_network = true }

abbrev list_fields : Fields
list_fields = field (lit "type") (str (lit "model_list")) (field (lit "data") (arr nil) end)

abbrev no_models : Json → Option (List RawModel)
no_models j = some []

load_answers_first_example :
    (load_answers no_models HostType.cluster_host []
        (none ∷ some null ∷ some (obj list_fields) ∷ [])
      ≡ (some [], 3))
    × (load_answers no_models HostType.node_host [] (none ∷ some null ∷ some (obj list_fields) ∷ [])
        ≡ (none, 0))
unfolding get text_eq
load_answers_first_example =
    load_answers_first no_models [] (none ∷ some null ∷ []) [] list_fields (arr nil) []
      (refl, (refl, tt)) refl refl refl

abbrev one_text : ℕ → Text
one_text n = lit "1"

abbrev one_and_gone : List NodeInfo
one_and_gone = to_node_info raw_node ∷ gone_node ∷ []

update_nodes-node_view_example :
    ((prev_online_nodes (to_node_info raw_node ∷ []) one_and_gone ≡ to_node_info raw_node ∷ [])
      × (map (shown one_text menu) (update_nodes (raw_node ∷ []) one_and_gone)
          ≡ shown one_text menu (to_node_info raw_node)
            ∷ map (lost_view one_text menu) (missing (raw_node ∷ []) one_and_gone)))
    ⊎ ((prev_online_nodes (to_node_info raw_node ∷ []) one_and_gone ≢ to_node_info raw_node ∷ [])
        × (map (shown one_text menu) (update_nodes (raw_node ∷ []) one_and_gone)
            ≡ shown one_text menu (to_node_info raw_node) ∷ []))
update_nodes-node_view_example = update_nodes-node_view one_text menu (raw_node ∷ []) one_and_gone

abbrev pub status_chunks : List Text
status_chunks = lit "s" ∷ lit "\n" ∷ []

watch_last_example :
    (lost : List NodeInfo) × (last : ClusterStates) × (watch
        (λ v. status_message)
        read_text
        (reads (λ v. status_message))
        (map Http.chunk status_chunks ++ Http.stream_end ∷ [])
        first_states
      ≡ last)
    × (last.node_info_list ≡ to_node_info raw_node ∷ lost)
    × All (IsLost (to_node_info raw_node ∷ [])) lost
    × (last.cluster_info.status ≡ Status.ClusterStatus.available)
    × (last.cluster_info.model_name ≡ lit "qwen3")
    × (last.cluster_info.init_nodes_number ≡ 1)
unfolding complete_lines split parse_lines
watch_last_example =
    watch_last (λ v. status_message) read_text status_chunks [] (str (lit "s")) status_data
      first_states refl refl

watch-lines_of_example :
    watch
      (λ v. status_message)
      read_text
      (reads (λ v. status_message))
      (map Http.chunk status_chunks ++ Http.stream_end ∷ [])
      first_states
    ≡ on_values
        (λ v. status_message)
        (parse_lines read_text (lines_of (received status_chunks)).0)
        first_states
watch-lines_of_example =
    watch-lines_of (λ v. status_message) read_text (received status_chunks) status_chunks
      first_states refl

abbrev known_states : ClusterStates
known_states = record first_states { node_info_list = gone_node ∷ [] }

watch-fresh_example :
    watch
      (λ v. status_message)
      read_text
      (reads (λ v. status_message))
      (map Http.chunk status_chunks ++ Http.stream_end ∷ [])
      (watch
        (λ v. status_message)
        read_text
        (record { phase = Http.reading (lit "x"); reader = Http.live; controller = true })
        (Http.rejected true ∷ [])
        known_states)
    ≡ fresh (λ v. status_message) status_data known_states
unfolding complete_lines split parse_lines
watch-fresh_example =
    watch-fresh (λ v. status_message) read_text (lit "x") true status_chunks (str (lit "s"))
      status_data known_states refl refl
