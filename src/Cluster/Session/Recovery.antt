-- ===== src/Cluster/Session/Recovery.antt =====
-- The status stream fails, and comes back.
use mathlib.Core.Logic.{if_pos, if_neg}
use toolkit_inference_mesh.Common.{
  ◌≡◌, refl, ap, ◌∙◌, Option, List, [], ◌∷◌, ◌++◌, map, concat, append-nil, Bool, true,
}
use toolkit_inference_mesh.Js.Text.{Text}
use toolkit_inference_mesh.Js.Json.{Json}
use toolkit_inference_mesh.Stream.Http
use toolkit_inference_mesh.Stream.Http.{
  chunk, stream_end, reading, parse_lines, on_rejected, settle, on_status_change,
}
use toolkit_inference_mesh.Stream.Frames.Laws.{complete_lines}
use toolkit_inference_mesh.Cluster.Nodes.{
  NodeInfo, RawNode, to_node_info, update_nodes, with_offline, nodes_discrete, prev_online_nodes,
  prev_offline_nodes,
}
use toolkit_inference_mesh.Cluster.Nodes.Laws.{update_nodes-with_offline}
use toolkit_inference_mesh.Cluster.Info.{
  StreamMessage, cluster_status, StatusData, ClusterStates, on_message, next_info,
  initial_cluster_info, reset,
}
use toolkit_inference_mesh.Cluster.Info.Laws.{update_info-next_info}
use toolkit_inference_mesh.Cluster.Session.{apply_action, apply_actions, watch}
use toolkit_inference_mesh.Cluster.Session.Laws.{reads, on_values, watch-on_values}

-- Where no node was known, the list is that of the message.
with_offline_of_none : (next : List NodeInfo) → with_offline next [] ≡ next
unfolding with_offline prev_online_nodes prev_offline_nodes
with_offline_of_none next = elim (nodes_discrete next []) [
  | yes e ↦ rw (if_pos (nodes_discrete next []) e (next ++ []) next) (append-nil next)
  | no n ↦ rw (if_neg (nodes_discrete next []) n (next ++ []) next) refl
]

update_nodes_of_none : (raw : List RawNode) → update_nodes raw [] ≡ map to_node_info raw
update_nodes_of_none raw =
    update_nodes-with_offline raw [] ∙ with_offline_of_none (map to_node_info raw)

module _ (read : Json → StreamMessage) where
  -- What the provider has of the cluster after a status that comes after nothing.
  abbrev pub fresh : StatusData → ClusterStates → ClusterStates
  fresh d s = record s {
    cluster_info = next_info [] d initial_cluster_info;
    node_info_list = map to_node_info d.node_list;
  }

  on_message-reset :
      (d : StatusData) (s : ClusterStates) → on_message (cluster_status d) (reset s) ≡ fresh d s
  unfolding on_message reset
  on_message-reset d s = λ i. record s {
    cluster_info = update_info-next_info [] d initial_cluster_info i;
    node_info_list = update_nodes_of_none d.node_list i;
  }

  -- A request that reads, and then is rejected, forgets the cluster, whatever was left in the buffer.
  rejected-reset :
      (parse_json : Text → Option Json) (buffer : Text) (of_reader : Bool) (s : ClusterStates)
      → watch read parse_json
          (record { phase = reading buffer; reader = Http.live; controller = true })
          (Http.rejected of_reader ∷ [])
          s
        ≡ reset s
  unfolding watch apply_actions apply_action Http.run Http.step Http.dispatch on_rejected settle
      on_status_change
  rejected-reset parse_json buffer of_reader s = refl

  -- The stream fails while it is read, and the client asks again: after a response, however it is
  -- cut into chunks, with one complete line that parses, and this a status, the information and the
  -- nodes are those of this status alone, whatever was known before, and the list of models is the
  -- one that was loaded.
  pub watch-fresh :
      (parse_json : Text → Option Json) (buffer : Text) (of_reader : Bool) (chunks : List Text)
      (v : Json) (d : StatusData) (s : ClusterStates)
      → parse_lines parse_json (complete_lines (concat chunks)) ≡ v ∷ []
      → read v ≡ cluster_status d
      → watch read parse_json (reads read) (map chunk chunks ++ stream_end ∷ []) (
          watch read parse_json
            (record { phase = reading buffer; reader = Http.live; controller = true })
            (Http.rejected of_reader ∷ [])
            s)
        ≡ fresh d s
  watch-fresh parse_json buffer of_reader chunks v d s e r =
      ap (watch read parse_json (reads read) (map chunk chunks ++ stream_end ∷ []))
        (rejected-reset parse_json buffer of_reader s)
      ∙ watch-on_values read parse_json chunks (reset s)
      ∙ ap (λ ws. on_values read ws (reset s)) e
      ∙ ap (λ m. on_message m (reset s)) r
      ∙ on_message-reset d s
