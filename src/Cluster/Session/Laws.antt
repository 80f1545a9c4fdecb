-- ===== src/Cluster/Session/Laws.antt =====
-- What a status stream makes of the cluster's information.
use toolkit_inference_mesh.Common.{
  ◌≡◌, refl, sym, ap, ◌∙◌, true, Option, List, [], ◌∷◌, ◌++◌, map, All, concat, get_or_else,
}
use toolkit_inference_mesh.Js.Text.{Text}
use toolkit_inference_mesh.Js.Json.{Json}
use toolkit_inference_mesh.Stream.Http.{
  live, Action, message, chunk, stream_end, reading, parse_lines, Conn, on_status_change,
}
use toolkit_inference_mesh.Stream.Http.Laws.{run-complete_lines}
use toolkit_inference_mesh.Stream.Frames.Laws.{complete_lines, frames-complete_lines}
use toolkit_inference_mesh.Stream.Response.{Response, received, lines_of, lines_of-received}
use toolkit_inference_mesh.Cluster.Nodes.{NodeInfo, to_node_info}
use toolkit_inference_mesh.Cluster.Nodes.Laws.{IsLost, update_nodes-parts}
use toolkit_inference_mesh.Cluster.Info.{
  StreamMessage, cluster_status, StatusData, ClusterStates, on_message, status_of, next_info,
}
use toolkit_inference_mesh.Cluster.Session.{apply_action, apply_actions, watch}
use toolkit_inference_mesh.Cluster.Info.Laws.{update_info-next_info}

module _ (read : Json → StreamMessage) where
  -- The messages of some values, one after the other.
  abbrev pub on_values : List Json → ClusterStates → ClusterStates
  on_values [] s = s
  on_values (v ∷ vs) s = on_values vs (on_message (read v) s)

  apply_actions-values :
      (vs : List Json) (more : List Action) (s : ClusterStates)
      → apply_actions read (map message vs ++ more) s ≡ apply_actions read more (on_values vs s)
  unfolding apply_actions apply_action
  apply_actions-values [] more s = refl
  apply_actions-values (v ∷ vs) more s = apply_actions-values vs more (on_message (read v) s)

  on_values-snoc :
      (vs : List Json) (v : Json) (s : ClusterStates)
      → on_values (vs ++ v ∷ []) s ≡ on_message (read v) (on_values vs s)
  on_values-snoc [] v s = refl
  on_values-snoc (w ∷ vs) v s = on_values-snoc vs v (on_message (read w) s)

  -- A request that begins to read.
  abbrev pub reads : Conn
  reads = record { phase = reading []; reader = live; controller = true }

  pub watch-on_values :
      (parse_json : Text → Option Json) (chunks : List Text) (s : ClusterStates)
      → watch read parse_json reads (map chunk chunks ++ stream_end ∷ []) s
        ≡ on_values (parse_lines parse_json (complete_lines (concat chunks))) s
  unfolding watch apply_actions apply_action on_status_change
  watch-on_values parse_json chunks s =
      ap (λ l. apply_actions read l s) (run-complete_lines parse_json true chunks)
      ∙ apply_actions-values (parse_lines parse_json (complete_lines (concat chunks))) _ s

  -- The status stream from end to end: however a response is cut into chunks, where the last of its
  -- complete lines that parse is a status, then after the response the cluster has the status, the
  -- model's name and the number of nodes of this line, and its list of nodes begins with those of
  -- the line, in order; whatever stands behind them is marked as failed and is not named by it.
  pub watch_last :
      (parse_json : Text → Option Json) (chunks : List Text) (vs : List Json) (v : Json)
      (d : StatusData) (s : ClusterStates)
      → parse_lines parse_json (complete_lines (concat chunks)) ≡ vs ++ v ∷ []
      → read v ≡ cluster_status d
      → (lost : List NodeInfo) × (last : ClusterStates) × (watch read parse_json reads
            (map chunk chunks ++ stream_end ∷ [])
            s
          ≡ last)
        × (last.node_info_list ≡ map to_node_info d.node_list ++ lost)
        × All (IsLost (map to_node_info d.node_list)) lost
        × (last.cluster_info.status ≡ status_of (get_or_else d.model_name []) d.status)
        × (last.cluster_info.model_name ≡ get_or_else d.model_name [])
        × (last.cluster_info.init_nodes_number ≡ get_or_else d.init_nodes_num 0)
  unfolding on_message next_info
  watch_last parse_json chunks vs v d s e r =
      let before = on_values vs s in
      let (lost, parts, h) = update_nodes-parts d.node_list before.node_info_list in
      let last = on_message (cluster_status d) before in
      let info = update_info-next_info [] d before.cluster_info in
      (
        lost,
        last,
        watch-on_values parse_json chunks s
            ∙ ap (λ ws. on_values ws s) e
            ∙ on_values-snoc vs v s
            ∙ ap (λ m. on_message m before) r,
        parts,
        h,
        ap (λ i. i.status) info,
        ap (λ i. i.model_name) info,
        ap (λ i. i.init_nodes_number) info,
      )

  -- What a response of the status stream makes of the cluster is a function of the response as an
  -- abstract value, in which the cuts between the chunks are forgotten: in whichever chunks it is
  -- received, the states are those that the values of its lines give, one after the other.
  pub watch-lines_of :
      (parse_json : Text → Option Json) (r : Response) (chunks : List Text) (s : ClusterStates)
      → received chunks ≡ r
      → watch read parse_json reads (map chunk chunks ++ stream_end ∷ []) s
        ≡ on_values (parse_lines parse_json (lines_of r).0) s
  watch-lines_of parse_json r chunks s h =
      watch-on_values parse_json chunks s
      ∙ ap (λ ls. on_values (parse_lines parse_json ls) s)
          (sym (frames-complete_lines chunks) ∙ sym (ap (λ p. p.0) (lines_of-received chunks)))
      ∙ ap (λ q. on_values (parse_lines parse_json (lines_of q).0) s) h
