-- ===== src/Ui/MainLayout/Laws.antt =====
-- What developers see of the cluster.
use toolkit_inference_mesh.Common.{
  Option-cases, inl, inr, ◌≡◌, true, Option, some, List, [], ◌∷◌, get_or_else, false, refl, none,
}
use toolkit_inference_mesh.Js.Text.{Text, lit}
use toolkit_inference_mesh.Js.Json.{Json, undef, bool, num, str, obj}
use toolkit_inference_mesh.Cluster.Info.{
  ClusterStates, StatusData, on_message, cluster_status, status_of, next_info,
}
use toolkit_inference_mesh.Cluster.Info.Laws.{update_info-next_info}
use toolkit_inference_mesh.Cluster.Config.{ClusterConfig}
use toolkit_inference_mesh.Cluster.Provider.{provider_value}
use toolkit_inference_mesh.Ui.MainLayout.{
  debug_info, config_entries, render_record, status_name, command_fields,
}
use toolkit_inference_mesh.Cluster.Info.{find_model, ClusterInfo}

-- The lines of a status message, as they are shown: without a model's information, since the
-- handler looks it up in an empty list.
abbrev pub status_lines : Text → StatusData → List (Text × Json)
status_lines id d =
    let name : Text = get_or_else d.model_name [] in
    (lit "id", str id)
    ∷ (lit "status", str (status_name (status_of name d.status)))
    ∷ (lit "modelName", str name)
    ∷ (lit "modelInfo", undef)
    ∷ (lit "nodeJoinCommand", obj (command_fields (get_or_else d.node_join_command [])))
    ∷ (lit "initNodesNumber", num (get_or_else d.init_nodes_num 0))
    ∷ (lit "needMoreNodes", bool (get_or_else d.need_more_nodes false))
    ∷ []

model_missing : (d : StatusData) (prev : ClusterInfo) → (next_info [] d prev).model_info ≡ none
unfolding next_info find_model
model_missing d prev = elim (Option-cases d.model_name) [
  | inl n ↦ rw n refl
  | inr (name, e) ↦ rw e refl
]

-- In development, a page with the main layout shows after a status message what the message says
-- of the cluster, with the defaults for what it leaves out, below the parameters that the user has
-- chosen; the line of the model's information has no text.
pub debug_info-on_message :
    (stringify : Json → Option Text) (c : ClusterConfig) (d : StatusData) (s : ClusterStates)
    → debug_info true stringify (provider_value c (on_message (cluster_status d) s))
      ≡ some (record {
        sections =
            render_record stringify
              (lit "Init Parameters")
              (config_entries (provider_value c s).config)
            ∷ render_record stringify (lit "Status Info") (status_lines s.cluster_info.id d)
            ∷ [];
        links = lit "/setup" ∷ lit "/join" ∷ lit "/chat" ∷ [];
      })
unfolding debug_info on_message next_info provider_value find_model
debug_info-on_message stringify c d s =
    rw (update_info-next_info [] d s.cluster_info, model_missing d s.cluster_info) refl
