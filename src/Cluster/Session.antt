-- ===== src/Cluster/Session.antt =====
-- The cluster's status from end to end: the calls of the HTTP stream client, run by the handlers
-- that `ClusterProvider` gives it (services/cluster.tsx). `read` is how a JSON value reads as a
-- message of the stream.
pub mod Laws
pub mod Recovery
use toolkit_inference_mesh.Common.{true, Option, List, [], ◌∷◌}
use toolkit_inference_mesh.Js.Text.{Text}
use toolkit_inference_mesh.Js.Json.{Json}
use toolkit_inference_mesh.Stream.Http
use toolkit_inference_mesh.Stream.Http.{
  Action, Conn, Event, message, error_callback, status_change, reconnect_later, abort_fetch,
}
use toolkit_inference_mesh.Cluster.Info.{StreamMessage, ClusterStates, on_message, reset}

module _ (read : Json → StreamMessage) where
  -- `onMessage` and `onError`; the other options are not given.
  unfoldable pub apply_action : Action → ClusterStates → ClusterStates
  unfolding on_message reset
  apply_action (message v) s = on_message (read v) s
  apply_action error_callback s = reset s
  apply_action (status_change status) s = s
  apply_action reconnect_later s = s
  apply_action abort_fetch s = s

  unfoldable pub apply_actions : List Action → ClusterStates → ClusterStates
  unfolding apply_action
  apply_actions [] s = s
  apply_actions (a ∷ more) s = apply_actions more (apply_action a s)

  -- A request of `streamClusterStatus`, which reconnects by itself, over what the network does.
  unfoldable pub watch : (Text → Option Json) → Conn → List Event → ClusterStates → ClusterStates
  unfolding apply_actions
  watch parse_json c events s = apply_actions (Http.run true parse_json c events).1 s
