-- ===== src/App/Contexts.antt =====
-- The providers of App.tsx, one in the other, and the hooks that read what they provide:
-- services/host.tsx, services/cluster.tsx, services/chat.tsx. A context without a provider is
-- undefined, and its hook throws.
use toolkit_inference_mesh.Common.{Option, none, some, ◌≡◌, refl}
use toolkit_inference_mesh.Js.Result.{Result, throws, ok, ◌>>=◌}
use toolkit_inference_mesh.Cluster.Status.{HostType, cluster_host, node_host}
use toolkit_inference_mesh.Cluster.Info.{ClusterStates}
use toolkit_inference_mesh.Cluster.Config.{ClusterConfig}
use toolkit_inference_mesh.Cluster.Provider.{Value, provider_value, use_cluster}
use toolkit_inference_mesh.Chat.Messages.{ChatStates}

pub record Contexts : Type 0 where
  pub host : Option HostType
  pub cluster : Option Value
  pub chat : Option ChatStates

abbrev pub use_host : Option HostType → Result HostType
use_host none = throws
use_host (some t) = ok t

abbrev pub use_chat : Option ChatStates → Result ChatStates
use_chat none = throws
use_chat (some s) = ok s

abbrev pub host_provider : HostType → Contexts → Result Contexts
host_provider t ctx = ok (record ctx { host = some t })

-- `ClusterProvider` reads the host.
unfoldable pub cluster_provider : ClusterConfig → ClusterStates → Contexts → Result Contexts
unfolding provider_value
cluster_provider c s ctx = do
  t ← use_host ctx.host
  ok (record ctx { cluster = some (provider_value c s) })

-- `ChatProvider` reads the cluster.
unfoldable pub chat_provider : ChatStates → Contexts → Result Contexts
chat_provider chat ctx = do v ← use_cluster ctx.cluster; ok (record ctx { chat = some chat })

-- `Providers`
unfoldable pub providers : HostType → ClusterConfig → ClusterStates → ChatStates → Result Contexts
unfolding cluster_provider chat_provider
providers t c s chat = do
  outer ← host_provider t (record { host = none; cluster = none; chat = none })
  middle ← cluster_provider c s outer
  chat_provider chat middle

-- The two pages: what they show below the providers.
pub data Root : Type 0 where
  main_router chat_router : Root

pub record Entry : Type 0 where
  pub contexts : Contexts
  pub root : Root

-- `MainRouter` reads the cluster; `ChatRouter` reads no context.
unfoldable pub main_entry : ClusterConfig → ClusterStates → ChatStates → Result Entry
unfolding providers
main_entry c s chat = do
  ctx ← providers cluster_host c s chat
  v ← use_cluster ctx.cluster
  ok (record { contexts = ctx; root = main_router })

unfoldable pub chat_entry : ClusterConfig → ClusterStates → ChatStates → Result Entry
unfolding providers
chat_entry c s chat = do
  ctx ← providers node_host c s chat
  ok (record { contexts = ctx; root = chat_router })

-- All that the components of a page read.
pub record Reads (ctx : Contexts) (t : HostType) (v : Value) (chat : ChatStates) : Type 0 where
  pub host : use_host ctx.host ≡ ok t
  pub cluster : use_cluster ctx.cluster ≡ ok v
  pub chat_states : use_chat ctx.chat ≡ ok chat

-- Both pages render, whatever the providers hold: below them no hook throws, and the hooks give the
-- host's type, which is that of a cluster on the one page and that of a node on the other, the
-- values of the cluster and the states of the chat.
pub entries-Reads :
    (c : ClusterConfig) (s : ClusterStates) (chat : ChatStates)
    → (main : Entry) × (node : Entry) × (main_entry c s chat ≡ ok main)
      × (chat_entry c s chat ≡ ok node)
      × Reads main.contexts cluster_host (provider_value c s) chat
      × Reads node.contexts node_host (provider_value c s) chat
unfolding main_entry chat_entry
entries-Reads c s chat =
    let ctx : HostType → Contexts =
      λ t. record { host = some t; cluster = some (provider_value c s); chat = some chat } in
    (
      record { contexts = ctx cluster_host; root = main_router },
      record { contexts = ctx node_host; root = chat_router },
      refl,
      refl,
      record { host = refl; cluster = refl; chat_states = refl },
      record { host = refl; cluster = refl; chat_states = refl },
    )
