-- ===== src/Ui/NodeList.antt =====
-- `NodeList` (components/inputs/node-list.tsx): the rows that it shows. The conversion of a number
-- to a text is the parameter `num_text`.
pub mod Laws
pub mod View
use toolkit_inference_mesh.Common.{
  ℕ, ltb, if◌then◌else◌, length, filter, replicate, suc, ◌-◌, Bool, not, ◌&&◌, Option, none, some,
  List, [], ◌∷◌, ◌++◌, map,
}
use toolkit_inference_mesh.Cluster.Nodes.{NodeInfo}
use toolkit_inference_mesh.Cluster.Status.{is_idle, ClusterStatus}
use toolkit_inference_mesh.Js.Text.{Text, is_empty, lit}

pub data ListVariant : Type 0 where
  list menu : ListVariant

-- A dash, animated or not, or a node; a node that is not known yet is shown as a skeleton.
pub data Row : Type 0 where
  dash : (animate : Bool) → Row
  node : Option NodeInfo → Row

abbrev pub join_spaced : List Text → Text
join_spaced [] = []
join_spaced (t ∷ []) = t
join_spaced (t ∷ u ∷ ts) = t ++ 32 ∷ join_spaced (u ∷ ts)

-- The text of a node: its number of GPUs from 2 on, their name, and their memory unless it is 0.
unfoldable pub node_title : (ℕ → Text) → NodeInfo → Text
node_title num_text n = join_spaced (
    filter (λ t. not (is_empty t))
      ((if ltb 1 n.gpu_number then num_text n.gpu_number ++ lit "x" else [])
        ∷ n.gpu_name
        ∷ (if ltb 0 n.gpu_memory then num_text n.gpu_memory ++ lit "GB" else [])
        ∷ []))

-- `renderDash`, with the count `dashIndex`.
unfoldable pub render_dash : ListVariant → Bool → ℕ → List Row × ℕ
render_dash list generating dash_index = ([], dash_index)
render_dash menu generating dash_index =
    (if ltb 0 dash_index then dash generating ∷ [] else [], suc dash_index)

-- `map` over the nodes.
unfoldable pub render_nodes : ListVariant → Bool → ℕ → List (Option NodeInfo) → List Row × ℕ
unfolding render_dash
render_nodes variant generating dash_index [] = ([], dash_index)
render_nodes variant generating dash_index (n ∷ ns) =
    let (dashes, next) = render_dash variant generating dash_index in
    let (rows, last) = render_nodes variant generating next ns in (dashes ++ node n ∷ rows, last)

-- The list: the nodes, and skeletons up to the initial number unless the cluster is idle.
unfoldable pub node_list : ListVariant → Bool → ClusterStatus → ℕ → List NodeInfo → List Row
unfolding render_nodes
node_list variant generating cluster_status init_nodes_number nodes =
    let nodes_number = length nodes in
    let (rows, dash_index) = render_nodes variant generating 0 (map some nodes) in
    let (more, last) =
      render_nodes variant generating dash_index
        (replicate (init_nodes_number - nodes_number) none) in
    rows
    ++ (if not (is_idle cluster_status) && ltb nodes_number init_nodes_number then more else [])
