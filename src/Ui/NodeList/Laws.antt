-- ===== src/Ui/NodeList/Laws.antt =====
-- The layout of the node list.
use toolkit_inference_mesh.Common.{
  ℕ, ◌≡◌, refl, sym, ap, ◌∙◌, ltb, if◌then◌else◌, length, replicate, suc, ◌-◌, Bool, not, ◌&&◌,
  Option, none, some, List, [], ◌∷◌, ◌++◌, map, append_assoc, Bool-cases, inl, inr, true, false,
  arith,
}
use toolkit_inference_mesh.Ui.NodeList.{
  ListVariant, list, menu, Row, node_list, dash, node, render_dash, render_nodes, is_idle,
}
use toolkit_inference_mesh.Cluster.Status.{ClusterStatus}
use toolkit_inference_mesh.Cluster.Nodes.{NodeInfo}

-- The nodes and skeletons that are shown.
abbrev pub entries : ClusterStatus → ℕ → List NodeInfo → List (Option NodeInfo)
entries cluster_status init_nodes_number nodes =
    map some nodes
    ++ (if is_idle cluster_status then [] else replicate (init_nodes_number - length nodes) none)

-- In a list the entries alone; in a menu a dash before each but the first.
abbrev pub dashed : Bool → List (Option NodeInfo) → List Row
dashed generating [] = []
dashed generating (n ∷ ns) = dash generating ∷ node n ∷ dashed generating ns

abbrev pub layout : ListVariant → Bool → List (Option NodeInfo) → List Row
layout list generating ns = map node ns
layout menu generating [] = []
layout menu generating (n ∷ ns) = node n ∷ dashed generating ns

render_nodes-list :
    (g : Bool) (k : ℕ) (ns : List (Option NodeInfo)) → render_nodes list g k ns ≡ (map node ns, k)
unfolding render_nodes render_dash
render_nodes-list g k [] = refl
render_nodes-list g k (n ∷ ns) = rw (render_nodes-list g k ns) refl

is_positive : (k : ℕ) → ltb 0 (suc k) ≡ true
is_positive k = ground arith

none_missing : (m n : ℕ) → ltb n m ≡ false → m - n ≡ 0
none_missing m n h = ground arith

render_nodes-dashed :
    (g : Bool) (k : ℕ) (ns : List (Option NodeInfo))
    → (render_nodes menu g (suc k) ns).0 ≡ dashed g ns
unfolding render_nodes render_dash
render_nodes-dashed g k [] = refl
render_nodes-dashed g k (n ∷ ns) =
    rw (is_positive k) (ap (λ r. dash g ∷ node n ∷ r) (render_nodes-dashed g (suc k) ns))

render_nodes-append :
    (v : ListVariant) (g : Bool) (k : ℕ) (ms ns : List (Option NodeInfo))
    → (render_nodes v g k (ms ++ ns)).0
      ≡ (render_nodes v g k ms).0 ++ (render_nodes v g (render_nodes v g k ms).1 ns).0
unfolding render_nodes
render_nodes-append v g k [] ns = refl
render_nodes-append v g k (m ∷ ms) ns =
    let (dashes, next) = render_dash v g k in
    ap (λ r. dashes ++ node m ∷ r) (render_nodes-append v g next ms ns)
    ∙ sym (append_assoc dashes _ _)

render_nodes-layout :
    (v : ListVariant) (g : Bool) (ns : List (Option NodeInfo))
    → (render_nodes v g 0 ns).0 ≡ layout v g ns
unfolding render_nodes render_dash
render_nodes-layout list g ns = ap (λ p. p.0) (render_nodes-list g 0 ns)
render_nodes-layout menu g [] = refl
render_nodes-layout menu g (n ∷ ns) = ap (λ r. node n ∷ r) (render_nodes-dashed g 0 ns)

-- The placeholders are there only where there are fewer nodes than asked for.
placeholders :
    (b : Bool) (v : ListVariant) (g : Bool) (k m n : ℕ)
    → (if not b && ltb n m then (render_nodes v g k (replicate (m - n) none)).0 else [])
      ≡ (render_nodes v g k (if b then [] else replicate (m - n) none)).0
unfolding render_nodes
placeholders true v g k m n = refl
placeholders false v g k m n = elim (Bool-cases (ltb n m)) [
  | inl y ↦ rw y refl
  | inr h ↦ rw (h, none_missing m n h) refl
]

-- The node list shows the cluster's nodes in order and then, unless the cluster is idle, one
-- skeleton for each node that is missing to the initial number. In a menu the entries are
-- separated by dashes, with none in front of the first; in a list there are none.
pub node_list-layout :
    (v : ListVariant) (g : Bool) (s : ClusterStatus) (m : ℕ) (nodes : List NodeInfo)
    → node_list v g s m nodes ≡ layout v g (entries s m nodes)
unfolding node_list
node_list-layout v g s m nodes =
    ap (λ r. (render_nodes v g 0 (map some nodes)).0 ++ r)
      (placeholders (is_idle s) v g _ m (length nodes))
    ∙ sym (render_nodes-append v g 0 (map some nodes) _)
    ∙ render_nodes-layout v g _
