-- ===== src/Cluster/Nodes/Lookup.antt =====
-- The node list as a map from ids to nodes.
use toolkit_inference_mesh.Common.{
  ◌≡◌, refl, ap, ◌∙◌, ◌⊎◌, inl, inr, Option, none, some, List, [], ◌∷◌, ◌++◌, map, All, Bool-cases,
  if◌then◌else◌,
}
use toolkit_inference_mesh.Js.Text.{Text, text_eq}
use toolkit_inference_mesh.Cluster.Status.{failed}
use toolkit_inference_mesh.Cluster.Nodes.{NodeInfo, RawNode, to_node_info, update_nodes}
use toolkit_inference_mesh.Cluster.Nodes.Laws.{IsLost, update_nodes-parts}

-- The first node with the id.
abbrev pub lookup_node : Text → List NodeInfo → Option NodeInfo
lookup_node k [] = none
lookup_node k (n ∷ ns) = let rest = lookup_node k ns in if text_eq n.id k then some n else rest

lookup_node-append :
    (k : Text) (xs ys : List NodeInfo)
    → ((n : NodeInfo) × (lookup_node k xs ≡ some n) × (lookup_node k (xs ++ ys) ≡ some n))
      ⊎ ((lookup_node k xs ≡ none) × (lookup_node k (xs ++ ys) ≡ lookup_node k ys))
lookup_node-append k [] ys = inr (refl, refl)
lookup_node-append k (x ∷ xs) ys = elim (Bool-cases (text_eq x.id k)) [
  | inl y ↦ rw y (inl (x, refl, refl))
  | inr n ↦ rw n (lookup_node-append k xs ys)
]

lookup_node-lost :
    (next : List NodeInfo) (k : Text) (lost : List NodeInfo)
    → All (IsLost next) lost
    → (lookup_node k lost ≡ none)
      ⊎ ((n : NodeInfo) × (lookup_node k lost ≡ some n) × (n.status ≡ failed))
lookup_node-lost next k [] h = inl refl
lookup_node-lost next k (x ∷ xs) (h, hs) = elim (Bool-cases (text_eq x.id k)) [
  | inl y ↦ rw y (inr (x, refl, h.0))
  | inr n ↦ rw n (lookup_node-lost next k xs hs)
]

-- What the list says of a node after a status message, whatever it said before: of a node that the
-- message names, what the message says; of any other node, either nothing or that it has failed. So
-- no node is ever shown as waiting or available on the word of an earlier message.
pub update_nodes-lookup_node :
    (raw : List RawNode) (prev : List NodeInfo) (k : Text)
    → ((n : NodeInfo) × (lookup_node k (map to_node_info raw) ≡ some n)
        × (lookup_node k (update_nodes raw prev) ≡ some n))
      ⊎ ((lookup_node k (map to_node_info raw) ≡ none)
          × ((lookup_node k (update_nodes raw prev) ≡ none)
              ⊎ ((n : NodeInfo) × (lookup_node k (update_nodes raw prev) ≡ some n)
                  × (n.status ≡ failed))))
update_nodes-lookup_node raw prev k =
    let (lost, e, h) = update_nodes-parts raw prev in
    elim (lookup_node-append k (map to_node_info raw) lost) [
      | inl (n, named, found) ↦ inl (n, named, ap (lookup_node k) e ∙ found)
      | inr (unnamed, same) ↦ inr (
        unnamed,
        elim (lookup_node-lost (map to_node_info raw) k lost h) [
          | inl absent ↦ inl (ap (lookup_node k) e ∙ same ∙ absent)
          | inr (n, found, gone) ↦ inr (n, ap (lookup_node k) e ∙ same ∙ found, gone)
        ],
      )
    ]
