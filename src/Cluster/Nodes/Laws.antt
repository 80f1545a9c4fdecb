-- ===== src/Cluster/Nodes/Laws.antt =====
-- What becomes of the nodes that have gone.
use toolkit_inference_mesh.Common.{
  Bool-cases, All, filter, ◌≡◌, ◌≢◌, refl, sym, inl, inr, Bool, true, false, not, List, [], ◌∷◌,
  ◌++◌, map, arith, ap, ◌∙◌, append-nil,
}
use toolkit_inference_mesh.Js.Text.Laws.{text_eq_refl}
use toolkit_inference_mesh.Cluster.Nodes.{
  NodeInfo, has_id, mark_failed, prev_offline_nodes, with_offline, RawNode, to_node_info,
  nodes_discrete, prev_online_nodes, update_nodes,
}
use toolkit_inference_mesh.Cluster.Status.{failed}
use mathlib.Core.Logic.{if_neg, if_pos}

filter_of_All :
    (p : NodeInfo → Bool) (xs : List NodeInfo)
    → All (λ n. p n ≡ true) xs
    → (filter p xs ≡ xs) × (filter (λ n. not (p n)) xs ≡ [])
filter_of_All p [] h = (refl, refl)
filter_of_All p (x ∷ xs) (h, hs) = let (a, b) = filter_of_All p xs hs in (rw (h, a), rw (h, b))

filter_of_none :
    (p : NodeInfo → Bool) (xs : List NodeInfo)
    → All (λ n. p n ≡ false) xs
    → (filter p xs ≡ []) × (filter (λ n. not (p n)) xs ≡ xs)
filter_of_none p [] h = (refl, refl)
filter_of_none p (x ∷ xs) (h, hs) = let (a, b) = filter_of_none p xs hs in (rw (h, a), rw (h, b))

filter-append :
    (p : NodeInfo → Bool) (xs ys : List NodeInfo) → filter p (xs ++ ys) ≡ filter p xs ++ filter p ys
filter-append p [] ys = refl
filter-append p (x ∷ xs) ys = elim (Bool-cases (p x)) [
  | inl h ↦ rw (h, filter-append p xs ys)
  | inr h ↦ rw (h, filter-append p xs ys)
]

has_id-weaken :
    (x : NodeInfo) (xs ys : List NodeInfo)
    → All (λ n. has_id n.id xs ≡ true) ys
    → All (λ n. has_id n.id (x ∷ xs) ≡ true) ys
unfolding has_id
has_id-weaken x xs [] h = tt
has_id-weaken x xs (y ∷ ys) (h, hs) = (ground arith, has_id-weaken x xs ys hs)

has_id_self : (xs : List NodeInfo) → All (λ n. has_id n.id xs ≡ true) xs
has_id_self [] = tt
has_id_self (x ∷ xs) =
    (unfold has_id in ground (arith, text_eq_refl x.id), has_id-weaken x xs xs (has_id_self xs))

-- A node that is gone from the present list.
abbrev pub IsLost : List NodeInfo → NodeInfo → Type 0
IsLost next n = (n.status ≡ failed) × (has_id n.id next ≡ false)

offline-IsLost : (next prev : List NodeInfo) → All (IsLost next) (prev_offline_nodes next prev)
unfolding prev_offline_nodes
offline-IsLost next [] = tt
offline-IsLost next (n ∷ ns) = elim (Bool-cases (has_id n.id next)) [
  | inl h ↦ rw h (offline-IsLost next ns)
  | inr h ↦ rw h ((refl, h), offline-IsLost next ns)
]

IsLost-gone :
    (next xs : List NodeInfo) → All (IsLost next) xs → All (λ n. has_id n.id next ≡ false) xs
IsLost-gone next [] h = tt
IsLost-gone next (x ∷ xs) (h, hs) = (h.1, IsLost-gone next xs hs)

mark_failed_of_IsLost : (next xs : List NodeInfo) → All (IsLost next) xs → map mark_failed xs ≡ xs
mark_failed_of_IsLost next [] h = refl
mark_failed_of_IsLost next (x ∷ xs) (h, hs) =
    λ i. record x { status = sym h.0 i } ∷ mark_failed_of_IsLost next xs hs i

module _ (next lost : List NodeInfo) (h : All (IsLost next) lost) where
  online-fixed : prev_online_nodes next (next ++ lost) ≡ next
  unfolding prev_online_nodes
  online-fixed =
      filter-append (λ n. has_id n.id next) next lost
      ∙ ap (λ l. l ++ filter (λ n. has_id n.id next) lost)
          (filter_of_All (λ n. has_id n.id next) next (has_id_self next)).0
      ∙ ap (λ l. next ++ l)
          (filter_of_none (λ n. has_id n.id next) lost (IsLost-gone next lost h)).0
      ∙ append-nil next

  offline-fixed : prev_offline_nodes next (next ++ lost) ≡ lost
  unfolding prev_offline_nodes
  offline-fixed =
      ap (map mark_failed) (
        filter-append (λ n. not (has_id n.id next)) next lost
        ∙ ap (λ l. l ++ filter (λ n. not (has_id n.id next)) lost)
            (filter_of_All (λ n. has_id n.id next) next (has_id_self next)).1
        ∙ (filter_of_none (λ n. has_id n.id next) lost (IsLost-gone next lost h)).1)
      ∙ mark_failed_of_IsLost next lost h

  -- With the gone nodes behind the present ones, the same message changes nothing.
  with_offline-fixed : with_offline next (next ++ lost) ≡ next ++ lost
  unfolding with_offline
  with_offline-fixed =
      if_pos (nodes_discrete next (prev_online_nodes next (next ++ lost))) (sym online-fixed) _ _
      ∙ ap (λ l. next ++ l) offline-fixed

with_offline-parts :
    (next prev : List NodeInfo)
    → (lost : List NodeInfo) × (with_offline next prev ≡ next ++ lost) × All (IsLost next) lost
unfolding with_offline
with_offline-parts next prev = elim (nodes_discrete next (prev_online_nodes next prev)) [
  | yes p ↦ (prev_offline_nodes next prev, rw (if_pos _ p), offline-IsLost next prev)
  | no p ↦ ([], rw (if_neg _ p) (sym (append-nil next)), tt)
]

pub update_nodes-with_offline :
    (raw : List RawNode) (prev : List NodeInfo)
    → update_nodes raw prev ≡ with_offline (map to_node_info raw) prev
unfolding update_nodes
update_nodes-with_offline raw prev =
    elim (nodes_discrete (with_offline (map to_node_info raw) prev) prev) [
      | yes p ↦ rw (if_pos _ p) (sym p)
      | no p ↦ rw (if_neg _ p)
    ]

-- The list that is shown after a status message begins with the nodes of the message, in its order.
-- Whatever stands behind them is marked as failed and has an id that the message does not name.
pub update_nodes-parts :
    (raw : List RawNode) (prev : List NodeInfo)
    → (lost : List NodeInfo) × (update_nodes raw prev ≡ map to_node_info raw ++ lost)
      × All (IsLost (map to_node_info raw)) lost
update_nodes-parts raw prev =
    let (lost, e, h) = with_offline-parts (map to_node_info raw) prev in
    (lost, update_nodes-with_offline raw prev ∙ e, h)

-- A status message that comes a second time changes nothing.
pub update_nodes_idem :
    (raw : List RawNode) (prev : List NodeInfo)
    → update_nodes raw (update_nodes raw prev) ≡ update_nodes raw prev
update_nodes_idem raw prev =
    let (lost, e, h) = update_nodes-parts raw prev in
    update_nodes-with_offline raw (update_nodes raw prev)
    ∙ ap (with_offline (map to_node_info raw)) e
    ∙ with_offline-fixed (map to_node_info raw) lost h
    ∙ sym e

with_offline_of_same :
    (next prev : List NodeInfo)
    → prev_online_nodes next prev ≡ next
    → with_offline next prev ≡ next ++ prev_offline_nodes next prev
unfolding with_offline
with_offline_of_same next prev h =
    rw (if_pos (nodes_discrete next (prev_online_nodes next prev)) (sym h))

-- Where no node that stays has changed, a node that is gone is kept and marked.
pub update_nodes-keeps :
    (raw : List RawNode) (prev : List NodeInfo)
    → prev_online_nodes (map to_node_info raw) prev ≡ map to_node_info raw
    → update_nodes raw prev ≡ map to_node_info raw ++ prev_offline_nodes (map to_node_info raw) prev
update_nodes-keeps raw prev h =
    update_nodes-with_offline raw prev ∙ with_offline_of_same (map to_node_info raw) prev h

-- Where one has changed, come or moved, the nodes that are gone are dropped.
pub update_nodes-drops :
    (raw : List RawNode) (prev : List NodeInfo)
    → prev_online_nodes (map to_node_info raw) prev ≢ map to_node_info raw
    → update_nodes raw prev ≡ map to_node_info raw
update_nodes-drops raw prev h =
    update_nodes-with_offline raw prev
    ∙ (unfold with_offline in
        rw (
          if_neg
            (nodes_discrete (map to_node_info raw) (prev_online_nodes (map to_node_info raw) prev))
            (λ e. h (sym e))))
