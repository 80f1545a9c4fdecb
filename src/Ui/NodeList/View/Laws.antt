-- ===== src/Ui/NodeList/View/Laws.antt =====
-- How the nodes are shown after a status message.
use toolkit_inference_mesh.Common.{
  ℕ, ◌≡◌, refl, ap, ◌∙◌, true, some, List, [], ◌∷◌, ◌++◌, map, map-append, map-map, false, not,
  filter, sym, ◌≢◌, ◌⊎◌, inl, inr,
}
use toolkit_inference_mesh.Js.Text.{Text}
use toolkit_inference_mesh.Cluster.Nodes.{
  NodeInfo, RawNode, to_node_info, update_nodes, prev_online_nodes, prev_offline_nodes, mark_failed,
  nodes_discrete, has_id,
}
use toolkit_inference_mesh.Cluster.Nodes.Laws.{update_nodes-keeps, update_nodes-drops}
use toolkit_inference_mesh.Ui.NodeList.{ListVariant, list, menu, node_title}
use toolkit_inference_mesh.Ui.NodeList.View.{
  NodeView, node_view, error, is_list, StatusIcon, x, circle_filled,
}

-- The icon of a node that has failed: a cross in the list, a plain circle in the menu.
abbrev pub lost_icon : ListVariant → StatusIcon
lost_icon list = x
lost_icon menu = circle_filled

-- A node that is shown as failed.
abbrev pub lost_view : (ℕ → Text) → ListVariant → NodeInfo → NodeView
lost_view num_text variant n = record {
  in_paper = is_list variant;
  faded = true;
  title = some (node_title num_text n);
  mark = some (record { color = error; icon = lost_icon variant; turns = false });
}

node_view-mark_failed :
    (num_text : ℕ → Text) (variant : ListVariant) (n : NodeInfo)
    → node_view num_text variant (some (mark_failed n)) ≡ lost_view num_text variant n
unfolding node_view node_title
node_view-mark_failed num_text list n = refl
node_view-mark_failed num_text menu n = refl

-- The nodes that were known before and that a message does not name.
abbrev pub missing : List RawNode → List NodeInfo → List NodeInfo
missing raw prev = filter (λ n. not (has_id n.id (map to_node_info raw))) prev

module _ (num_text : ℕ → Text) (variant : ListVariant) where
  abbrev pub shown : NodeInfo → NodeView
  shown n = node_view num_text variant (some n)

  map-mark_failed :
      (ns : List NodeInfo) → map shown (map mark_failed ns) ≡ map (lost_view num_text variant) ns
  map-mark_failed [] = refl
  map-mark_failed (n ∷ ns) = rw (node_view-mark_failed num_text variant n, map-mark_failed ns) refl

  shown-split :
      (raw : List RawNode) (lost : List NodeInfo)
      → map shown (map to_node_info raw ++ lost)
        ≡ map (λ r. shown (to_node_info r)) raw ++ map shown lost
  shown-split raw lost =
      map-append shown (map to_node_info raw) lost
      ∙ ap (λ l. l ++ map shown lost) (map-map shown to_node_info raw)

  -- A status message is shown in one of two ways. Where the nodes known before that it names are
  -- just its nodes, in the same order and with the same values, the list shows the nodes of the
  -- message and behind them each node known before that it does not name: faded, with its title as
  -- before, in the color of an error, not turning, with a cross as icon in the list and a plain
  -- circle in the menu. Where they are not, it shows the nodes of the message only.
  pub update_nodes-node_view :
      (raw : List RawNode) (prev : List NodeInfo)
      → ((prev_online_nodes (map to_node_info raw) prev ≡ map to_node_info raw)
          × (map shown (update_nodes raw prev)
              ≡ map (λ r. shown (to_node_info r)) raw
                ++ map (lost_view num_text variant) (missing raw prev)))
        ⊎ ((prev_online_nodes (map to_node_info raw) prev ≢ map to_node_info raw)
            × (map shown (update_nodes raw prev) ≡ map (λ r. shown (to_node_info r)) raw))
  unfolding prev_offline_nodes
  update_nodes-node_view raw prev =
      elim (nodes_discrete (map to_node_info raw) (prev_online_nodes (map to_node_info raw) prev)) [
        | yes p ↦ inl (
          sym p,
          ap (map shown) (update_nodes-keeps raw prev (sym p))
              ∙ shown-split raw (map mark_failed (missing raw prev))
              ∙ ap (λ l. map (λ r. shown (to_node_info r)) raw ++ l)
                  (map-mark_failed (missing raw prev)),
        )
        | no p ↦ inr (
          λ e. p (sym e),
          ap (map shown) (update_nodes-drops raw prev (λ e. p (sym e)))
              ∙ map-map shown to_node_info raw,
        )
      ]
