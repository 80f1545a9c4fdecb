-- ===== src/App/Node/Laws.antt =====
-- What the page of a node shows.
use toolkit_inference_mesh.Stream.Http.{Action}
use mathlib.Core.Logic.{if_pos, if_neg}
use mathlib.Core.Option
use toolkit_inference_mesh.Common.{
  ◌≡◌, refl, ◌∙◌, Bool, true, false, Option, none, some, List, [], ◌∷◌, arith, sym, ap,
}
use toolkit_inference_mesh.Js.Text.{Text, is_some}
use toolkit_inference_mesh.Js.Json.{Json}
use toolkit_inference_mesh.Cluster.Status.{node_host, ClusterStatus, is_idle}
use toolkit_inference_mesh.Cluster.Info.{StreamMessage, ClusterInfo, first_states}
use toolkit_inference_mesh.Cluster.Session.{apply_actions}
use toolkit_inference_mesh.Ui.Router.{chat_redirect, chat_routes, is_chat_screen}
use toolkit_inference_mesh.Ui.Drawer
use toolkit_inference_mesh.Ui.Drawer.{Dialogs}
use toolkit_inference_mesh.App.{
  first_config, layout_effects, layout_at, mount_layout, status_discrete,
}
use toolkit_inference_mesh.App.Node.{
  Node, Event, turn, navigated, redirect, delay_over, dialog_closed, on_cluster, go, on_redirect,
  step, run, mounted,
}

-- Whether the dialog that asks to reconnect nodes is open.
abbrev pub asks : Option Dialogs → Bool
asks none = false
asks (some d) = d.waiting_open

layout_effects-asks :
    (before after : ClusterInfo) (o : Option Dialogs)
    → asks o ≡ false
    → (asks (Option.map (layout_effects node_host before after) o) ≡ false)
      × (is_some (Option.map (layout_effects node_host before after) o) ≡ is_some o)
layout_effects-asks before after none h = (refl, refl)
layout_effects-asks before after (some d) h = (
  elim (status_discrete after.status before.status) [
    | yes e ↦
        unfold layout_effects Drawer.on_need_more_nodes in
        rw
          (if_pos (status_discrete after.status before.status) e d
            (Drawer.on_status node_host after.status d))
          h
    | no n ↦
        unfold layout_effects Drawer.on_status Drawer.on_need_more_nodes in
        rw
          (if_neg (status_discrete after.status before.status) n d
            (Drawer.on_status node_host after.status d))
          (ground arith)
  ],
  refl,
)

layout_at-asks :
    (b : Bool) (info : ClusterInfo) (o : Option Dialogs)
    → asks o ≡ false
    → (asks (layout_at node_host b info o) ≡ false) × (is_some (layout_at node_host b info o) ≡ b)
unfolding layout_at mount_layout Drawer.on_status Drawer.on_need_more_nodes
layout_at-asks false info o h = (refl, refl)
layout_at-asks true info none h = (refl, refl)
layout_at-asks true info (some d) h = (h, refl)

passed-asks :
    (o : Option Dialogs)
    → asks o ≡ false
    → (asks (Option.map (Drawer.step node_host Drawer.second_passed) o) ≡ false)
      × (is_some (Option.map (Drawer.step node_host Drawer.second_passed) o) ≡ is_some o)
unfolding Drawer.step Drawer.on_timer
passed-asks none h = (refl, refl)
passed-asks (some d) h = (ground arith, refl)

closed-asks :
    (k : Drawer.Kind) (o : Option Dialogs)
    → asks o ≡ false
    → (asks (Option.map (Drawer.step node_host (Drawer.closed k)) o) ≡ false)
      × (is_some (Option.map (Drawer.step node_host (Drawer.closed k)) o) ≡ is_some o)
unfolding Drawer.step
closed-asks k none h = (refl, refl)
closed-asks Drawer.waiting_kind (some d) h = (refl, refl)
closed-asks Drawer.rebalancing_kind (some d) h = (h, refl)
closed-asks Drawer.need_more_nodes_kind (some d) h = (h, refl)
closed-asks Drawer.failed_kind (some d) h = (h, refl)

failed_opens :
    (before after : ClusterInfo) (d : Dialogs)
    → is_idle before.status ≡ false
    → after.status ≡ ClusterStatus.idle
    → (Drawer.step node_host Drawer.second_passed
        (layout_effects node_host before after d)).failed_open
      ≡ true
failed_opens before after d b a = elim (status_discrete after.status before.status) [
  | yes e ↦ absurd (ground (arith, (ap is_idle (sym e ∙ a))))
  | no n ↦
      unfold layout_effects Drawer.on_status Drawer.on_need_more_nodes Drawer.step
        Drawer.on_timer in
      rw
        (
          if_neg (status_discrete after.status before.status) n d
              (Drawer.on_status node_host after.status d),
          a,
        )
        refl
]

module _ (matches : Text → Text → Bool) (read : Json → StreamMessage) where
  -- The timer of the router leads where the path asks for, the dialogs are there where the routes
  -- show the chat, and the one that asks to reconnect nodes, which is for the host, is closed.
  pub record IsCoherent (a : Node) : Type 0 where
    pub planned : a.target ≡ chat_redirect a.pathname
    pub shown : is_some a.layout ≡ is_chat_screen (chat_routes matches a.pathname)
    pub quiet : asks a.layout ≡ false

  go-IsCoherent : (t : Text) (a : Node) → asks a.layout ≡ false → IsCoherent (go matches read t a)
  unfolding go
  go-IsCoherent t a h =
      let (quiet, shown) =
        layout_at-asks (is_chat_screen (chat_routes matches t)) a.cluster.cluster_info a.layout h in
      record { planned = refl; shown = shown; quiet = quiet }

  redirect-IsCoherent :
      (o : Option Text) (a : Node) → IsCoherent a → IsCoherent (on_redirect matches read o a)
  unfolding on_redirect
  redirect-IsCoherent none a h = h
  redirect-IsCoherent (some t) a h = go-IsCoherent t a h.quiet

  step-IsCoherent : (e : Event) (a : Node) → IsCoherent a → IsCoherent (step matches read e a)
  unfolding step on_cluster
  step-IsCoherent (turn actions) a h =
      let next = (apply_actions read actions a.cluster).cluster_info in
      let (quiet, same) = layout_effects-asks a.cluster.cluster_info next a.layout h.quiet in
      record { planned = h.planned; shown = same ∙ h.shown; quiet = quiet }
  step-IsCoherent (navigated t) a h = go-IsCoherent t a h.quiet
  step-IsCoherent redirect a h = redirect-IsCoherent a.target a h
  step-IsCoherent delay_over a h =
      let (quiet, same) = passed-asks a.layout h.quiet in
      record { planned = h.planned; shown = same ∙ h.shown; quiet = quiet }
  step-IsCoherent (dialog_closed k) a h =
      let (quiet, same) = closed-asks k a.layout h.quiet in
      record { planned = h.planned; shown = same ∙ h.shown; quiet = quiet }

  run-IsCoherent : (es : List Event) (a : Node) → IsCoherent a → IsCoherent (run matches read es a)
  unfolding run
  run-IsCoherent [] a h = h
  run-IsCoherent (e ∷ es) a h = run-IsCoherent es (step matches read e a) (step-IsCoherent e a h)

  mounted-IsCoherent : (pathname : Text) → IsCoherent (mounted matches read pathname)
  unfolding mounted
  mounted-IsCoherent pathname =
      go-IsCoherent pathname
        (record {
          cluster = first_states;
          config = first_config;
          pathname = pathname;
          target = none;
          layout = none;
        })
        refl

  dialogs_there : (o : Option Dialogs) → is_some o ≡ true → (d : Dialogs) × (o ≡ some d)
  dialogs_there none h = absurd (ground arith)
  dialogs_there (some d) h = (d, refl)

  -- On the page of a node, where the routes show the chat and the cluster is not idle: a turn after
  -- which the cluster is idle, and the delay with nothing between, open the dialog on a lost
  -- scheduler; the one that asks to reconnect nodes stays closed.
  pub run-notices :
      (pathname : Text) (es : List Event) (actions : List Action)
      → is_chat_screen
          (chat_routes matches (run matches read es (mounted matches read pathname)).pathname)
        ≡ true
      → is_idle (run matches read es (mounted matches read pathname)).cluster.cluster_info.status
        ≡ false
      → (apply_actions read actions
          (run matches read es (mounted matches read pathname)).cluster).cluster_info.status
        ≡ ClusterStatus.idle
      → (d : Dialogs) × ((run matches read
            (turn actions ∷ delay_over ∷ [])
            (run matches read es (mounted matches read pathname))).layout
          ≡ some d)
        × (d.failed_open ≡ true)
        × (d.waiting_open ≡ false)
  unfolding run step on_cluster
  run-notices pathname es actions route before after =
      let a = run matches read es (mounted matches read pathname) in
      let h = run-IsCoherent es (mounted matches read pathname) (mounted-IsCoherent pathname) in
      let next = (apply_actions read actions a.cluster).cluster_info in
      let (d, there) = dialogs_there a.layout (h.shown ∙ route) in
      let d' = layout_effects node_host a.cluster.cluster_info next d in
      (
        Drawer.step node_host Drawer.second_passed d',
        ap
            (λ o.
              Option.map (Drawer.step node_host Drawer.second_passed)
                (Option.map (layout_effects node_host a.cluster.cluster_info next) o))
            there,
        failed_opens a.cluster.cluster_info next d before after,
        (passed-asks (some d')
            (layout_effects-asks a.cluster.cluster_info next (some d)
              (sym (ap asks there) ∙ h.quiet)).0).0,
      )
