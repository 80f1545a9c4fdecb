-- ===== src/App/Effects.antt =====
-- What the effects of the page do to the path and to the dialogs of the chat.
use mathlib.Core.Logic.{if_pos, if_neg}
use mathlib.Core.Option
use toolkit_inference_mesh.Common.{
  ◌≡◌, refl, sym, Bool, true, false, not, ◌&&◌, Option, none, some, arith,
}
use toolkit_inference_mesh.Js.Text.{Text, is_some}
use toolkit_inference_mesh.Cluster.Status.{HostType, ClusterStatus, is_idle, cluster_host}
use toolkit_inference_mesh.Cluster.Info.{ClusterInfo}
use toolkit_inference_mesh.Ui.Router.Steps
use toolkit_inference_mesh.Ui.Router.Steps.{Page, timer}
use toolkit_inference_mesh.Ui.Router.Steps.Laws.{IsPlanned}
use toolkit_inference_mesh.Ui.Drawer
use toolkit_inference_mesh.Ui.Drawer.{Dialogs}
use toolkit_inference_mesh.App.{
  status_discrete, mount_layout, layout_effects, layout_at, page_effect,
}

-- Whether the timer of the dialog on a lost scheduler runs.
abbrev pub counts : Option Dialogs → Bool
counts none = false
counts (some d) = d.timer

pub page_effect-parts :
    (s : ClusterStatus) (p : Page)
    → IsPlanned p
    → ((page_effect s p).status ≡ s)
      × IsPlanned (page_effect s p)
      × ((page_effect s p).pathname ≡ p.pathname)
unfolding page_effect Steps.step Steps.plan
page_effect-parts s p h = elim (status_discrete s p.status) [
  | yes e ↦
      rw (if_pos (status_discrete s p.status) e p (Steps.step p (Steps.status_changed s)))
        (sym e, h, refl)
  | no n ↦
      rw (if_neg (status_discrete s p.status) n p (Steps.step p (Steps.status_changed s)))
        (refl, refl, refl)
]

layout_effects-counted :
    (host : HostType) (before after : ClusterInfo) (d : Dialogs)
    → d.timer && not (is_idle before.status) ≡ false
    → (layout_effects host before after d).timer && not (is_idle after.status) ≡ false
unfolding layout_effects Drawer.on_status Drawer.on_need_more_nodes
layout_effects-counted host before after d h = elim (status_discrete after.status before.status) [
  | yes e ↦
      rw
        (if_pos (status_discrete after.status before.status) e d
          (Drawer.on_status host after.status d))
        (rw e h)
  | no n ↦
      rw
        (if_neg (status_discrete after.status before.status) n d
          (Drawer.on_status host after.status d))
        (ground arith)
]

pub layout-counted :
    (host : HostType) (before after : ClusterInfo) (o : Option Dialogs)
    → counts o && not (is_idle before.status) ≡ false
    → (counts (Option.map (layout_effects host before after) o) && not (is_idle after.status)
        ≡ false)
      × (is_some (Option.map (layout_effects host before after) o) ≡ is_some o)
layout-counted host before after none h = (refl, refl)
layout-counted host before after (some d) h = (layout_effects-counted host before after d h, refl)

mount-counted :
    (host : HostType) (info : ClusterInfo)
    → (mount_layout host info).timer && not (is_idle info.status) ≡ false
unfolding mount_layout Drawer.on_status Drawer.on_need_more_nodes
mount-counted host info = ground arith

pub layout_at-parts :
    (host : HostType) (b : Bool) (info : ClusterInfo) (o : Option Dialogs)
    → counts o && not (is_idle info.status) ≡ false
    → (is_some (layout_at host b info o) ≡ b)
      × (counts (layout_at host b info o) && not (is_idle info.status) ≡ false)
unfolding layout_at
layout_at-parts host false info o h = (refl, refl)
layout_at-parts host true info none h = (refl, mount-counted host info)
layout_at-parts host true info (some d) h = (refl, h)

pub passed-counted :
    (o : Option Dialogs) (b : Bool)
    → counts o && b ≡ false
    → (is_some (Option.map (Drawer.step cluster_host Drawer.second_passed) o) ≡ is_some o)
      × (counts (Option.map (Drawer.step cluster_host Drawer.second_passed) o) && b ≡ false)
unfolding Drawer.step Drawer.on_timer
passed-counted none b h = (refl, refl)
passed-counted (some d) b h = (refl, ground arith)

closed-timer :
    (host : HostType) (k : Drawer.Kind) (d : Dialogs)
    → (Drawer.step host (Drawer.closed k) d).timer ≡ d.timer
unfolding Drawer.step
closed-timer host Drawer.waiting_kind d = refl
closed-timer host Drawer.rebalancing_kind d = refl
closed-timer host Drawer.need_more_nodes_kind d = refl
closed-timer host Drawer.failed_kind d = refl

pub closed-counted :
    (k : Drawer.Kind) (o : Option Dialogs) (b : Bool)
    → counts o && b ≡ false
    → (is_some (Option.map (Drawer.step cluster_host (Drawer.closed k)) o) ≡ is_some o)
      × (counts (Option.map (Drawer.step cluster_host (Drawer.closed k)) o) && b ≡ false)
closed-counted k none b h = (refl, refl)
closed-counted k (some d) b h = (refl, rw (closed-timer cluster_host k d) h)

pub redirect-page :
    (o : Option Text) (p : Page)
    → IsPlanned p
    → IsPlanned (Steps.on_timer o p) × ((Steps.on_timer o p).status ≡ p.status)
unfolding Steps.on_timer Steps.plan
redirect-page none p h = (h, refl)
redirect-page (some t) p h = (refl, refl)
