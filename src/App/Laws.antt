-- ===== src/App/Laws.antt =====
-- What holds of the whole page in every state that it reaches.
use mathlib.Core.Option
use toolkit_inference_mesh.Common.{
  ◌≡◌, refl, sym, ap, ◌∙◌, Bool, false, not, ◌&&◌, none, List, [], ◌∷◌,
}
use toolkit_inference_mesh.Js.Text.{Text, is_some}
use toolkit_inference_mesh.Js.Json.{Json}
use toolkit_inference_mesh.Cluster.Status.{is_idle, cluster_host}
use toolkit_inference_mesh.Cluster.Info.{
  StreamMessage, ClusterStates, set_model_info_list, first_states,
}
use toolkit_inference_mesh.Ui.Router.{is_chat_screen, main_routes}
use toolkit_inference_mesh.Ui.Router.Steps
use toolkit_inference_mesh.Ui.Router.Steps.{Page}
use toolkit_inference_mesh.Ui.Router.Steps.Laws.{IsPlanned, plan-IsPlanned}
use toolkit_inference_mesh.Ui.Drawer
use toolkit_inference_mesh.App.{
  App, Event, turn, models_loaded, set_network_type, set_init_nodes_number, set_model_name,
  navigated, redirect, delay_over, dialog_closed, on_cluster, on_models, go, step, run, mounted,
}
use toolkit_inference_mesh.Cluster.Session.{apply_actions}
use toolkit_inference_mesh.App.Effects.{
  counts, page_effect-parts, layout-counted, layout_at-parts, passed-counted, closed-counted,
  redirect-page,
}
use toolkit_inference_mesh.Cluster.Config.{ClusterConfig}

module _ (matches : Text → Text → Bool) where
  -- The router knows the status that the provider has, and its timer leads where both ask for; the
  -- dialogs are there exactly where the routes show the chat, and the timer of the one on a lost
  -- scheduler runs only while the cluster is idle.
  pub record IsCoherent (a : App) : Type 0 where
    pub status : a.page.status ≡ a.cluster.cluster_info.status
    pub planned : IsPlanned a.page
    pub shown : is_some a.layout ≡ is_chat_screen (main_routes matches a.page.pathname)
    pub counted : counts a.layout && not (is_idle a.cluster.cluster_info.status) ≡ false

  on_cluster-IsCoherent :
      (next : ClusterStates) (a : App) → IsCoherent a → IsCoherent (on_cluster next a)
  unfolding on_cluster
  on_cluster-IsCoherent next a h =
      let (s, p, same) = page_effect-parts next.cluster_info.status a.page h.planned in
      let (c, o) =
        layout-counted cluster_host a.cluster.cluster_info next.cluster_info a.layout h.counted in
      record {
        status = s;
        planned = p;
        shown = o ∙ h.shown ∙ ap (λ t. is_chat_screen (main_routes matches t)) (sym same);
        counted = c;
      }

  go-IsCoherent :
      (p : Page) (a : App)
      → IsPlanned p
      → p.status ≡ a.page.status
      → IsCoherent a
      → IsCoherent (go matches p a)
  unfolding go
  go-IsCoherent p a planned same h =
      let (o, c) =
        layout_at-parts cluster_host (is_chat_screen (main_routes matches p.pathname))
          a.cluster.cluster_info a.layout h.counted in
      record { status = same ∙ h.status; planned = planned; shown = o; counted = c }

  -- Neither the second that passes nor the closed dialog sets the timer.
  passed-IsCoherent :
      (a : App)
      → IsCoherent a
      → IsCoherent (record a {
        layout = Option.map (Drawer.step cluster_host Drawer.second_passed) a.layout;
      })
  passed-IsCoherent a h =
      let (o, c) =
        passed-counted a.layout (not (is_idle a.cluster.cluster_info.status)) h.counted in
      record { status = h.status; planned = h.planned; shown = o ∙ h.shown; counted = c }

  closed-IsCoherent :
      (k : Drawer.Kind) (a : App)
      → IsCoherent a
      → IsCoherent
          (record a { layout = Option.map (Drawer.step cluster_host (Drawer.closed k)) a.layout })
  closed-IsCoherent k a h =
      let (o, c) =
        closed-counted k a.layout (not (is_idle a.cluster.cluster_info.status)) h.counted in
      record { status = h.status; planned = h.planned; shown = o ∙ h.shown; counted = c }

  config-IsCoherent :
      (c : ClusterConfig) (a : App) → IsCoherent a → IsCoherent (record a { config = c })
  config-IsCoherent c a h = record {
    status = h.status;
    planned = h.planned;
    shown = h.shown;
    counted = h.counted;
  }

module _ (matches : Text → Text → Bool) (read : Json → StreamMessage) where
  step-IsCoherent :
      (e : Event) (a : App) → IsCoherent matches a → IsCoherent matches (step matches read e a)
  unfolding step on_models set_model_info_list Steps.step
  step-IsCoherent (turn actions) a h =
      on_cluster-IsCoherent matches (apply_actions read actions a.cluster) a h
  step-IsCoherent (models_loaded models) a h = record {
    status = h.status;
    planned = h.planned;
    shown = h.shown;
    counted = h.counted;
  }
  step-IsCoherent (set_network_type t) a h = config-IsCoherent matches _ a h
  step-IsCoherent (set_init_nodes_number n) a h = config-IsCoherent matches _ a h
  step-IsCoherent (set_model_name t) a h = config-IsCoherent matches _ a h
  step-IsCoherent (navigated t) a h =
      let p : Page = record a.page { pathname = t } in
      go-IsCoherent matches (Steps.plan p) a (plan-IsPlanned p) (unfold Steps.plan in refl) h
  step-IsCoherent redirect a h =
      let (planned, same) = redirect-page a.page.target a.page h.planned in
      go-IsCoherent matches (Steps.on_timer a.page.target a.page) a planned same h
  step-IsCoherent delay_over a h = passed-IsCoherent matches a h
  step-IsCoherent (dialog_closed k) a h = closed-IsCoherent matches k a h

  pub run-IsCoherent' :
      (es : List Event) (a : App)
      → IsCoherent matches a
      → IsCoherent matches (run matches read es a)
  unfolding run
  run-IsCoherent' [] a h = h
  run-IsCoherent' (e ∷ es) a h = run-IsCoherent' es (step matches read e a) (step-IsCoherent e a h)

  mounted-IsCoherent : (pathname : Text) → IsCoherent matches (mounted matches read pathname)
  unfolding mounted
  mounted-IsCoherent pathname =
      let info = first_states.cluster_info in
      let (o, c) =
        layout_at-parts cluster_host (is_chat_screen (main_routes matches pathname)) info none
          refl in
      record {
        status = unfold Steps.plan in refl;
        planned = unfold Steps.plan in refl;
        shown = o ∙ ap (λ t. is_chat_screen (main_routes matches t)) (unfold Steps.plan in refl);
        counted = c;
      }

  -- Whatever the stream client, the timers and the user do, in every order, the parts of the page
  -- agree: the router knows the status that the provider has, and its timer leads where the path and
  -- this status ask for; the dialogs of the chat's layout are there exactly where the routes show
  -- the chat, and the timer of the one on a lost scheduler runs only while the cluster is
  -- idle.
  pub run-IsCoherent :
      (pathname : Text) (es : List Event)
      → IsCoherent matches (run matches read es (mounted matches read pathname))
  run-IsCoherent pathname es =
      run-IsCoherent' es (mounted matches read pathname) (mounted-IsCoherent pathname)
