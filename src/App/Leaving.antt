-- ===== src/App/Leaving.antt =====
-- From the chat of a cluster that is idle to the setup page.
use toolkit_inference_mesh.Common.{
  ℕ, zero, suc, ◌≡◌, refl, ap, ◌∙◌, Bool, true, none, some, List, ◌∷◌, arith, replicate,
}
use toolkit_inference_mesh.Js.Text.{Text, starts_with}
use toolkit_inference_mesh.Js.Json.{Json}
use toolkit_inference_mesh.Cluster.Status.{ClusterStatus}
use toolkit_inference_mesh.Cluster.Info.{StreamMessage}
use toolkit_inference_mesh.Ui.Router.{main_routes, path_chat, path_setup, main_redirect}
use toolkit_inference_mesh.Ui.Router.Steps
use toolkit_inference_mesh.App.{App, Event, redirect, delay_over, go, step, run, mounted, layout_at}
use toolkit_inference_mesh.App.Laws.{run-IsCoherent, IsCoherent}

idle_redirect :
    (pathname : Text)
    → starts_with path_chat pathname ≡ true
    → main_redirect pathname ClusterStatus.idle ≡ some path_setup
unfolding main_redirect
idle_redirect pathname h = rw h (ground arith)

module _ (matches : Text → Text → Bool) (read : Json → StreamMessage) where
  time-none :
      (n : ℕ) (a : App)
      → a.layout ≡ none
      → ((run matches read (replicate n delay_over) a).layout ≡ none)
        × ((run matches read (replicate n delay_over) a).page ≡ a.page)
  unfolding run step
  time-none zero a h = (h, refl)
  time-none (suc n) a h = time-none n (step matches read delay_over a) (rw h refl)

  leaves :
      (a : App)
      → IsCoherent matches a
      → a.cluster.cluster_info.status ≡ ClusterStatus.idle
      → starts_with path_chat a.page.pathname ≡ true
      → matches path_setup path_setup ≡ true
      → ((step matches read redirect a).page.pathname ≡ path_setup)
        × ((step matches read redirect a).layout ≡ none)
  unfolding step go Steps.step
  leaves a h i c m =
      let target : a.page.target ≡ some path_setup =
        h.planned
        ∙ ap (main_redirect a.page.pathname) (h.status ∙ i)
        ∙ idle_redirect a.page.pathname c in
      rw target (unfold Steps.on_timer Steps.plan layout_at main_routes in (refl, rw m refl))

  -- In every state that the page reaches in which the cluster is idle and the path is one of the
  -- chat, where the route of the setup fits its own path: the next redirection leads
  -- to the setup page and takes the dialogs of the chat's layout away, so that none of them, and not
  -- the one on a lost scheduler, opens there, however much time passes.
  pub run-leaves :
      (pathname : Text) (es : List Event) (n : ℕ)
      → (run matches read es (mounted matches read pathname)).cluster.cluster_info.status
        ≡ ClusterStatus.idle
      → starts_with path_chat (run matches read es (mounted matches read pathname)).page.pathname
        ≡ true
      → matches path_setup path_setup ≡ true
      → ((run matches read
            (redirect ∷ replicate n delay_over)
            (run matches read es (mounted matches read pathname))).page.pathname
          ≡ path_setup)
        × ((run matches read
              (redirect ∷ replicate n delay_over)
              (run matches read es (mounted matches read pathname))).layout
            ≡ none)
  unfolding run
  run-leaves pathname es n i c m =
      let a = run matches read es (mounted matches read pathname) in
      let (path, gone) = leaves a (run-IsCoherent matches read pathname es) i c m in
      let (stays, same) = time-none n (step matches read redirect a) gone in
      (ap (λ p. p.pathname) same ∙ path, stays)
