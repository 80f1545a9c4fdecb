-- ===== src/App/Arrival.antt =====
-- From the status stream to the page of the chat.
use toolkit_inference_mesh.Common.{
  ℕ, ◌≡◌, refl, sym, ◌∙◌, Bool, true, Option, List, [], ◌∷◌, ◌++◌, is_some, concat, ap, none, some,
  map, arith,
}
use toolkit_inference_mesh.Js.Text.{Text, starts_with}
use toolkit_inference_mesh.Js.Json.{Json}
use toolkit_inference_mesh.Stream.Http
use toolkit_inference_mesh.Stream.Http.{Conn, parse_lines}
use toolkit_inference_mesh.Cluster.Info.{StreamMessage, ClusterStates, StatusData, cluster_status}
use toolkit_inference_mesh.Cluster.Session.{apply_actions, apply_action, watch}
use toolkit_inference_mesh.App.{App, Event, turn, on_cluster, step, run, redirect, go, mounted}
use toolkit_inference_mesh.Cluster.Session.Laws.{reads, watch_last}
use toolkit_inference_mesh.App.Laws.{IsCoherent, run-IsCoherent', run-IsCoherent}
use toolkit_inference_mesh.Ui.Router.Steps.Laws.{IsRested, timers-IsRested}
use toolkit_inference_mesh.Stream.Frames.Laws.{complete_lines}
use toolkit_inference_mesh.Cluster.Status.{ClusterStatus}
use toolkit_inference_mesh.Ui.Router.{is_chat_screen, main_routes, path_chat}

module _ (read : Json → StreamMessage) where
  apply_actions-append :
      (xs ys : List Http.Action) (s : ClusterStates)
      → apply_actions read (xs ++ ys) s ≡ apply_actions read ys (apply_actions read xs s)
  unfolding apply_actions
  apply_actions-append [] ys s = refl
  apply_actions-append (x ∷ xs) ys s = apply_actions-append xs ys (apply_action read x s)

  -- What the network does to a request, a turn for each event.
  abbrev pub turns : (Text → Option Json) → Conn → List Http.Event → List Event
  turns parse_json c [] = []
  turns parse_json c (e ∷ es) =
      let (c', actions) = Http.step true parse_json c e in turn actions ∷ turns parse_json c' es

module _ (matches : Text → Text → Bool) (read : Json → StreamMessage) where
  run-turns :
      (parse_json : Text → Option Json) (c : Conn) (es : List Http.Event) (a : App)
      → (run matches read (turns read parse_json c es) a).cluster
        ≡ watch read parse_json c es a.cluster
  unfolding run watch Http.run step on_cluster
  run-turns parse_json c [] a = unfold apply_actions in refl
  run-turns parse_json c (e ∷ es) a =
      let (c', actions) = Http.step true parse_json c e in
      run-turns parse_json c' es (step matches read (turn actions) a)
      ∙ sym (apply_actions-append read actions (Http.run true parse_json c' es).1 a.cluster)

  run-append :
      (xs ys : List Event) (a : App)
      → run matches read (xs ++ ys) a ≡ run matches read ys (run matches read xs a)
  unfolding run
  run-append [] ys a = refl
  run-append (x ∷ xs) ys a = run-append xs ys (step matches read x a)

  -- Two redirections with nothing between bring the page to rest.
  redirects-parts :
      (a : App)
      → IsCoherent matches a
      → IsRested (run matches read (redirect ∷ redirect ∷ []) a).page
        × ((run matches read (redirect ∷ redirect ∷ []) a).page.status ≡ a.page.status)
        × ((run matches read (redirect ∷ redirect ∷ []) a).cluster ≡ a.cluster)
  unfolding run step go
  redirects-parts a h =
      let (rested, same) = timers-IsRested a.page h.planned in (rested, same, refl)

  -- The page after a response of the status stream and two redirections.
  abbrev pub after_response : (Text → Option Json) → List Text → App → App
  after_response parse_json chunks a = run matches read (redirect ∷ redirect ∷ []) (
      run matches read
        (turns read parse_json (reads read) (map Http.chunk chunks ++ Http.stream_end ∷ [])) a)

  chat_of_available :
      (a : App)
      → IsRested a.page
      → a.page.status ≡ ClusterStatus.available
      → starts_with path_chat a.page.pathname ≡ true
  chat_of_available a h e = ground (arith, h.on_chat)

  -- The automatic way to the chat: whatever has happened before, after a response of the status
  -- stream, however it is cut into chunks, whose last complete line that parses is a status
  -- `available` with the name of a model, and two redirections with nothing between, the page is one
  -- of the chat, no redirection is planned any more, the provider has the status `available`, and
  -- the layout of the chat is there exactly if the routes show the chat at this path.
  pub run-arrives :
      (parse_json : Text → Option Json) (pathname : Text) (es : List Event) (chunks : List Text)
      (vs : List Json) (v : Json) (d : StatusData) (k : ℕ) (name : Text)
      → parse_lines parse_json (complete_lines (concat chunks)) ≡ vs ++ v ∷ []
      → read v ≡ cluster_status d
      → d.status ≡ some ClusterStatus.available
      → d.model_name ≡ some (k ∷ name)
      → (last : App) × (after_response parse_json chunks
            (run matches read es (mounted matches read pathname))
          ≡ last)
        × (starts_with path_chat last.page.pathname ≡ true)
        × (last.page.target ≡ none)
        × (last.cluster.cluster_info.status ≡ ClusterStatus.available)
        × (is_some last.layout ≡ is_chat_screen (main_routes matches last.page.pathname))
  run-arrives parse_json pathname es chunks vs v d k name e r st nm =
      let a = run matches read es (mounted matches read pathname) in
      let network =
        turns read parse_json (reads read) (map Http.chunk chunks ++ Http.stream_end ∷ []) in
      let b = run matches read network a in
      let h = run-IsCoherent' matches read network a (run-IsCoherent matches read pathname es) in
      let (rested, same, kept) = redirects-parts b h in
      let c = run matches read (redirect ∷ redirect ∷ []) b in
      let g = run-IsCoherent' matches read (redirect ∷ redirect ∷ []) b h in
      let (lost, s, watched, nodes, gone, status, name_of, number) =
        watch_last read parse_json chunks vs v d a.cluster e r in
      let arrived : b.cluster.cluster_info.status ≡ ClusterStatus.available =
        ap (λ t. t.cluster_info.status) (run-turns parse_json (reads read) _ a ∙ watched)
        ∙ status
        ∙ rw (st, nm) refl in
      (
        c,
        refl,
        chat_of_available c rested (same ∙ h.status ∙ arrived),
        rested.unplanned,
        ap (λ t. t.cluster_info.status) kept ∙ arrived,
        g.shown,
      )
