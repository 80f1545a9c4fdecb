-- ===== src/Tests/App.antt =====
-- The whole page of a cluster's host.
use toolkit_inference_mesh.App.Node
use toolkit_inference_mesh.App.Node.Laws.{run-notices}
use toolkit_inference_mesh.Ui.Drawer.{Dialogs}
use toolkit_inference_mesh.Common.{
  ◌≡◌, ◌≢◌, refl, List, [], ◌∷◌, true, none, replicate, false, some,
}
use toolkit_inference_mesh.Js.Text.{is_empty, lit, text_eq, is_some, split, starts_with}
use toolkit_inference_mesh.Js.Json.{Json, str}
use toolkit_inference_mesh.Stream.Http
use toolkit_inference_mesh.Stream.Http.{parse_lines}
use toolkit_inference_mesh.Stream.Frames.Laws.{complete_lines}
use toolkit_inference_mesh.Cluster.Status.{ClusterStatus}
use toolkit_inference_mesh.Cluster.Info
use toolkit_inference_mesh.Cluster.Info.{StreamMessage, StatusData, ModelInfo}
use toolkit_inference_mesh.Cluster.Config.{init_scheduler, no_model}
use toolkit_inference_mesh.Ui.Router.{
  chat_routes, is_chat_screen, main_routes, path_chat, path_setup,
}
use toolkit_inference_mesh.App.{
  App, Event, turn, models_loaded, navigated, redirect, delay_over, run, mounted,
}
use toolkit_inference_mesh.App.Laws.{IsCoherent, run-IsCoherent}
use toolkit_inference_mesh.App.Names.{run-starts}
use toolkit_inference_mesh.App.Arrival.{run-arrives, after_response}
use toolkit_inference_mesh.App.Leaving.{run-leaves}
use toolkit_inference_mesh.Tests.Stream.{read_text}
use toolkit_inference_mesh.Tests.Cluster.{status_message, status_data, status_chunks}

abbrev reads_status : Json → StreamMessage
reads_status v = status_message

abbrev idle_data : StatusData
idle_data = record status_data { status = none; model_name = none }

abbrev reads_idle : Json → StreamMessage
reads_idle v = Info.cluster_status idle_data

abbrev test_model : ModelInfo
test_model = record { name = lit "qwen3"; display_name = lit "qwen3"; logo_url = []; vram = 8 }

abbrev test_events : List Event
test_events =
    models_loaded (test_model ∷ [])
    ∷ turn (Http.message (str (lit "s")) ∷ [])
    ∷ navigated (lit "/chat")
    ∷ []

run-IsCoherent_example :
    IsCoherent text_eq
      (run text_eq reads_status test_events (mounted text_eq reads_status (lit "/")))
run-IsCoherent_example = run-IsCoherent text_eq reads_status (lit "/") test_events

run-starts_example :
    (is_empty
        (run text_eq reads_status test_events
          (mounted text_eq reads_status (lit "/"))).config.model_name
      ≡ false)
    × (init_scheduler
          (run text_eq reads_status test_events (mounted text_eq reads_status (lit "/"))).config
        ≢ no_model)
unfolding run mounted text_eq
run-starts_example =
    run-starts text_eq reads_status (lit "/") test_events (refl, (refl, (refl, tt))) refl refl

run-arrives_example :
    (last : App) × (after_response text_eq reads_status read_text status_chunks
        (run text_eq reads_status test_events (mounted text_eq reads_status (lit "/")))
      ≡ last)
    × (starts_with path_chat last.page.pathname ≡ true)
    × (last.page.target ≡ none)
    × (last.cluster.cluster_info.status ≡ ClusterStatus.available)
    × (is_some last.layout ≡ is_chat_screen (main_routes text_eq last.page.pathname))
unfolding complete_lines split parse_lines
run-arrives_example =
    run-arrives text_eq reads_status read_text (lit "/") test_events status_chunks []
      (str (lit "s")) status_data 113 (lit "wen3") refl refl refl refl

run-leaves_example :
    ((run text_eq reads_idle
        (redirect ∷ replicate 4 delay_over)
        (run text_eq reads_idle test_events (mounted text_eq reads_idle (lit "/")))).page.pathname
      ≡ path_setup)
    × ((run text_eq reads_idle
          (redirect ∷ replicate 4 delay_over)
          (run text_eq reads_idle test_events (mounted text_eq reads_idle (lit "/")))).layout
        ≡ none)
unfolding run mounted text_eq starts_with
run-leaves_example = run-leaves text_eq reads_idle (lit "/") test_events 4 refl refl refl

run-notices_example :
    (d : Dialogs) × ((Node.run text_eq reads_idle
        (Node.turn (Http.message (str (lit "s")) ∷ []) ∷ Node.delay_over ∷ [])
        (Node.run text_eq reads_idle
          (Node.redirect ∷ [])
          (Node.mounted text_eq reads_idle (lit "/")))).layout
      ≡ some d)
    × (d.failed_open ≡ true)
    × (d.waiting_open ≡ false)
unfolding Node.run Node.mounted text_eq starts_with chat_routes
run-notices_example =
    run-notices text_eq reads_idle (lit "/") (Node.redirect ∷ [])
      (Http.message (str (lit "s")) ∷ []) refl refl refl
