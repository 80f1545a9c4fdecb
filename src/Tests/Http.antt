-- ===== src/Tests/Http.antt =====
-- Two requests of one client at a time.
use toolkit_inference_mesh.Common.{◌≡◌, ◌+◌, [], ◌∷◌, ◌++◌, true, false, arith, refl}
use toolkit_inference_mesh.Js.Text.{lit, split}
use toolkit_inference_mesh.Js.Json.{str}
use toolkit_inference_mesh.Stream.Frames.{frame}
use toolkit_inference_mesh.Stream.Http
use toolkit_inference_mesh.Stream.Http.{parse_lines}
use toolkit_inference_mesh.Stream.Http.Client
use toolkit_inference_mesh.Stream.Http.Client.Laws.{running, run-running, run-shared_reader}
use toolkit_inference_mesh.Tests.Stream.{read_text}

abbrev two_requests : Client.Client
two_requests = record {
  requests = Http.reading [] ∷ Http.reading (lit "1") ∷ [];
  reader = Http.live;
  controller = true;
  previous = false;
  timers = 0;
}

run-running_example :
    running
        (Client.run true read_text two_requests
          (Client.abort_called ∷ Client.reconnect_due ∷ [])).0.requests
      + (Client.run true read_text two_requests
          (Client.abort_called ∷ Client.reconnect_due ∷ [])).0.timers
    ≡ 3
unfolding Client.run Client.step
run-running_example =
    run-running read_text two_requests (Client.abort_called ∷ Client.reconnect_due ∷ [])

run-shared_reader_example :
    ((Client.run true read_text two_requests (
        Client.request_event 0 Http.stream_end
        ∷ Client.request_event 1 (Http.chunk (lit "2\n3"))
        ∷ [])).0.requests
      ≡ Http.finished ∷ Http.finished ∷ [])
    × ((Client.run true read_text two_requests (
          Client.request_event 0 Http.stream_end
          ∷ Client.request_event 1 (Http.chunk (lit "2\n3"))
          ∷ [])).1
        ≡ Http.on_status_change true Http.disconnected
          ++ (Http.message (str (lit "12")) ∷ Http.on_status_change true Http.error
              ++ Http.error_callback ∷ []))
unfolding parse_lines frame split
run-shared_reader_example =
    run-shared_reader read_text true two_requests 0 1 [] (lit "1") (lit "2\n3") refl refl
      (omega arith)
