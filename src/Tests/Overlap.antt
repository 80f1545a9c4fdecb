-- ===== src/Tests/Overlap.antt =====
-- Two answers of one chat at a time.
use toolkit_inference_mesh.Common.{
  ◌≡◌, ◌+◌, refl, true, some, [], ◌∷◌, ◌++◌, List, arith, get_elem?,
}
use toolkit_inference_mesh.Stream.Sse.Connection.{fetching, rejected, other_error, finished}
use toolkit_inference_mesh.Stream.Sse.Client.{
  Client, ClientEvent, run, connect_called, disconnect_called, connection_event,
}
use toolkit_inference_mesh.Stream.Sse.Client.Laws.{run-ends, ends, running}
use toolkit_inference_mesh.Chat.Messages.{ChatStatus, ok, closed}
use toolkit_inference_mesh.Chat.Messages
use toolkit_inference_mesh.Chat.Session.{apply_callbacks, accepts}
use toolkit_inference_mesh.Chat.Session.Stopped.{apply_callbacks-disconnect_called}
use toolkit_inference_mesh.Tests.Stream.{read_text}
use toolkit_inference_mesh.Tests.Chat.{question}
use toolkit_inference_mesh.Tests.Session.{test_states}

abbrev one_connection : Client
one_connection = record { connections = fetching ∷ []; reader = true; controller = some 0 }

run-ends_example :
    ends
        (run read_text accepts one_connection
          (disconnect_called ∷ connect_called ∷ connection_event 0 (rejected other_error) ∷ [])).1
      + running
          (run read_text accepts one_connection (
            disconnect_called
            ∷ connect_called
            ∷ connection_event 0 (rejected other_error)
            ∷ [])).0.connections
    ≡ 3
run-ends_example =
    run-ends read_text accepts one_connection
      (disconnect_called ∷ connect_called ∷ connection_event 0 (rejected other_error) ∷ [])
      (tt, (tt, ((tt, tt), tt)))

abbrev other_events : List ClientEvent
other_events = connection_event 0 (rejected other_error) ∷ []

apply_callbacks-disconnect_called_example :
    (get_elem?
        (run read_text accepts one_connection
          ((connect_called ∷ other_events) ++ disconnect_called ∷ [])).0.connections
        1
      ≡ some finished)
    × (apply_callbacks
          (run read_text accepts one_connection
            ((connect_called ∷ other_events) ++ disconnect_called ∷ [])).1
          test_states
        ≡ ok (record test_states {
          status = ChatStatus.error;
          messages = [] ++ record question { status = Messages.done } ∷ [];
        }))
    × (Messages.on_close (record test_states {
      status = ChatStatus.error;
      messages = record question { status = Messages.done } ∷ [];
    })
        ≡ ok (record test_states {
          status = closed;
          messages = record question { status = Messages.done } ∷ [];
        }))
unfolding run apply_callbacks Messages.on_error Messages.on_open
apply_callbacks-disconnect_called_example =
    apply_callbacks-disconnect_called read_text one_connection other_events test_states
      (record test_states {
        status = ChatStatus.error;
        messages = record question { status = Messages.done } ∷ [];
      })
      [] (record question { status = Messages.done }) (((λ e. absurd (omega (arith, e))), tt), tt)
      refl refl
