-- ===== src/Stream/Sse/Client.antt =====
-- `createSSE` of services/chat.tsx with several connections: the promise chain of one that was
-- disconnected goes on until its fetch or its read settles, while `connect` starts the next, and
-- all share the variable `reader`.
pub mod Laws
use toolkit_inference_mesh.Common.{
  ℕ, Bool, Option, none, some, List, [], ◌∷◌, ◌++◌, get_elem?, set, length,
}
use toolkit_inference_mesh.Js.Text.{Text}
use toolkit_inference_mesh.Js.Json.{Json}
use toolkit_inference_mesh.Stream.Sse.Lines.{Message}
use toolkit_inference_mesh.Stream.Sse.Connection.{
  Phase, fetching, finished, Conn, NetEvent, disconnect, Callback, on_open, dispatch,
}

-- The connections in the order of their calls of `connect`; `controller` is the place of the one
-- whose signal `abortController` has.
pub record Client : Type 0 where
  pub connections : List Phase
  pub reader : Bool
  pub controller : Option ℕ

pub data ClientEvent : Type 0 where
  connect_called disconnect_called : ClientEvent
  -- an event of the chain of a connection
  connection_event : ℕ → NetEvent → ClientEvent

-- `connect` makes a new controller and keeps the reader of the connection before.
unfoldable pub on_connect : Client → Client × List Callback
on_connect c = (
  record c {
    connections = c.connections ++ fetching ∷ [];
    controller = some (length c.connections);
  },
  on_open ∷ [],
)

abbrev pub conn_of : Client → Phase → Conn
conn_of c p = record { phase = p; reader = c.reader }

abbrev pub with_conn : Client → List Phase → Conn × List Callback → Client × List Callback
with_conn c connections (conn, cbs) =
    (record c { connections = connections; reader = conn.reader }, cbs)

module _ (parse_json : Text → Option Json) (accepts : Message → Bool) where
  -- `disconnect` with a controller, whose connection is found at its place.
  unfoldable pub abort_at : ℕ → Option Phase → Client → Client × List Callback
  unfolding dispatch
  abort_at n none c =
      with_conn c c.connections
        (dispatch parse_json accepts finished disconnect (conn_of c finished))
  abort_at n (some p) c =
      let after = dispatch parse_json accepts p disconnect (conn_of c p) in
      with_conn c (set c.connections n after.0.phase) after

  -- `disconnect` unsets the reader and the controller.
  unfoldable pub on_disconnect : Client → Client × List Callback
  unfolding abort_at dispatch
  on_disconnect c = elim c.controller [
    | none ↦
        with_conn c c.connections
          (dispatch parse_json accepts finished disconnect (conn_of c finished))
    | some n ↦ abort_at n (get_elem? c.connections n) (record c { controller = none })
  ]

  -- An event of a connection that there is not does not occur, and changes nothing.
  unfoldable pub on_connection : ℕ → NetEvent → Option Phase → Client → Client × List Callback
  unfolding dispatch
  on_connection n e none c = (c, [])
  on_connection n e (some p) c =
      let after = dispatch parse_json accepts p e (conn_of c p) in
      with_conn c (set c.connections n after.0.phase) after

  unfoldable pub step : Client → ClientEvent → Client × List Callback
  unfolding on_connect on_disconnect on_connection
  step c connect_called = on_connect c
  step c disconnect_called = on_disconnect c
  step c (connection_event n e) = on_connection n e (get_elem? c.connections n) c

  unfoldable pub run : Client → List ClientEvent → Client × List Callback
  unfolding step
  run c [] = (c, [])
  run c (e ∷ es) = let (c', cbs) = step c e in let (last, more) = run c' es in (last, cbs ++ more)
