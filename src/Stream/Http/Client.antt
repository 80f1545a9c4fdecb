-- ===== src/Stream/Http/Client.antt =====
-- `createHttpStreamFactory` with several requests at a time: all promise chains of one client share
-- the variables `reader`, `abortController` and `previousSendOptions`, and the timers of the
-- automatic reconnection start further chains. A round of a chain, with the cleanup of the reader
-- that it awaits, is one step.
pub mod Laws
use toolkit_inference_mesh.Common.{
  ℕ, zero, suc, ◌+◌, Bool, Option, none, some, List, [], ◌∷◌, ◌++◌, get_elem?, set,
}
use toolkit_inference_mesh.Js.Text.{Text}
use toolkit_inference_mesh.Js.Json.{Json}
use toolkit_inference_mesh.Stream.Http.{
  Phase, Reader, finished, Conn, Event, Action, dispatch, send, on_abort,
}
use toolkit_inference_mesh.Stream.Http.Laws.{reconnects}

-- The requests in the order in which they were sent, and the number of timers that run for a new
-- `send`. Of the previous options, `previous` keeps whether they ask for the queue.
pub record Client : Type 0 where
  pub requests : List Phase
  pub reader : Reader
  pub controller : Bool
  pub previous : Bool
  pub timers : ℕ

pub data ClientEvent : Type 0 where
  -- the user's calls
  send_called : (is_queue_info : Bool) → ClientEvent
  abort_called : ClientEvent
  -- a timer of the automatic reconnection
  reconnect_due : ClientEvent
  -- an event of the chain of a request
  request_event : ℕ → Event → ClientEvent

-- What a handler that runs in a chain sees.
abbrev pub conn_of : Client → Phase → Conn
conn_of c p = record { phase = p; reader = c.reader; controller = c.controller }

-- The shared variables and the timers after a handler.
abbrev pub with_conn : Client → List Phase → Conn × List Action → Client × List Action
with_conn c requests (conn, actions) = (
  record c {
    requests = requests;
    reader = conn.reader;
    controller = conn.controller;
    timers = c.timers + reconnects actions;
  },
  actions,
)

module _ (auto_reconnect : Bool) where
  unfoldable pub on_send : Bool → Client → Client × List Action
  unfolding send
  on_send is_queue_info c =
      let sent = send auto_reconnect is_queue_info (conn_of c finished) in
      with_conn (record c { previous = is_queue_info }) (c.requests ++ sent.0.phase ∷ []) sent

  -- The timer: `send(previousSendOptions)`.
  unfoldable pub on_reconnect : ℕ → Client → Client × List Action
  unfolding on_send
  on_reconnect zero c = (c, [])
  on_reconnect (suc n) c = on_send c.previous (record c { timers = n })

  unfoldable pub on_abort_called : Client → Client × List Action
  unfolding on_abort
  on_abort_called c = with_conn c c.requests (on_abort auto_reconnect (conn_of c finished))

  -- An event of a request that has not been sent does not occur, and changes nothing.
  unfoldable pub on_request :
      (Text → Option Json) → ℕ → Event → Option Phase → Client → Client × List Action
  unfolding dispatch
  on_request parse_json n e none c = (c, [])
  on_request parse_json n e (some p) c =
      let after = dispatch auto_reconnect parse_json p e (conn_of c p) in
      with_conn c (set c.requests n after.0.phase) after

  unfoldable pub step : (Text → Option Json) → Client → ClientEvent → Client × List Action
  unfolding on_send on_abort_called on_reconnect on_request
  step parse_json c (send_called is_queue_info) = on_send is_queue_info c
  step parse_json c abort_called = on_abort_called c
  step parse_json c reconnect_due = on_reconnect c.timers c
  step parse_json c (request_event n e) = on_request parse_json n e (get_elem? c.requests n) c

  unfoldable pub run : (Text → Option Json) → Client → List ClientEvent → Client × List Action
  unfolding step
  run parse_json c [] = (c, [])
  run parse_json c (e ∷ es) =
      let (c', actions) = step parse_json c e in
      let (last, more) = run parse_json c' es in (last, actions ++ more)
