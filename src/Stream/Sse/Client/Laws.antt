-- ===== src/Stream/Sse/Client/Laws.antt =====
-- How often the end of an answer is reported.
use toolkit_inference_mesh.Common.{
  All, Option-cases, inl, inr, sum_of, sum_of-snoc, sum_of-set, ℕ, suc, ◌+◌, ◌≡◌, refl, Bool,
  Option, List, [], ◌∷◌, ◌++◌, arith, get_elem?,
}
use toolkit_inference_mesh.Js.Text.{Text}
use toolkit_inference_mesh.Js.Json.{Json}
use toolkit_inference_mesh.Stream.Frames.{frame}
use toolkit_inference_mesh.Stream.Sse.Lines.{Message, process_lines, blank_message}
use toolkit_inference_mesh.Stream.Sse.Connection.{
  Phase, fetching, reading, finished, Conn, NetEvent, Callback, on_open, on_close, on_error,
  on_message, dispatch, disconnect, response, chunk, rejected, abort_error, other_error, deliver,
  on_chunk,
}
use toolkit_inference_mesh.Stream.Sse.Client.{
  ClientEvent, connect_called, disconnect_called, connection_event, Client, on_connect, conn_of,
  on_disconnect, abort_at, on_connection, step, run,
}

-- The calls of `onClose` and `onError`.
abbrev pub ends : List Callback → ℕ
ends [] = 0
ends (on_open ∷ cbs) = ends cbs
ends (on_message m ∷ cbs) = ends cbs
ends (on_close ∷ cbs) = suc (ends cbs)
ends (on_error ∷ cbs) = suc (ends cbs)

ends-append : (xs ys : List Callback) → ends (xs ++ ys) ≡ ends xs + ends ys
ends-append [] ys = omega arith
ends-append (on_open ∷ xs) ys = ends-append xs ys
ends-append (on_message m ∷ xs) ys = ends-append xs ys
ends-append (on_close ∷ xs) ys = omega (arith, ends-append xs ys)
ends-append (on_error ∷ xs) ys = omega (arith, ends-append xs ys)

abbrev runs : Phase → ℕ
runs fetching = 1
runs (reading buffer) = 1
runs finished = 0

-- How many connections have not ended.
abbrev pub running : List Phase → ℕ
running ps = sum_of runs ps

-- The calls of `connect` and `disconnect`.
abbrev pub is_call : ClientEvent → ℕ
is_call connect_called = 1
is_call disconnect_called = 1
is_call (connection_event n e) = 0

abbrev pub calls : List ClientEvent → ℕ
calls es = sum_of is_call es

-- A connection's own events are none of the user's calls.
abbrev pub IsOwn : NetEvent → Type 0
IsOwn disconnect = ⊥
IsOwn _ = Unit

abbrev pub own : ClientEvent → List NetEvent
own connect_called = []
own disconnect_called = []
own (connection_event n e) = e ∷ []

module _ (parse_json : Text → Option Json) (accepts : Message → Bool) where
  ends-deliver : (ms : List Message) → ends (deliver accepts ms).0 ≡ 0
  unfolding deliver
  ends-deliver [] = refl
  ends-deliver (m ∷ ms) = ground (arith, ends-deliver ms)

  on_chunk-ends :
      (c : Conn) (buffer text : Text)
      → c.phase ≡ reading buffer
      → ends (on_chunk parse_json accepts c buffer text).1
          + runs (on_chunk parse_json accepts c buffer text).0.phase
        ≡ 1
  unfolding on_chunk
  on_chunk-ends c buffer text h =
      let ms = process_lines parse_json blank_message (frame buffer text).0 in
      ground (arith, ends-deliver ms, ends-append (deliver accepts ms).0 (on_error ∷ []))

  dispatch-ends :
      (p : Phase) (e : NetEvent) (c : Conn)
      → c.phase ≡ p
      → IsOwn e
      → ends (dispatch parse_json accepts p e c).1
          + runs (dispatch parse_json accepts p e c).0.phase
        ≡ runs p
  unfolding dispatch
  dispatch-ends (reading b) (chunk text) c h o = on_chunk-ends c b text h
  dispatch-ends fetching (response st ct b) c h o = ground arith
  dispatch-ends fetching (rejected abort_error) c h o = refl
  dispatch-ends fetching (rejected other_error) c h o = refl
  dispatch-ends (reading b) (rejected abort_error) c h o = refl
  dispatch-ends (reading b) (rejected other_error) c h o = refl
  dispatch-ends p disconnect c h o = absurd o
  dispatch-ends p e c h o = ground arith

  dispatch_disconnect-ends :
      (p : Phase) (c : Conn)
      → c.phase ≡ p
      → ends (dispatch parse_json accepts p disconnect c).1
          + runs (dispatch parse_json accepts p disconnect c).0.phase
        ≡ suc (runs p)
  unfolding dispatch
  dispatch_disconnect-ends fetching c h = refl
  dispatch_disconnect-ends (reading b) c h = ground arith
  dispatch_disconnect-ends finished c h = ground arith

  on_disconnect-ends :
      (c : Client)
      → ends (on_disconnect parse_json accepts c).1
          + running (on_disconnect parse_json accepts c).0.connections
        ≡ suc (running c.connections)
  unfolding on_disconnect abort_at dispatch
  on_disconnect-ends c = elim (Option-cases c.controller) [
    | inl k ↦ rw k (omega arith)
    | inr (n, k) ↦ elim (Option-cases (get_elem? c.connections n)) [
      | inl e ↦ rw (k, e) (omega arith)
      | inr (p, e) ↦
          let after = dispatch parse_json accepts p disconnect (conn_of c p) in
          rw (k, e)
            (omega (
              arith,
              sum_of-set runs c.connections n p after.0.phase e,
              dispatch_disconnect-ends p (conn_of c p) refl,
            ))
    ]
  ]

  step-ends :
      (c : Client) (e : ClientEvent)
      → All IsOwn (own e)
      → ends (step parse_json accepts c e).1 + running (step parse_json accepts c e).0.connections
        ≡ running c.connections + is_call e
  unfolding step on_connect on_connection
  step-ends c connect_called h = omega (arith, sum_of-snoc runs c.connections fetching)
  step-ends c disconnect_called h = omega (arith, on_disconnect-ends c)
  step-ends c (connection_event n e) (h, hs) = elim (Option-cases (get_elem? c.connections n)) [
    | inl k ↦ rw k (omega arith)
    | inr (p, k) ↦
        let after = dispatch parse_json accepts p e (conn_of c p) in
        rw k (
          omega (
            arith,
            sum_of-set runs c.connections n p after.0.phase k,
            dispatch-ends p e (conn_of c p) refl h,
          ))
  ]

  -- Of several connections of one chat, whatever the network does, `onClose` and `onError` are
  -- called together once for each connection that has ended and once more for each call of
  -- `disconnect`: a connection that is still open has no such call, and an answer that was stopped
  -- has two when its chain ends.
  pub run-ends :
      (c : Client) (es : List ClientEvent)
      → All (λ e. All IsOwn (own e)) es
      → ends (run parse_json accepts c es).1 + running (run parse_json accepts c es).0.connections
        ≡ running c.connections + calls es
  unfolding run
  run-ends c [] h = omega arith
  run-ends c (e ∷ es) (h, hs) =
      let (c', cbs) = step parse_json accepts c e in
      omega (
        arith,
        ends-append cbs (run parse_json accepts c' es).1,
        step-ends c e h,
        run-ends c' es hs,
      )
