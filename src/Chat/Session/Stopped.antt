-- ===== src/Chat/Session/Stopped.antt =====
-- An answer that is stopped before its response has come (`disconnect` of services/chat.tsx).
use toolkit_inference_mesh.Common.{
  list_laws, ℕ, ◌≡◌, ◌≢◌, Option, Option-cases, some, List, [], ◌∷◌, ◌++◌, length, get_elem?, All,
  get_elem?-set_other, get_elem?-snoc_last, get_elem?-set_self, refl, ◌∙◌, ap, inl, inr,
}
use toolkit_inference_mesh.Js.Text.{Text}
use toolkit_inference_mesh.Js.Json.{Json}
use toolkit_inference_mesh.Stream.Sse.Connection.{
  fetching, finished, dispatch, Callback, on_close, on_error,
}
use toolkit_inference_mesh.Stream.Sse.Client.{
  Client, ClientEvent, connect_called, disconnect_called, connection_event, run, step, on_connect,
  on_disconnect, on_connection, abort_at, conn_of,
}
use toolkit_inference_mesh.Stream.Sse.Client.Laws.{IsOwn, calls}
use toolkit_inference_mesh.Chat.Messages
use toolkit_inference_mesh.Chat.Messages.{
  ChatStates, ChatStatus, ChatMessage, ok, >>=-eq-ok, closed,
}
use toolkit_inference_mesh.Chat.Session.Laws.{finish_last-snoc}
use toolkit_inference_mesh.Chat.Session.{apply_callbacks, apply_callback, accepts}

-- An event of the network for another connection than the one at the given place.
abbrev pub IsOther : ℕ → ClientEvent → Type 0
IsOther n (connection_event k e) = (k ≢ n) × IsOwn e
IsOther n _ = ⊥

-- The connection that `abortController` belongs to waits for its response.
abbrev pub Waits : ℕ → Client → Type 0
Waits n c = (c.controller ≡ some n) × (get_elem? c.connections n ≡ some fetching)

apply_callbacks-append :
    (xs ys : List Callback) (s t : ChatStates)
    → apply_callbacks xs s ≡ ok t
    → apply_callbacks (xs ++ ys) s ≡ apply_callbacks ys t
unfolding apply_callbacks
apply_callbacks-append [] ys s t h = ap (apply_callbacks ys) (Messages.ok-injective h)
apply_callbacks-append (x ∷ xs) ys s t h =
    let (s', e, h') = >>=-eq-ok (apply_callback x s) (λ s'. apply_callbacks xs s') h in
    rw e (apply_callbacks-append xs ys s' t h')

module _ (parse_json : Text → Option Json) where
  step-Waits :
      (n : ℕ) (c : Client) (e : ClientEvent)
      → IsOther n e
      → Waits n c
      → Waits n (step parse_json accepts c e).0
  unfolding step on_connection
  step-Waits n c (connection_event k e) (other, h) (held, waits) =
      elim (Option-cases (get_elem? c.connections k)) [
        | inl none_there ↦ rw none_there (held, waits)
        | inr (p, there) ↦ rw there (
          held,
          get_elem?-set_other c.connections k n
                (dispatch parse_json accepts p e (conn_of c p)).0.phase other
              ∙ waits,
        )
      ]
  step-Waits n c connect_called h w = absurd h
  step-Waits n c disconnect_called h w = absurd h

  run-Waits :
      (n : ℕ) (c : Client) (es : List ClientEvent)
      → All (IsOther n) es
      → Waits n c
      → Waits n (run parse_json accepts c es).0
  unfolding run
  run-Waits n c [] h w = w
  run-Waits n c (e ∷ es) (h, hs) w =
      run-Waits n (step parse_json accepts c e).0 es hs (step-Waits n c e h w)

  run-append :
      (c : Client) (xs ys : List ClientEvent)
      → let first = run parse_json accepts c xs in
        let second = run parse_json accepts first.0 ys in
        run parse_json accepts c (xs ++ ys) ≡ (second.0, first.1 ++ second.1)
  unfolding run
  run-append c [] ys = refl
  run-append c (x ∷ xs) ys =
      let (c', cbs) = step parse_json accepts c x in rw (run-append c' xs ys) (simp list_laws)

  -- The call of `disconnect` itself.
  run-disconnect_called :
      (n : ℕ) (c : Client)
      → Waits n c
      → let after = run parse_json accepts c (disconnect_called ∷ []) in
        (after.1 ≡ on_close ∷ on_error ∷ []) × (get_elem? after.0.connections n ≡ some finished)
  unfolding run step on_disconnect abort_at dispatch
  run-disconnect_called n c (held, waits) =
      rw (held, waits) (refl, get_elem?-set_self c.connections n fetching finished waits)

  apply-stopped :
      (t : ChatStates) (ms : List ChatMessage) (m : ChatMessage)
      → t.messages ≡ ms ++ m ∷ []
      → apply_callbacks (on_close ∷ on_error ∷ []) t
        ≡ ok (record t {
          status = ChatStatus.error;
          messages = ms ++ record m { status = Messages.done } ∷ [];
        })
  unfolding apply_callbacks apply_callback Messages.on_close Messages.on_error
  apply-stopped t ms m h =
      rw (h, finish_last-snoc m ms)
        (rw (Messages.on_error, finish_last-snoc (record m { status = Messages.done }) ms) refl)

  -- An answer that is stopped before its response has come ends as an error: after a call of
  -- `connect` and whatever the network does for the other connections, where no handler has thrown
  -- and the chat has a message, `disconnect` finishes the connection, and the chat has its last
  -- message done and the status `error`, since the fetch is rejected with the reason 'stop'; the
  -- call of `onClose` alone would have left the status `closed`.
  pub apply_callbacks-disconnect_called :
      (c : Client) (es : List ClientEvent) (s t : ChatStates) (ms : List ChatMessage)
      (m : ChatMessage)
      → All (IsOther (length c.connections)) es
      → apply_callbacks (run parse_json accepts c (connect_called ∷ es)).1 s ≡ ok t
      → t.messages ≡ ms ++ m ∷ []
      → let stopped = run parse_json accepts c ((connect_called ∷ es) ++ disconnect_called ∷ []) in
        let messages = ms ++ record m { status = Messages.done } ∷ [] in
        (get_elem? stopped.0.connections (length c.connections) ≡ some finished)
        × (apply_callbacks stopped.1 s
            ≡ ok (record t { status = ChatStatus.error; messages = messages }))
        × (Messages.on_close t ≡ ok (record t { status = closed; messages = messages }))
  apply_callbacks-disconnect_called c es s t ms m others h e =
      let n = length c.connections in
      let first = run parse_json accepts c (connect_called ∷ es) in
      let waits : Waits n first.0 =
        unfold run step on_connect in
        run-Waits n _ es others (refl, get_elem?-snoc_last c.connections fetching) in
      let (calls, ended) = run-disconnect_called n first.0 waits in
      rw (run-append c (connect_called ∷ es) (disconnect_called ∷ []), calls)
        (
          ended,
          apply_callbacks-append first.1 (on_close ∷ on_error ∷ []) s t h ∙ apply-stopped t ms m e,
          (unfold Messages.on_close in rw (e, finish_last-snoc m ms) refl),
        )
