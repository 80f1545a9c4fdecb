-- ===== src/Stream/Sse/Connection/Laws.antt =====
-- The protocol that the callbacks of a connection keep.
use toolkit_inference_mesh.Common.{
  list_laws, ◌≡◌, Bool, true, false, Option, List, [], ◌∷◌, ◌++◌, arith, All, refl, Bool-cases, inl,
  inr, map, append-nil, All-split, ap, subst, some,
}
use toolkit_inference_mesh.Js.Text.{Text, lit, includes}
use toolkit_inference_mesh.Js.Json.{Json}
use toolkit_inference_mesh.Stream.Sse.Lines.{Message, blank_message, process_lines, process_chunks}
use toolkit_inference_mesh.Stream.Sse.Connection.{
  Phase, finished, Conn, NetEvent, disconnect, Callback, on_close, on_error, on_message, deliver,
  reading, chunk, on_chunk, dispatch, fetching, abort_error, other_error, response, rejected,
  on_open, step, run, stream_end, session,
}
use toolkit_inference_mesh.Stream.Frames.{frame}

abbrev pub is_finished : Phase → Bool
is_finished finished = true
is_finished _ = false

-- Messages, then one call of `onClose` or `onError` where the chain is finished, and no such call
-- where it is not.
abbrev pub IsTrace : Bool → List Callback → Type 0
IsTrace done [] = done ≡ false
IsTrace done (on_message m ∷ cbs) = IsTrace done cbs
IsTrace done (on_close ∷ []) = done ≡ true
IsTrace done (on_error ∷ []) = done ≡ true
IsTrace done _ = ⊥

abbrev pub IsNetwork : NetEvent → Type 0
IsNetwork disconnect = ⊥
IsNetwork _ = Unit

module _ (parse_json : Text → Option Json) (accepts : Message → Bool) where
  deliver-IsTrace :
      (ms : List Message)
      → ((deliver accepts ms).1 ≡ true → IsTrace false (deliver accepts ms).0)
        × IsTrace true ((deliver accepts ms).0 ++ on_error ∷ [])
  unfolding deliver
  deliver-IsTrace [] = ground arith
  deliver-IsTrace (m ∷ ms) = ground (arith, deliver-IsTrace ms)

  on_chunk-IsTrace :
      (c : Conn) (buffer text : Text)
      → c.phase ≡ reading buffer
      → IsTrace
          (is_finished (on_chunk parse_json accepts c buffer text).0.phase)
          (on_chunk parse_json accepts c buffer text).1
  unfolding on_chunk
  on_chunk-IsTrace c buffer text h =
      let (lines, rest) = frame buffer text in
      ground (arith, deliver-IsTrace (process_lines parse_json blank_message lines))

  dispatch-IsTrace :
      (p : Phase) (e : NetEvent) (c : Conn)
      → c.phase ≡ p
      → IsNetwork e
      → is_finished p ≡ false
      → IsTrace
          (is_finished (dispatch parse_json accepts p e c).0.phase)
          (dispatch parse_json accepts p e c).1
  unfolding dispatch
  dispatch-IsTrace (reading b) (chunk text) c q n h = on_chunk-IsTrace c b text q
  dispatch-IsTrace fetching (response st ct b) c q n h = ground arith
  dispatch-IsTrace fetching (rejected abort_error) c q n h = refl
  dispatch-IsTrace fetching (rejected other_error) c q n h = refl
  dispatch-IsTrace (reading b) (rejected abort_error) c q n h = refl
  dispatch-IsTrace (reading b) (rejected other_error) c q n h = refl
  dispatch-IsTrace finished e c q n h = absurd (cc h)
  dispatch-IsTrace p e c q n h = ground arith

  append-IsTrace :
      (done : Bool) (xs ys : List Callback)
      → IsTrace false xs
      → IsTrace done ys
      → IsTrace done (xs ++ ys)
  append-IsTrace done [] ys h k = k
  append-IsTrace done (on_message m ∷ xs) ys h k = append-IsTrace done xs ys h k
  append-IsTrace done (on_open ∷ xs) ys h k = absurd h
  append-IsTrace done (on_close ∷ []) ys h k = cc
  append-IsTrace done (on_close ∷ x ∷ xs) ys h k = absurd h
  append-IsTrace done (on_error ∷ []) ys h k = cc
  append-IsTrace done (on_error ∷ x ∷ xs) ys h k = absurd h

  step_of_finished :
      (p : Phase) (c : Conn) (e : NetEvent)
      → p ≡ finished
      → IsNetwork e
      → dispatch parse_json accepts p e c ≡ (c, [])
  unfolding dispatch
  step_of_finished p c (response st ct b) h n = rw h
  step_of_finished p c (chunk t) h n = rw h
  step_of_finished p c stream_end h n = rw h
  step_of_finished p c (rejected r) h n = rw h
  step_of_finished p c disconnect h n = absurd n

  -- A finished chain makes no call.
  run_of_finished :
      (c : Conn) (es : List NetEvent)
      → c.phase ≡ finished
      → All IsNetwork es
      → run parse_json accepts c es ≡ (c, [])
  unfolding run step
  run_of_finished c [] h n = refl
  run_of_finished c (e ∷ es) h (n, ns) =
      rw (step_of_finished c.phase c e h n) (run_of_finished c es h ns)

  phase_of_is_finished : (p : Phase) → is_finished p ≡ true → p ≡ finished
  phase_of_is_finished finished h = refl
  phase_of_is_finished fetching h = cc
  phase_of_is_finished (reading b) h = cc

  run-IsTrace :
      (c : Conn) (es : List NetEvent)
      → All IsNetwork es
      → is_finished c.phase ≡ false
      → IsTrace (is_finished (run parse_json accepts c es).0.phase) (run parse_json accepts c es).1
  unfolding run step
  run-IsTrace c [] n h = h
  run-IsTrace c (e ∷ es) (n, ns) h =
      let t = dispatch-IsTrace c.phase e c refl n h in
      let r = dispatch parse_json accepts c.phase e c in
      elim (Bool-cases (is_finished r.0.phase)) [
        | inl y ↦
            rw (run_of_finished r.0 es (phase_of_is_finished r.0.phase y) ns, append-nil r.1) t
        | inr k ↦
            append-IsTrace _ r.1 (run parse_json accepts r.0 es).1 (subst (λ b. IsTrace b r.1) k t)
              (run-IsTrace r.0 es ns k)
      ]

  -- Without a call of `disconnect`, a connection calls `onOpen` once, then `onMessage` any number
  -- of times, then `onClose` or `onError` exactly once if its promise chain has ended and neither
  -- if it has not, whatever the network does.
  pub session-IsTrace :
      (es : List NetEvent)
      → All IsNetwork es
      → (cbs : List Callback) × ((session parse_json accepts es).1 ≡ on_open ∷ cbs)
        × IsTrace (is_finished (session parse_json accepts es).0.phase) cbs
  unfolding session
  session-IsTrace es n =
      (_, refl, run-IsTrace (record { phase = fetching; reader = false }) es n refl)

  deliver_of_accepted :
      (ms : List Message)
      → All (λ m. accepts m ≡ true) ms
      → deliver accepts ms ≡ (map on_message ms, true)
  unfolding deliver
  deliver_of_accepted [] h = refl
  deliver_of_accepted (m ∷ ms) (h, hs) = rw (h, deliver_of_accepted ms hs)

  on_chunk_of_accepted :
      (buffer text : Text)
      → All (λ m. accepts m ≡ true) (process_lines parse_json blank_message (frame buffer text).0)
      → on_chunk parse_json accepts (record { phase = reading buffer; reader = true }) buffer text
        ≡ (
          record { phase = reading (frame buffer text).1; reader = true },
          map on_message (process_lines parse_json blank_message (frame buffer text).0),
        )
  unfolding on_chunk
  on_chunk_of_accepted buffer text h = rw (deliver_of_accepted _ h)

  run_chunks :
      (buffer : Text) (chunks : List Text)
      → All (λ m. accepts m ≡ true) (process_chunks parse_json buffer chunks)
      → (run parse_json accepts
          (record { phase = reading buffer; reader = true })
          (map chunk chunks ++ stream_end ∷ [])).1
        ≡ map on_message (process_chunks parse_json buffer chunks) ++ on_close ∷ []
  unfolding run step process_chunks
  run_chunks buffer [] h = refl
  run_chunks buffer (c ∷ cs) h =
      let (lines, rest) = frame buffer c in
      let ms = process_lines parse_json blank_message lines in
      let (now, later) =
        All-split (λ m. accepts m ≡ true) ms (process_chunks parse_json rest cs) h in
      rw (on_chunk_of_accepted buffer c now) (simp (list_laws, run_chunks rest cs later))

  -- Over a response 200 of type text/event-stream, with a handler that returns on every message
  -- and a stream that ends, the calls are `onOpen`, `onMessage` for each message of the chunks in
  -- order, and `onClose`.
  pub session_complete :
      (content_type : Text) (chunks : List Text)
      → includes (lit "text/event-stream") content_type ≡ true
      → All (λ m. accepts m ≡ true) (process_chunks parse_json [] chunks)
      → (session parse_json accepts
          (response 200 (some content_type) true ∷ map chunk chunks ++ stream_end ∷ [])).1
        ≡ on_open ∷ map on_message (process_chunks parse_json [] chunks) ++ on_close ∷ []
  unfolding session run step
  session_complete content_type chunks h k =
      rw h (ap (λ cbs. on_open ∷ cbs) (run_chunks [] chunks k))

  -- A user who disconnects before the response has come is told of a close and then of an error,
  -- since the fetch is rejected with the reason 'stop' and not with an `AbortError`; the connection
  -- calls nothing more.
  pub disconnect_while_fetching :
      (c : Conn) (es : List NetEvent)
      → c.phase ≡ fetching
      → All IsNetwork es
      → (run parse_json accepts c (disconnect ∷ es)).1 ≡ on_close ∷ on_error ∷ []
  unfolding run step dispatch
  disconnect_while_fetching c es h n =
      rw (h, run_of_finished (record { phase = finished; reader = false }) es refl n)

  -- A user who disconnects while the answer is read is told of a close at once, and if the promise
  -- chain ends afterwards a second time, by `onClose` or `onError`.
  pub disconnect-IsTrace :
      (c : Conn) (buffer : Text) (es : List NetEvent)
      → c.phase ≡ reading buffer
      → All IsNetwork es
      → (cbs : List Callback) × ((run parse_json accepts c (disconnect ∷ es)).1 ≡ on_close ∷ cbs)
        × IsTrace (is_finished (run parse_json accepts c (disconnect ∷ es)).0.phase) cbs
  unfolding run step dispatch
  disconnect-IsTrace c buffer es h n =
      rw h (_, refl, run-IsTrace (record { phase = reading buffer; reader = false }) es n refl)
