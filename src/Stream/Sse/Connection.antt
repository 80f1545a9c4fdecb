-- ===== src/Stream/Sse/Connection.antt =====
-- `createSSE` of services/chat.tsx: one connection, from `connect` to the end of its promise chain.
-- The platform's part (fetch and the reader) enters as a sequence of events.
pub mod Laws
use toolkit_inference_mesh.Common.{
  if◌then◌else◌, ℕ, Bool, true, false, not, ◌&&◌, Option, none, some, List, [], ◌∷◌, ◌++◌, ◌==◌,
}
use toolkit_inference_mesh.Js.Text.{Text, lit, includes}
use toolkit_inference_mesh.Js.Json.{Json}
use toolkit_inference_mesh.Stream.Frames.{frame}
use toolkit_inference_mesh.Stream.Sse.Lines.{Message, blank_message, process_lines}

-- Where the promise chain waits: for the response, for a read (with the buffer), or nowhere.
pub data Phase : Type 0 where
  fetching : Phase
  reading : Text → Phase
  finished : Phase

-- `reader` tells whether the shared variable of that name is set.
pub record Conn : Type 0 where
  pub phase : Phase
  pub reader : Bool

-- What the promise is rejected with: an `AbortError`, or anything else.
pub data Rejection : Type 0 where
  abort_error other_error : Rejection

-- The reason of an abort: the value that `abort` is called with, or the platform's own.
pub data AbortReason : Type 0 where
  default_reason : AbortReason
  text_reason : Text → AbortReason

-- An aborted `fetch` is rejected with the reason itself, and only the platform's own is an
-- `AbortError`.
abbrev pub rejection_of : AbortReason → Rejection
rejection_of default_reason = abort_error
rejection_of (text_reason reason) = other_error

-- `abortController?.abort('stop')`
abbrev pub stop_reason : AbortReason
stop_reason = text_reason (lit "stop")

pub data NetEvent : Type 0 where
  response : (status : ℕ) (content_type : Option Text) (has_body : Bool) → NetEvent
  chunk : Text → NetEvent
  stream_end : NetEvent
  rejected : Rejection → NetEvent
  -- the user's call of `disconnect`
  disconnect : NetEvent

pub data Callback : Type 0 where
  on_open on_close on_error : Callback
  on_message : Message → Callback

-- The handler given to `catch`.
abbrev pub caught : Rejection → Callback
caught abort_error = on_close
caught other_error = on_error

-- `contentType?.includes('text/event-stream')`
abbrev pub is_event_stream : Option Text → Bool
is_event_stream none = false
is_event_stream (some t) = includes (lit "text/event-stream") t

unfoldable pub connect : Conn × List Callback
connect = (record { phase = fetching; reader = false }, on_open ∷ [])

-- The handler given to `then`, up to the first read.
unfoldable pub on_response : Conn → ℕ → Option Text → Bool → Conn × List Callback
on_response c status content_type has_body =
    if not (status == 200)
    then (record c { phase = finished }, on_error ∷ [])
    else if not (is_event_stream content_type)
    then (record c { phase = finished }, on_error ∷ [])
    else if has_body
    then (record { phase = reading []; reader = true }, [])
    else (record { phase = finished; reader = false }, on_error ∷ [])

-- `accepts` tells whether `onMessage` returns; where it throws, the rest is not handed on.
unfoldable pub deliver : (Message → Bool) → List Message → List Callback × Bool
deliver accepts [] = ([], true)
deliver accepts (m ∷ ms) =
    let (cbs, done) = deliver accepts ms in
    if accepts m then (on_message m ∷ cbs, done) else (on_message m ∷ [], false)

module _ (parse_json : Text → Option Json) (accepts : Message → Bool) where
  -- A round of the loop; the next `reader.read()` throws where `disconnect` has unset the reader.
  unfoldable pub on_chunk : Conn → Text → Text → Conn × List Callback
  on_chunk c buffer text =
      let (lines, rest) = frame buffer text in
      let (cbs, done) = deliver accepts (process_lines parse_json blank_message lines) in
      if done && c.reader
      then (record c { phase = reading rest }, cbs)
      else (record c { phase = finished }, cbs ++ on_error ∷ [])

  -- `disconnect` calls `onClose`, and the fetch that it aborts is rejected before anything else
  -- happens. A read that waits settles with an event of its own. An event that does not fit the
  -- phase does not occur, and changes nothing.
  unfoldable pub dispatch : Phase → NetEvent → Conn → Conn × List Callback
  unfolding on_response on_chunk
  dispatch fetching disconnect c = (
    record { phase = finished; reader = false },
    on_close ∷ caught (rejection_of stop_reason) ∷ [],
  )
  dispatch _ disconnect c = (record c { reader = false }, on_close ∷ [])
  dispatch fetching (response status content_type has_body) c =
      on_response c status content_type has_body
  dispatch fetching (rejected e) c = (record c { phase = finished }, caught e ∷ [])
  dispatch (reading buffer) (chunk text) c = on_chunk c buffer text
  dispatch (reading buffer) stream_end c = (record c { phase = finished }, on_close ∷ [])
  dispatch (reading buffer) (rejected e) c = (record c { phase = finished }, caught e ∷ [])
  dispatch _ _ c = (c, [])

  unfoldable pub step : Conn → NetEvent → Conn × List Callback
  unfolding dispatch
  step c e = dispatch c.phase e c

  unfoldable pub run : Conn → List NetEvent → Conn × List Callback
  run c [] = (c, [])
  run c (e ∷ es) = let (c', cbs) = step c e in let (last, more) = run c' es in (last, cbs ++ more)

  -- A whole connection.
  unfoldable pub session : List NetEvent → Conn × List Callback
  unfolding connect
  session es = let (c, cbs) = connect in let (last, more) = run c es in (last, cbs ++ more)
