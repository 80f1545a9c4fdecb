-- ===== src/Stream/Http.antt =====
-- `createHttpStreamFactory` of services/http-stream.ts: one `send`, from the request to the end of
-- its promise chain. `JSON.parse` is the parameter `parse_json`; `afterFetch` is its default, the
-- identity. The platform's part enters as a sequence of events.
pub mod Laws
pub mod Client
use toolkit_inference_mesh.Common.{
  ℕ, ◌==◌, if◌then◌else◌, Bool, true, false, not, ◌&&◌, ◌||◌, Option, none, some, List, [], ◌∷◌,
  ◌++◌, map,
}
use toolkit_inference_mesh.Js.Text.{Text, lit, text_eq}
use toolkit_inference_mesh.Js.Json.{Json}
use toolkit_inference_mesh.Stream.Frames.{frame}

pub data ClientStatus : Type 0 where
  connecting connected disconnected error : ClientStatus

-- Where the chain waits: for the response (with the timer running or not), for a read, or nowhere.
pub data Phase : Type 0 where
  fetching : Bool → Phase
  reading : Text → Phase
  finished : Phase

-- The shared variable `reader`: unset, or the reader of a stream that can be cancelled, or of one that
-- has failed.
pub data Reader : Type 0 where
  unset live broken : Reader

abbrev pub is_live : Reader → Bool
is_live live = true
is_live unset = false
is_live broken = false

-- `cleanupReader`: the variable stays set where `cancel` rejects, as it does on a stream that has
-- failed.
unfoldable pub cleanup_reader : Reader → Reader
cleanup_reader unset = unset
cleanup_reader live = unset
cleanup_reader broken = broken

-- The reader after the failure of a stream, which is its own or not.
abbrev pub break_reader : Bool → Reader → Reader
break_reader false reader = reader
break_reader true unset = unset
break_reader true live = broken
break_reader true broken = broken

-- `controller` tells whether the shared variable of that name is set.
pub record Conn : Type 0 where
  pub phase : Phase
  pub reader : Reader
  pub controller : Bool

pub data Event : Type 0 where
  timeout : Event
  response : (status : ℕ) (content_type : Option Text) (has_body : Bool) → Event
  chunk : Text → Event
  stream_end : Event
  -- of a read: whether the stream that failed is the one of the shared reader
  rejected : (of_reader : Bool) → Event
  -- the user's call of `abort`
  abort : Event

-- What the client does: a call of a callback, a timer for a new `send`, the abort of the fetch.
pub data Action : Type 0 where
  status_change : ClientStatus → Action
  reconnect_later : Action
  message : Json → Action
  error_callback : Action
  abort_fetch : Action

abbrev pub is_down : ClientStatus → Bool
is_down disconnected = true
is_down error = true
is_down connecting = false
is_down connected = false

-- A line that parsed is handed on, another is passed over.
abbrev pub keep_parsed : Option Json → List Json → List Json
keep_parsed none rest = rest
keep_parsed (some v) rest = v ∷ rest

-- `JSON.parse` of each line.
unfoldable pub parse_lines : (Text → Option Json) → List Text → List Json
parse_lines parse_json [] = []
parse_lines parse_json (line ∷ lines) = keep_parsed (parse_json line) (parse_lines parse_json lines)

abbrev pub is_ndjson : Option Text → Bool
is_ndjson none = false
is_ndjson (some t) = text_eq t (lit "application/x-ndjson")

module _ (auto_reconnect : Bool) where
  unfoldable pub on_status_change : ClientStatus → List Action
  on_status_change s =
      (if auto_reconnect && is_down s then reconnect_later ∷ [] else []) ++ status_change s ∷ []

  -- The end of the chain: `finally` cleans the reader up and forgets the controller.
  unfoldable pub settle : Conn → List Action → Conn × List Action
  unfolding cleanup_reader
  settle c actions =
      (record { phase = finished; reader = cleanup_reader c.reader; controller = false }, actions)

  -- `send`: the timer runs unless the data ask for the queue.
  unfoldable pub send : Bool → Conn → Conn × List Action
  unfolding on_status_change
  send is_queue_info c = (
    record { phase = fetching (not is_queue_info); reader = c.reader; controller = true },
    on_status_change connecting,
  )

  unfoldable pub on_timeout : Conn → Conn × List Action
  unfolding on_status_change
  on_timeout c = (
    record c { phase = fetching false },
    (if c.controller then abort_fetch ∷ [] else [])
        ++ (on_status_change error ++ error_callback ∷ []),
  )

  unfoldable pub on_response : Conn → ℕ → Option Text → Bool → Conn × List Action
  unfolding on_status_change settle text_eq
  on_response c status content_type has_body =
      if not (status == 200) || not (is_ndjson content_type)
      then settle c (on_status_change error)
      else if has_body
      then (record c { phase = reading []; reader = live }, on_status_change connected)
      else settle (record c { reader = unset }) (on_status_change error)

  -- The handler given to `catch`, and `finally`.
  unfoldable pub on_rejected : Conn → Conn × List Action
  unfolding on_status_change settle
  on_rejected c = settle c (on_status_change error ++ error_callback ∷ [])

  -- A round of the loop; the next `reader.read()` throws where the reader was unset, and rejects where
  -- its stream has failed.
  unfoldable pub on_chunk : (Text → Option Json) → Conn → Text → Text → Conn × List Action
  unfolding on_rejected parse_lines
  on_chunk parse_json c buffer text =
      let (lines, rest) = frame buffer text in
      let calls = map message (parse_lines parse_json lines) in
      let (c', more) = on_rejected c in
      if is_live c.reader then (record c { phase = reading rest }, calls) else (c', calls ++ more)

  unfoldable pub on_end : Conn → Conn × List Action
  unfolding on_status_change settle
  on_end c = settle c (on_status_change disconnected)

  unfoldable pub on_abort : Conn → Conn × List Action
  unfolding on_status_change
  on_abort c = (
    record c { reader = unset; controller = false },
    (if c.controller then abort_fetch ∷ [] else []) ++ on_status_change disconnected,
  )

  -- An event that does not fit the phase does not occur, and changes nothing.
  unfoldable pub dispatch : (Text → Option Json) → Phase → Event → Conn → Conn × List Action
  unfolding on_timeout on_response on_rejected on_chunk on_end on_abort
  dispatch parse_json _ abort c = on_abort c
  dispatch parse_json (fetching true) timeout c = on_timeout c
  dispatch parse_json (fetching armed) (response status content_type has_body) c =
      on_response c status content_type has_body
  dispatch parse_json (fetching armed) (rejected of_reader) c = on_rejected c
  dispatch parse_json (reading buffer) (chunk text) c = on_chunk parse_json c buffer text
  dispatch parse_json (reading buffer) stream_end c = on_end c
  dispatch parse_json (reading buffer) (rejected of_reader) c =
      on_rejected (record c { reader = break_reader of_reader c.reader })
  dispatch parse_json _ _ c = (c, [])

  unfoldable pub step : (Text → Option Json) → Conn → Event → Conn × List Action
  unfolding dispatch
  step parse_json c e = dispatch parse_json c.phase e c

  unfoldable pub run : (Text → Option Json) → Conn → List Event → Conn × List Action
  unfolding step
  run parse_json c [] = (c, [])
  run parse_json c (e ∷ es) =
      let (c', actions) = step parse_json c e in
      let (last, more) = run parse_json c' es in (last, actions ++ more)
