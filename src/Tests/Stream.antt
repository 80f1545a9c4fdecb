-- ===== src/Tests/Stream.antt =====
-- The streams: a parser that takes each text but the empty one for a string.
use toolkit_inference_mesh.Common.{
  ◌≡◌, List, [], ◌∷◌, some, none, true, false, Bool, Option, ◌++◌, map,
}
use toolkit_inference_mesh.Js.Text.{lit, Text, split}
use toolkit_inference_mesh.Js.Json.{Json, str, null, arr, nil, cons}
use toolkit_inference_mesh.Stream.Frames.{frames}
use toolkit_inference_mesh.Stream.Frames.Laws.{frames-split, complete_lines}
use toolkit_inference_mesh.Stream.Walk.{walk, NoNulls, walk-NoNulls}
use toolkit_inference_mesh.Stream.Sse.Lines.{Message}
use toolkit_inference_mesh.Stream.Sse.Connection
use toolkit_inference_mesh.Stream.Sse.Connection.{session, Callback, on_open}
use toolkit_inference_mesh.Stream.Sse.Connection.Laws.{session-IsTrace, is_finished, IsTrace}
use toolkit_inference_mesh.Stream.Http
use toolkit_inference_mesh.Stream.Http.Laws.{run-complete_lines}
use toolkit_inference_mesh.Stream.Http.{parse_lines}

abbrev pub read_text : Text → Option Json
read_text [] = none
read_text (c ∷ s) = some (str (c ∷ s))

abbrev accept_all : Message → Bool
accept_all m = true

abbrev two_chunks : List Text
two_chunks = lit "data: a\nda" ∷ lit "ta: b\n" ∷ []

frames-split_example : frames [] two_chunks ≡ (lit "data: a" ∷ lit "data: b" ∷ [], [])
unfolding split
frames-split_example = frames-split two_chunks

walk-NoNulls_example :
    NoNulls (walk (arr (cons null nil)))
    × (walk (walk (arr (cons null nil))) ≡ walk (arr (cons null nil)))
walk-NoNulls_example = walk-NoNulls (arr (cons null nil))

abbrev sse_events : List Connection.NetEvent
sse_events =
    Connection.response 200 (some (lit "text/event-stream")) true
    ∷ Connection.chunk (lit "data: a\n")
    ∷ Connection.rejected Connection.other_error
    ∷ []

session-IsTrace_example :
    (cbs : List Callback) × ((session read_text accept_all sse_events).1 ≡ on_open ∷ cbs)
    × IsTrace (is_finished (session read_text accept_all sse_events).0.phase) cbs
session-IsTrace_example = session-IsTrace read_text accept_all sse_events (tt, (tt, (tt, tt)))

abbrev waiting_conn : Connection.Conn
waiting_conn = record { phase = Connection.fetching; reader = false }

abbrev armed_conn : Http.Conn
armed_conn = record { phase = Http.fetching true; reader = Http.unset; controller = true }

run-complete_lines_example :
    (Http.run true read_text
      (record { phase = Http.reading []; reader = Http.live; controller = true })
      (map Http.chunk two_chunks ++ Http.stream_end ∷ [])).1
    ≡ Http.message (str (lit "data: a"))
      ∷ Http.message (str (lit "data: b"))
      ∷ Http.on_status_change true Http.disconnected
unfolding complete_lines split parse_lines
run-complete_lines_example = run-complete_lines read_text true two_chunks
