-- ===== src/Stream/Http/Client/Laws.antt =====
-- The requests of one client together.
use toolkit_inference_mesh.Common.{
  sum_of, sum_of-snoc, sum_of-set, ℕ, zero, suc, ◌+◌, ◌≡◌, ◌≢◌, refl, Bool, true, false, Option,
  none, some, List, [], ◌∷◌, ◌++◌, map, arith, append-nil, ap, get_elem?, set, get_elem?-set_other,
}
use toolkit_inference_mesh.Js.Text.{Text}
use toolkit_inference_mesh.Js.Json.{Json}
use toolkit_inference_mesh.Stream.Http.{
  Phase, fetching, reading, finished, Event, dispatch, disconnected, message, chunk, stream_end,
  parse_lines, on_status_change, error_callback, abort,
}
use toolkit_inference_mesh.Stream.Http
use toolkit_inference_mesh.Stream.Http.Laws.{ends, extra, dispatch-reconnects}
use toolkit_inference_mesh.Stream.Http.Client.{
  Client, ClientEvent, send_called, abort_called, reconnect_due, request_event, conn_of, on_send,
  on_reconnect, on_abort_called, on_request, step, run,
}
use toolkit_inference_mesh.Stream.Frames.{frame}

abbrev runs : Phase → ℕ
runs (fetching armed) = 1
runs (reading buffer) = 1
runs finished = 0

runs-ends : (p : Phase) → runs p + ends p ≡ 1
runs-ends p = ground arith

-- How many requests have not ended.
abbrev pub running : List Phase → ℕ
running ps = sum_of runs ps

-- The requests that an event starts without one that ends.
abbrev pub extra_at : Option Phase → Event → ℕ
extra_at none e = 0
extra_at (some p) e = extra p e

abbrev pub starts : Client → ClientEvent → ℕ
starts c (send_called q) = 1
starts c abort_called = 1
starts c reconnect_due = 0
starts c (request_event n e) = extra_at (get_elem? c.requests n) e

module _ (parse_json : Text → Option Json) where
  on_send-running :
      (q : Bool) (c : Client)
      → running (on_send true q c).0.requests + (on_send true q c).0.timers
        ≡ running c.requests + c.timers + 1
  unfolding on_send Http.send Http.on_status_change
  on_send-running q c =
      let sent = Http.send true q (conn_of c finished) in
      omega (arith, sum_of-snoc runs c.requests sent.0.phase)

  on_request-running :
      (n : ℕ) (e : Event) (o : Option Phase) (c : Client)
      → get_elem? c.requests n ≡ o
      → running (on_request true parse_json n e o c).0.requests
          + (on_request true parse_json n e o c).0.timers
        ≡ running c.requests + c.timers + extra_at o e
  unfolding on_request
  on_request-running n e none c h = omega arith
  on_request-running n e (some p) c h =
      let after = dispatch true parse_json p e (conn_of c p) in
      omega (
        arith,
        sum_of-set runs c.requests n p after.0.phase h,
        dispatch-reconnects parse_json p e (conn_of c p) refl,
        runs-ends p,
        runs-ends after.0.phase,
      )

  on_reconnect-running :
      (n : ℕ) (c : Client)
      → c.timers ≡ n
      → running (on_reconnect true n c).0.requests + (on_reconnect true n c).0.timers
        ≡ running c.requests + c.timers
  unfolding on_reconnect
  on_reconnect-running zero c h = refl
  on_reconnect-running (suc n) c h =
      omega (arith, h, on_send-running c.previous (record c { timers = n }))

  step-running :
      (c : Client) (e : ClientEvent)
      → running (step true parse_json c e).0.requests + (step true parse_json c e).0.timers
        ≡ running c.requests + c.timers + starts c e
  unfolding step on_abort_called
  step-running c (send_called q) = on_send-running q c
  step-running c abort_called =
      omega (arith, dispatch-reconnects parse_json finished abort (conn_of c finished) refl)
  step-running c reconnect_due = omega (arith, on_reconnect-running c.timers c refl)
  step-running c (request_event n e) = on_request-running n e (get_elem? c.requests n) c refl

  abbrev pub all_starts : Client → List ClientEvent → ℕ
  all_starts c [] = 0
  all_starts c (e ∷ es) = starts c e + all_starts (step true parse_json c e).0 es

  -- With automatic reconnection, the requests of a client that have not ended and the timers for a
  -- new one are, taken together, as many after any events as before, and one more for each call of
  -- `send`, each call of `abort` and each timeout that fired: none ever gets lost, and no request
  -- that ends lowers their number.
  pub run-running :
      (c : Client) (es : List ClientEvent)
      → running (run true parse_json c es).0.requests + (run true parse_json c es).0.timers
        ≡ running c.requests + c.timers + all_starts c es
  unfolding run
  run-running c [] = omega arith
  run-running c (e ∷ es) =
      omega (arith, step-running c e, run-running (step true parse_json c e).0 es)

  -- After a cleanup nothing can be read.
  cleanup_reader-is_live : (r : Http.Reader) → Http.is_live (Http.cleanup_reader r) ≡ false
  unfolding Http.cleanup_reader
  cleanup_reader-is_live Http.unset = refl
  cleanup_reader-is_live Http.live = refl
  cleanup_reader-is_live Http.broken = refl

  -- The requests of a client read from one shared reader: when the stream of one ends, the next
  -- chunk of another that is reading is still handed on, and then this one ends too, with an error
  -- and a call of `onError`, though its own stream goes on.
  pub run-shared_reader :
      (auto : Bool) (c : Client) (n m : ℕ) (buffer buffer' text : Text)
      → get_elem? c.requests n ≡ some (reading buffer)
      → get_elem? c.requests m ≡ some (reading buffer')
      → n ≢ m
      → ((run auto parse_json c
            (request_event n stream_end ∷ request_event m (chunk text) ∷ [])).0.requests
          ≡ set (set c.requests n finished) m finished)
        × ((run auto parse_json c
              (request_event n stream_end ∷ request_event m (chunk text) ∷ [])).1
            ≡ on_status_change auto disconnected
              ++ (map message (parse_lines parse_json (frame buffer' text).0)
                  ++ (on_status_change auto Http.error ++ error_callback ∷ [])))
  unfolding run step on_request dispatch Http.on_end Http.settle Http.on_chunk Http.on_rejected
  run-shared_reader auto c n m buffer buffer' text h h' ne =
      rw (h, get_elem?-set_other c.requests n m finished ne, h', cleanup_reader-is_live c.reader)
        (refl, ap (λ l. on_status_change auto disconnected ++ l) (append-nil _))
