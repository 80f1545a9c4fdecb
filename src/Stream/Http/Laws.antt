-- ===== src/Stream/Http/Laws.antt =====
-- How often a request plans a new one, and what it hands on.
use toolkit_inference_mesh.Common.{
  list_laws, ℕ, suc, ◌+◌, ◌≡◌, refl, Bool, true, false, Option, List, [], ◌∷◌, ◌++◌, map, arith,
  Bool-cases, inl, inr, concat, ap, ◌∙◌, append-nil, none, some,
}
use toolkit_inference_mesh.Js.Text.{Text}
use toolkit_inference_mesh.Js.Json.{Json}
use toolkit_inference_mesh.Stream.Http.{
  Phase, live, is_live, fetching, reading, finished, Conn, Event, timeout, abort, Action,
  status_change, reconnect_later, message, error_callback, abort_fetch, dispatch, keep_parsed,
  disconnected, response, chunk, stream_end, parse_lines, on_status_change, on_rejected, on_chunk,
  step, run, settle, on_end,
}
use toolkit_inference_mesh.Stream.Frames.{frame, frames}
use toolkit_inference_mesh.Stream.Frames.Laws.{complete_lines, frames-complete_lines}

-- How many timers for a new `send` have been set.
abbrev pub reconnects : List Action → ℕ
reconnects [] = 0
reconnects (reconnect_later ∷ rest) = suc (reconnects rest)
reconnects (status_change s ∷ rest) = reconnects rest
reconnects (message v ∷ rest) = reconnects rest
reconnects (error_callback ∷ rest) = reconnects rest
reconnects (abort_fetch ∷ rest) = reconnects rest

reconnects-append : (xs ys : List Action) → reconnects (xs ++ ys) ≡ reconnects xs + reconnects ys
reconnects-append [] ys = omega arith
reconnects-append (reconnect_later ∷ xs) ys = omega (arith, reconnects-append xs ys)
reconnects-append (status_change s ∷ xs) ys = reconnects-append xs ys
reconnects-append (message v ∷ xs) ys = reconnects-append xs ys
reconnects-append (error_callback ∷ xs) ys = reconnects-append xs ys
reconnects-append (abort_fetch ∷ xs) ys = reconnects-append xs ys

reconnects-messages : (vs : List Json) → reconnects (map message vs) ≡ 0
reconnects-messages [] = refl
reconnects-messages (v ∷ vs) = reconnects-messages vs

-- One for a chain that has ended, none for one that goes on.
abbrev pub ends : Phase → ℕ
ends finished = 1
ends (fetching armed) = 0
ends (reading buffer) = 0

abbrev pub bool_num : Bool → ℕ
bool_num true = 1
bool_num false = 0

-- The reports that come from elsewhere than the chain: a timeout, and a call of `abort`.
abbrev pub extra : Phase → Event → ℕ
extra p abort = 1
extra (fetching true) timeout = 1
extra _ _ = 0

keep_parsed-append :
    (o : Option Json) (xs ys : List Json) → keep_parsed o (xs ++ ys) ≡ keep_parsed o xs ++ ys
keep_parsed-append none xs ys = refl
keep_parsed-append (some v) xs ys = refl

module _ (parse_json : Text → Option Json) where
  on_chunk-reconnects :
      (c : Conn) (buffer text : Text)
      → reconnects (on_chunk true parse_json c buffer text).1
        ≡ ends (on_chunk true parse_json c buffer text).0.phase
  unfolding on_chunk
  on_chunk-reconnects c buffer text =
      let vs = parse_lines parse_json (frame buffer text).0 in
      elim (Bool-cases (is_live c.reader)) [
        | inl y ↦ rw y (reconnects-messages vs)
        | inr n ↦ rw n (
            omega (
              arith,
              reconnects-append (map message vs) (on_rejected true c).1,
              reconnects-messages vs,
            ))
      ]

  pub dispatch-reconnects :
      (p : Phase) (e : Event) (c : Conn)
      → c.phase ≡ p
      → reconnects (dispatch true parse_json p e c).1 + ends p
        ≡ ends (dispatch true parse_json p e c).0.phase + extra p e
  unfolding dispatch
  dispatch-reconnects (reading b) (chunk text) c h = omega (arith, on_chunk-reconnects c b text)
  dispatch-reconnects (fetching true) (response st ct b) c h = ground arith
  dispatch-reconnects (fetching false) (response st ct b) c h = ground arith
  dispatch-reconnects (fetching true) e c h = ground arith
  dispatch-reconnects (fetching false) e c h = ground arith
  dispatch-reconnects p e c h = ground arith

  -- The timeouts and aborts of a run.
  abbrev pub extras : Conn → List Event → ℕ
  extras c [] = 0
  extras c (e ∷ es) = extra c.phase e + extras (step true parse_json c e).0 es

  -- With automatic reconnection, the number of new requests that a request plans is one if its
  -- promise chain has ended, and one more for each timeout that fired and each call of `abort`.
  -- So a request that timed out and then ended has planned two.
  pub run-reconnects :
      (c : Conn) (es : List Event)
      → reconnects (run true parse_json c es).1 + ends c.phase
        ≡ ends (run true parse_json c es).0.phase + extras c es
  unfolding run step
  run-reconnects c [] = omega arith
  run-reconnects c (e ∷ es) =
      let (c', actions) = dispatch true parse_json c.phase e c in
      omega (
        arith,
        reconnects-append actions (run true parse_json c' es).1,
        dispatch-reconnects c.phase e c refl,
        run-reconnects c' es,
      )

  parse_lines-append :
      (xs ys : List Text)
      → parse_lines parse_json (xs ++ ys) ≡ parse_lines parse_json xs ++ parse_lines parse_json ys
  unfolding parse_lines
  parse_lines-append [] ys = refl
  parse_lines-append (x ∷ xs) ys =
      ap (keep_parsed (parse_json x)) (parse_lines-append xs ys)
      ∙ keep_parsed-append (parse_json x) (parse_lines parse_json xs) _

  run_chunks :
      (auto : Bool) (buffer : Text) (chunks : List Text)
      → (run auto parse_json
          (record { phase = reading buffer; reader = live; controller = true })
          (map chunk chunks ++ stream_end ∷ [])).1
        ≡ map message (parse_lines parse_json (frames buffer chunks).0)
          ++ on_status_change auto disconnected
  unfolding run step frames dispatch on_end settle parse_lines on_chunk
  run_chunks auto buffer [] = append-nil _
  run_chunks auto buffer (c ∷ cs) =
      let (lines, rest) = frame buffer c in
      let more = (frames rest cs).0 in
      simp (list_laws, run_chunks auto rest cs, parse_lines-append lines more)

  -- However a complete response is cut into chunks, a request that begins to read hands on the
  -- values of the complete lines of the whole text, in order, passes over the lines that do not
  -- parse, and then reports that it is disconnected.
  pub run-complete_lines :
      (auto : Bool) (chunks : List Text)
      → (run auto parse_json
          (record { phase = reading []; reader = live; controller = true })
          (map chunk chunks ++ stream_end ∷ [])).1
        ≡ map message (parse_lines parse_json (complete_lines (concat chunks)))
          ++ on_status_change auto disconnected
  run-complete_lines auto chunks =
      run_chunks auto [] chunks
      ∙ ap (λ ls. map message (parse_lines parse_json ls) ++ on_status_change auto disconnected)
          (frames-complete_lines chunks)
