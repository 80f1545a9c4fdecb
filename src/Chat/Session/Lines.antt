-- ===== src/Chat/Session/Lines.antt =====
-- The lines of a response that the server writes: an event for each delta, and the closing event.
use toolkit_inference_mesh.Common.{
  ◌≡◌, List, [], ◌∷◌, ◌++◌, false, refl, ap, ◌∙◌, arith, All, All-append, ◌≢◌, Option, some, map,
  append_assoc,
}
use toolkit_inference_mesh.Js.Text.{Text, lit, trim, starts_with, split, index_of}
use toolkit_inference_mesh.Js.Text.Laws.{Lacks}
use toolkit_inference_mesh.Stream.Frames.Laws.{complete_lines, split-cons}
use toolkit_inference_mesh.Stream.Sse.Lines.{
  read_line, data_line, classify, Message, blank_message, skipped, event_value,
}
use toolkit_inference_mesh.Stream.Frames.{is_newline}
use toolkit_inference_mesh.Js.Json.{Json}
use toolkit_inference_mesh.Stream.Sse.Lines.Laws.{HasPlainLines, line_messages}

-- `data: `, the value, and a blank line.
abbrev pub event_text : Text → Text
event_text value = lit "data: " ++ (value ++ 10 ∷ 10 ∷ [])

abbrev pub response_text : List Text → Text
response_text [] = event_text (lit "[DONE]")
response_text (v ∷ vs) = event_text v ++ response_text vs

-- A value that stands on one line, with no white space at its ends, and is no comment.
pub record IsValue (v : Text) : Type 0 where
  pub one_line : Lacks 10 v
  pub trimmed : trim v ≡ v
  pub no_comment : starts_with (lit ":") v ≡ false

classify-data : (v : Text) → IsValue v → classify (lit "data") v ≡ data_line v
unfolding classify
classify-data v h = rw h.no_comment refl

read_line-data : (v : Text) → IsValue v → read_line (lit "data: " ++ v) ≡ data_line v
unfolding read_line index_of starts_with
read_line-data v h = ap (classify (lit "data")) (unfold trim in h.trimmed) ∙ classify-data v h

split-line :
    (l rest : Text) → Lacks 10 l → split is_newline (l ++ 10 ∷ rest) ≡ l ∷ split is_newline rest
unfolding split
split-line [] rest h = refl
split-line (c ∷ l) rest (h, hs) = rw (split-line l rest hs) (ground arith)

-- A line and what follows it.
complete_lines-line :
    (l rest : Text) → Lacks 10 l → complete_lines (l ++ 10 ∷ rest) ≡ l ∷ complete_lines rest
unfolding complete_lines
complete_lines-line l rest h =
    let (m, ms, e) = split-cons is_newline rest in rw (split-line l rest h, e) refl

-- The lines of a response.
abbrev pub response_lines : List Text → List Text
response_lines [] = lit "data: [DONE]" ∷ [] ∷ []
response_lines (v ∷ vs) = (lit "data: " ++ v) ∷ [] ∷ response_lines vs

complete_lines-event :
    (v rest : Text)
    → IsValue v
    → complete_lines (event_text v ++ rest) ≡ (lit "data: " ++ v) ∷ [] ∷ complete_lines rest
complete_lines-event v rest h =
    ap complete_lines (ap (λ t. lit "data: " ++ t) (append_assoc v (10 ∷ 10 ∷ []) rest))
    ∙ complete_lines-line (lit "data: " ++ v) (10 ∷ rest)
        (All-append (λ d. d ≢ 10) (lit "data: ") v (omega arith) h.one_line)
    ∙ ap (λ ls. (lit "data: " ++ v) ∷ ls) (complete_lines-line [] rest tt)

pub complete_lines-response :
    (vs : List Text) → All IsValue vs → complete_lines (response_text vs) ≡ response_lines vs
complete_lines-response [] h = unfold complete_lines split in refl
complete_lines-response (v ∷ vs) (h, hs) =
    complete_lines-event v (response_text vs) h
    ∙ ap (λ ls. (lit "data: " ++ v) ∷ [] ∷ ls) (complete_lines-response vs hs)

read_line-done : read_line (lit "data: [DONE]") ≡ data_line (lit "[DONE]")
unfolding read_line trim
read_line-done = refl

read_line-blank : read_line [] ≡ skipped
unfolding read_line
read_line-blank = refl

module _ (parse_json : Text → Option Json) where
  -- The message of a line with data.
  abbrev pub data_message : Text → Message
  data_message v = record blank_message { payload = some (event_value parse_json v) }

  pub line_messages-response :
      (vs : List Text)
      → All IsValue vs
      → HasPlainLines (response_lines vs)
        × (line_messages parse_json (response_lines vs)
            ≡ map data_message vs ++ data_message (lit "[DONE]") ∷ [])
  line_messages-response [] h = rw (read_line-done, read_line-blank) ((tt, (tt, tt)), refl)
  line_messages-response (v ∷ vs) (h, hs) =
      let (plain, same) = line_messages-response vs hs in
      rw (read_line-data v h, read_line-blank)
        ((tt, (tt, plain)), ap (λ ms. data_message v ∷ ms) same)
