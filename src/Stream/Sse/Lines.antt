-- ===== src/Stream/Sse/Lines.antt =====
-- `processLines` of services/chat.tsx: from the complete lines of one chunk to the messages that
-- are handed to `onMessage`.
pub mod Laws
use toolkit_inference_mesh.Common.{
  if◌then◌else◌, take, drop, ℕ, zero, suc, Option, none, some, List, [], ◌∷◌, ◌++◌,
}
use toolkit_inference_mesh.Js.Text.{Text, lit, text_eq, trim, starts_with, index_of, is_some}
use toolkit_inference_mesh.Js.Json.{Json, str}
use toolkit_inference_mesh.Stream.Frames.{frame}
use toolkit_inference_mesh.Stream.Walk.{walk}

pub record Message : Type 0 where
  pub event : Text
  pub id : Option Text
  pub payload : Option Json

-- The message that each call of `processLines` starts with.
abbrev pub blank_message : Message
blank_message = record { event = lit "message"; id = none; payload = none }

-- How a line is read: `skipped` where the source returns at once, `unknown` for a field that no
-- case of the `switch` takes.
pub data Line : Type 0 where
  skipped : Line
  event_line : Text → Line
  id_line : Text → Line
  data_line : Text → Line
  unknown : Line

unfoldable pub classify : Text → Text → Line
unfolding text_eq starts_with
classify name value =
    if starts_with (lit ":") value
    then skipped
    else if text_eq name (lit "event")
    then event_line value
    else if text_eq name (lit "id")
    then id_line value
    else if text_eq name (lit "data")
    then data_line value
    else unknown

unfoldable pub read_at : Text → Option ℕ → Line
unfolding classify trim
read_at line none = skipped
read_at line (some zero) = skipped
read_at line (some (suc i)) = classify (trim (take (suc i) line)) (trim (drop (suc (suc i)) line))

unfoldable pub read_line : Text → Line
unfolding read_at index_of
read_line line = read_at line (index_of (lit ":") line)

module _ (parse_json : Text → Option Json) where
  -- The parsed and cleaned value, or the text itself where parsing fails.
  unfoldable pub event_value : Text → Json
  unfolding walk
  event_value value = elim (parse_json value) [ some v ↦ walk v | none ↦ str value ]

  -- The message after a line that is not skipped.
  abbrev pub updated : Message → Line → Message
  updated m skipped = m
  updated m (event_line v) = record m { event = v }
  updated m (id_line v) = record m { id = some v }
  updated m (data_line v) = record m { payload = some (event_value v) }
  updated m unknown = m

  -- The call of `onMessage` at the end of a round, once there are data.
  abbrev pub delivered : Line → Message → List Message
  delivered skipped m = []
  delivered l m = if is_some m.payload then m ∷ [] else []

  -- The calls of `onMessage` that the lines of one chunk make, in order.
  unfoldable pub process_lines : Message → List Text → List Message
  process_lines m [] = []
  process_lines m (line ∷ lines) =
      let m' = updated m (read_line line) in delivered (read_line line) m' ++ process_lines m' lines

  -- The rounds of the reading loop: each chunk is processed with a message of its own.
  unfoldable pub process_chunks : Text → List Text → List Message
  unfolding process_lines frame
  process_chunks buffer [] = []
  process_chunks buffer (chunk ∷ chunks) =
      let (lines, rest) = frame buffer chunk in
      process_lines blank_message lines ++ process_chunks rest chunks
