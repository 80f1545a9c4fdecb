-- ===== src/Stream/Sse/Lines/Laws.antt =====
-- What reaches `onMessage`, and how it depends on the chunks.
use toolkit_inference_mesh.Common.{
  list_laws, All, ◌≡◌, refl, sym, ap, ◌∙◌, Option, some, List, [], ◌∷◌, ◌++◌, concat, All-split,
  none,
}
use toolkit_inference_mesh.Js.Text.{Text}
use toolkit_inference_mesh.Js.Json.{Json}
use toolkit_inference_mesh.Stream.Sse.Lines.{
  Message, Line, skipped, data_line, read_line, event_value, updated, delivered, process_lines,
  event_line, id_line, unknown, process_chunks, blank_message,
}
use toolkit_inference_mesh.Stream.Frames.{frames, frame}
use toolkit_inference_mesh.Stream.Frames.Laws.{complete_lines, frames-complete_lines}

-- A line with data, or one that is skipped: blank lines and comments.
abbrev pub IsPlainLine : Line → Type 0
IsPlainLine skipped = Unit
IsPlainLine (data_line v) = Unit
IsPlainLine _ = ⊥

abbrev pub HasPlainLines : List Text → Type 0
HasPlainLines lines = All (λ line. IsPlainLine (read_line line)) lines

module _ (parse_json : Text → Option Json) where
  -- One message for each line with data.
  abbrev pub line_message : Line → List Message
  line_message (data_line v) =
      record blank_message { payload = some (event_value parse_json v) } ∷ []
  line_message _ = []

  abbrev pub line_messages : List Text → List Message
  line_messages [] = []
  line_messages (line ∷ lines) = line_message (read_line line) ++ line_messages lines

  line_messages-append :
      (xs ys : List Text) → line_messages (xs ++ ys) ≡ line_messages xs ++ line_messages ys
  line_messages-append [] ys = refl
  line_messages-append (x ∷ xs) ys = simp (list_laws, line_messages-append xs ys)

  deliver_plain :
      (p : Option Json) (l : Line) (lines : List Text) {ms : List Message}
      → IsPlainLine l
      → ((q : Option Json)
          → process_lines parse_json (record blank_message { payload = q }) lines ≡ ms)
      → delivered parse_json l (updated parse_json (record blank_message { payload = p }) l)
          ++ process_lines parse_json
              (updated parse_json (record blank_message { payload = p }) l)
              lines
        ≡ line_message l ++ ms
  deliver_plain p skipped lines h rest = rest p
  deliver_plain p (data_line v) lines h rest =
      ap (λ ms. line_message (data_line v) ++ ms) (rest (some (event_value parse_json v)))
  deliver_plain p (event_line v) lines h rest = absurd h
  deliver_plain p (id_line v) lines h rest = absurd h
  deliver_plain p unknown lines h rest = absurd h

  process_lines_of_plain :
      (lines : List Text)
      → HasPlainLines lines
      → (p : Option Json)
      → process_lines parse_json (record blank_message { payload = p }) lines ≡ line_messages lines
  unfolding process_lines
  process_lines_of_plain [] h p = refl
  process_lines_of_plain (line ∷ lines) (h, hs) p =
      deliver_plain p (read_line line) lines h (process_lines_of_plain lines hs)

  process_chunks_of_plain :
      (buffer : Text) (chunks : List Text)
      → HasPlainLines (frames buffer chunks).0
      → process_chunks parse_json buffer chunks ≡ line_messages (frames buffer chunks).0
  unfolding process_chunks frames
  process_chunks_of_plain buffer [] h = refl
  process_chunks_of_plain buffer (chunk ∷ chunks) h =
      let (lines, rest) = frame buffer chunk in
      let (now, later) = All-split (λ line. IsPlainLine (read_line line)) lines _ h in
      ap (λ ms. ms ++ process_chunks parse_json rest chunks) (process_lines_of_plain lines now none)
      ∙ ap (λ ms. line_messages lines ++ ms) (process_chunks_of_plain rest chunks later)
      ∙ sym (line_messages-append lines (frames rest chunks).0)

  -- Where each complete line of the whole text has data or is skipped, the calls of `onMessage`
  -- are one for each line with data, in order, however the text is cut into chunks.
  pub process_chunks-plain :
      (chunks : List Text)
      → HasPlainLines (complete_lines (concat chunks))
      → process_chunks parse_json [] chunks ≡ line_messages (complete_lines (concat chunks))
  process_chunks-plain chunks h =
      rw (← frames-complete_lines chunks)
        (process_chunks_of_plain [] chunks (rw (← frames-complete_lines chunks) at h))

  -- A line with another field after a line with data makes `onMessage` be called again with those
  -- data: the message is not cleared between the events of a chunk.
  pub process_lines_repeats :
      (m : Message) (line next : Text) (lines : List Text) (v w : Text)
      → read_line line ≡ data_line v
      → read_line next ≡ event_line w
      → (more : List Message) × (process_lines parse_json m (line ∷ next ∷ lines)
          ≡ record m { payload = some (event_value parse_json v) }
            ∷ record m { event = w; payload = some (event_value parse_json v) }
            ∷ more)
  unfolding process_lines
  process_lines_repeats m line next lines v w h k = (
    process_lines parse_json (record m { event = w; payload = some (event_value parse_json v) })
        lines,
    rw (h, k),
  )
