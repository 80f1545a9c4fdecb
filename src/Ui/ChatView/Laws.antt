-- ===== src/Ui/ChatView/Laws.antt =====
-- What is shown of an answer.
use toolkit_inference_mesh.Common.{
  ℕ, ◌≡◌, refl, ap, ◌∙◌, Bool, true, false, Option, none, some, List, [], ◌∷◌, ◌++◌, map, All,
  concat, map-append,
}
use toolkit_inference_mesh.Js.Text.{Text, lit, trim, includes, to_lower_case, text_eq}
use toolkit_inference_mesh.Js.Text.Laws.{Lacks}
use toolkit_inference_mesh.Chat.Helper.Qwen.{think_tag_open, think_tag_close}
use toolkit_inference_mesh.Chat.Helper.Qwen.Closed.{lt_sign}
use toolkit_inference_mesh.Chat.Format.{Format, two_channels, gpt_format, qwen_format}
use toolkit_inference_mesh.Js.Json.{Json}
use toolkit_inference_mesh.Stream.Sse.Connection.{response, chunk, stream_end}
use toolkit_inference_mesh.Chat.Messages.{
  ChatStates, ok, ChunkInfo, done, split_generation, with_generation, new_message,
}
use toolkit_inference_mesh.Chat.Messages.Deltas.{EndsWithUser, generated}
use toolkit_inference_mesh.Chat.Helper.Gpt.Laws.{IsChannel}
use toolkit_inference_mesh.Chat.Session.{answer}
use toolkit_inference_mesh.Chat.Session.Chunks.{chunk_info}
use toolkit_inference_mesh.Chat.Session.Lines.{response_text}
use toolkit_inference_mesh.Chat.Session.Laws.{IsChunk, answered, answer-generated}
use toolkit_inference_mesh.Ui.MessageView.{
  Part, content_part, parts, show_copy, show_regenerate, thinking_of,
}
use toolkit_inference_mesh.Ui.ChatView.{Item, item, stream}

abbrev pub shown_text : Text → List Part
shown_text [] = []
shown_text (c ∷ s) = content_part (c ∷ s) ∷ []

abbrev pub answer_item : Text → Text → Item
answer_item think text = record {
  parts = thinking_of (some think) ++ shown_text text;
  copy = true;
  regenerate = true;
}

item-generated :
    (info : ChunkInfo) (model raw think text : Text)
    → split_generation model raw ≡ (think, text)
    → item (record (generated info model raw) { status = done }) ≡ answer_item think text
unfolding item generated with_generation new_message parts show_copy show_regenerate text_eq
item-generated info model raw think [] h = rw h refl
item-generated info model raw think (c ∷ text) h = rw h refl

-- The answer of a model in its format, from the network to the screen.
answer-shown :
    (id model : Text) (created : ℕ) (parse_json : Text → Option Json) (content_type : Text)
    (chunks : List Text) (x : Text × Text) (sent : List (Text × Text)) (s : ChatStates)
    (format : Format model) (think text : Text)
    → includes (lit "text/event-stream") content_type ≡ true
    → concat chunks ≡ response_text (map (λ p. p.0) (x ∷ sent))
    → All (IsChunk id model created parse_json) (x ∷ sent)
    → parse_json (lit "[DONE]") ≡ none
    → EndsWithUser s.messages
    → format.IsWritten (concat (map (λ p. p.1) (x ∷ sent))) think text
    → (last : ChatStates) × (answer parse_json
          (response 200 (some content_type) true ∷ map chunk chunks ++ stream_end ∷ [])
          s
        ≡ ok last)
      × (stream last ≡ ((stream s).0 ++ answer_item think text ∷ [], false))
unfolding stream
answer-shown id model created parse_json content_type chunks x sent s format think text ct whole h e
      u w =
    let raw = concat (map (λ p. p.1) (x ∷ sent)) in
    let message = record (generated (chunk_info id model created) model raw) { status = done } in
    let shown =
      item-generated (chunk_info id model created) model raw think text
        (format.splits raw think text w) in
    (
      answered id model created parse_json s x sent,
      answer-generated id model created parse_json content_type chunks x sent s ct whole h e u,
      ap (λ l. (l, false))
          (map-append item s.messages (message ∷ [])
            ∙ ap (λ i. map item s.messages ++ i ∷ []) shown),
    )

-- A whole answer of a gpt-oss model, from the network to the screen: where the server sends the
-- deltas of a text that is, when trimmed, a channel `analysis` and a channel `final`, then however
-- the response is cut into chunks, the chat shows the messages that it showed before and, below
-- them, the trimmed body of the first as the thinking and that of the second as the content, if
-- they are not empty, with the buttons to copy and to regenerate, and without the pulse. The server
-- answers as `answer-generated` has it.
pub answer-stream :
    (id model : Text) (created : ℕ) (parse_json : Text → Option Json) (content_type : Text)
    (chunks : List Text) (x : Text × Text) (sent : List (Text × Text)) (s : ChatStates)
    (think text : Text) (ended : Bool)
    → includes (lit "text/event-stream") content_type ≡ true
    → concat chunks ≡ response_text (map (λ p. p.0) (x ∷ sent))
    → All (IsChunk id model created parse_json) (x ∷ sent)
    → parse_json (lit "[DONE]") ≡ none
    → EndsWithUser s.messages
    → includes (lit "gpt-oss") (to_lower_case model) ≡ true
    → IsChannel (lit "analysis", think)
    → IsChannel (lit "final", text)
    → trim (concat (map (λ p. p.1) (x ∷ sent))) ≡ two_channels think text ended
    → (last : ChatStates) × (answer parse_json
          (response 200 (some content_type) true ∷ map chunk chunks ++ stream_end ∷ [])
          s
        ≡ ok last)
      × (stream last ≡ ((stream s).0 ++ answer_item (trim think) (trim text) ∷ [], false))
answer-stream id model created parse_json content_type chunks x sent s think text ended ct whole h e
      u m t f g =
    answer-shown id model created parse_json content_type chunks x sent s (gpt_format model m)
      (trim think) (trim text) ct whole h e u
      (record {
        t = think;
        c = text;
        ended = ended;
        analysis = t;
        final = f;
        written = g;
        is_think = refl;
        is_text = refl;
      })

-- A whole answer of a qwen model, from the network to the screen: where the server sends the deltas
-- of a text that is, when trimmed, a thinking block that is closed and then a content, neither with
-- a '<' in it, then however the response is cut into chunks, the chat shows the messages that it
-- showed before and, below them, the trimmed thinking and the trimmed content, if they are not
-- empty, with the buttons to copy and to regenerate, and without the pulse. The server answers as
-- `answer-generated` has it.
pub answer-stream_qwen :
    (id model : Text) (created : ℕ) (parse_json : Text → Option Json) (content_type : Text)
    (chunks : List Text) (x : Text × Text) (sent : List (Text × Text)) (s : ChatStates)
    (think text : Text)
    → includes (lit "text/event-stream") content_type ≡ true
    → concat chunks ≡ response_text (map (λ p. p.0) (x ∷ sent))
    → All (IsChunk id model created parse_json) (x ∷ sent)
    → parse_json (lit "[DONE]") ≡ none
    → EndsWithUser s.messages
    → includes (lit "gpt-oss") (to_lower_case model) ≡ false
    → includes (lit "qwen") (to_lower_case model) ≡ true
    → Lacks lt_sign think
    → Lacks lt_sign text
    → trim (concat (map (λ p. p.1) (x ∷ sent)))
      ≡ think_tag_open ++ (think ++ (think_tag_close ++ text))
    → (last : ChatStates) × (answer parse_json
          (response 200 (some content_type) true ∷ map chunk chunks ++ stream_end ∷ [])
          s
        ≡ ok last)
      × (stream last ≡ ((stream s).0 ++ answer_item (trim think) (trim text) ∷ [], false))
answer-stream_qwen id model created parse_json content_type chunks x sent s think text ct whole h e
      u n m t f g =
    answer-shown id model created parse_json content_type chunks x sent s (qwen_format model n m)
      (trim think) (trim text) ct whole h e u
      (record {
        t = think;
        c = text;
        no_tag = t;
        no_tag_after = f;
        written = g;
        is_think = refl;
        is_text = refl;
      })
