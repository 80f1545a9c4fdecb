-- ===== src/Chat/Messages/Deltas.antt =====
-- What the deltas of one answer make of the messages.
use toolkit_inference_mesh.Common.{
  refl, ◌≡◌, ◌∙◌, false, some, List, [], ◌∷◌, All, concat, ap, ◌++◌, append_assoc, append-nil,
}
use toolkit_inference_mesh.Js.Text.{Text, lit, is_empty, text_eq}
use toolkit_inference_mesh.Js.Json.{str, obj, Items, nil, cons, end, field, get}
use toolkit_inference_mesh.Chat.Messages.{
  ◌>>=◌, ChatMessage, Result, ok, assistant, delta_fields, ChunkInfo, add_delta, reparse_last,
  update_messages, new_message, with_generation, extend_message,
}

-- A chunk with one choice, whose delta is a text with no role.
abbrev pub delta_items : Text → Items
delta_items d = cons (obj (field (lit "delta") (obj (field (lit "content") (str d) end)) end)) nil

-- The chunks of one generation, one delta each.
unfoldable pub stream_deltas :
    ChunkInfo → Text → List Text → List ChatMessage → Result (List ChatMessage)
unfolding update_messages
stream_deltas info model [] ms = ok ms
stream_deltas info model (d ∷ ds) ms = do
  ms' ← update_messages info (some model) (delta_items d) ms
  stream_deltas info model ds ms'

abbrev pub IsText : Text → Type 0
IsText d = is_empty d ≡ false

update_messages-delta :
    (info : ChunkInfo) (model d : Text) (ms : List ChatMessage)
    → IsText d
    → update_messages info (some model) (delta_items d) ms
      ≡ ok (reparse_last model (add_delta info assistant d ms))
unfolding update_messages get delta_fields text_eq
update_messages-delta info model [] ms h = cc
update_messages-delta info model (c ∷ d) ms h = refl

-- The list does not end with a message of the assistant.
abbrev pub EndsWithUser : List ChatMessage → Type 0
EndsWithUser [] = Unit
EndsWithUser (m ∷ []) = text_eq m.role assistant ≡ false
EndsWithUser (m ∷ n ∷ ms) = EndsWithUser (n ∷ ms)

pub add_delta_new :
    (info : ChunkInfo) (d : Text) (ms : List ChatMessage)
    → EndsWithUser ms
    → add_delta info assistant d ms ≡ ms ++ new_message info assistant d ∷ []
unfolding add_delta
add_delta_new info d [] h = refl
add_delta_new info d (m ∷ []) h = rw h
add_delta_new info d (m ∷ n ∷ ms) h = ap (λ t. m ∷ t) (add_delta_new info d (n ∷ ms) h)

module _ (info : ChunkInfo) (model : Text) where
  -- The assistant's message after all of the text `raw` has come.
  unfoldable pub generated : Text → ChatMessage
  unfolding with_generation new_message
  generated raw = with_generation model (new_message info assistant raw)

  add_delta_last :
      (raw d : Text) (ms : List ChatMessage)
      → add_delta info assistant d (ms ++ generated raw ∷ [])
        ≡ ms ++ extend_message (generated raw) d ∷ []
  unfolding add_delta text_eq generated
  add_delta_last raw d [] = refl
  add_delta_last raw d (m ∷ []) = refl
  add_delta_last raw d (m ∷ n ∷ ms) = ap (λ t. m ∷ t) (add_delta_last raw d (n ∷ ms))

  reparse_last-snoc :
      (m : ChatMessage) (ms : List ChatMessage)
      → reparse_last model (ms ++ m ∷ []) ≡ ms ++ with_generation model m ∷ []
  unfolding reparse_last
  reparse_last-snoc m [] = refl
  reparse_last-snoc m (n ∷ []) = refl
  reparse_last-snoc m (n ∷ k ∷ ms) = ap (λ t. n ∷ t) (reparse_last-snoc m (k ∷ ms))

  pub add_delta_more :
      (raw d : Text) (ms : List ChatMessage)
      → reparse_last model (add_delta info assistant d (ms ++ generated raw ∷ []))
        ≡ ms ++ generated (raw ++ d) ∷ []
  unfolding generated extend_message
  add_delta_more raw d ms =
      ap (reparse_last model) (add_delta_last raw d ms)
      ∙ reparse_last-snoc (extend_message (generated raw) d) ms

  pub reparse_new :
      (d : Text) (ms : List ChatMessage)
      → reparse_last model (ms ++ new_message info assistant d ∷ []) ≡ ms ++ generated d ∷ []
  unfolding generated
  reparse_new d ms = reparse_last-snoc (new_message info assistant d) ms

  stream_more :
      (raw : Text) (ds : List Text) (ms : List ChatMessage)
      → All IsText ds
      → stream_deltas info model ds (ms ++ generated raw ∷ [])
        ≡ ok (ms ++ generated (raw ++ concat ds) ∷ [])
  unfolding stream_deltas
  stream_more raw [] ms h = rw (append-nil raw)
  stream_more raw (d ∷ ds) ms (h, hs) =
      rw (update_messages-delta info model d (ms ++ generated raw ∷ []) h) (
        rw (add_delta_more raw d ms) (
          stream_more (raw ++ d) ds ms hs
          ∙ ap (λ t. ok (ms ++ generated t ∷ [])) (append_assoc raw d (concat ds))))

  -- Streamed in any number of deltas, a generation is added to the messages as one message of the
  -- assistant, whose raw text is all the deltas in order, and whose thinking and content are those
  -- that parsing this text as a whole gives. The deltas are not empty, there is at least one, and
  -- the messages do not end with one of the assistant.
  pub stream_deltas-generated :
      (d : Text) (ds : List Text) (ms : List ChatMessage)
      → EndsWithUser ms
      → All IsText (d ∷ ds)
      → stream_deltas info model (d ∷ ds) ms ≡ ok (ms ++ generated (concat (d ∷ ds)) ∷ [])
  unfolding stream_deltas
  stream_deltas-generated d ds ms e (h, hs) =
      rw (update_messages-delta info model d ms h)
        (rw (add_delta_new info d ms e) (rw (reparse_new d ms) (stream_more d ds ms hs)))
