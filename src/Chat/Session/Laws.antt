-- ===== src/Chat/Session/Laws.antt =====
-- What a whole answer makes of the chat.
use toolkit_inference_mesh.Common.{
  list_laws, map-map, ℕ, ◌≡◌, refl, [], ◌∷◌, some, All, concat, sym, ap, ◌∙◌, Option, List, ◌++◌,
  map, append_assoc, append-nil, true, none, subst,
}
use toolkit_inference_mesh.Js.Text.{Text, lit, text_eq, includes}
use toolkit_inference_mesh.Js.Json.{Json, get}
use toolkit_inference_mesh.Stream.Walk.{walk}
use toolkit_inference_mesh.Stream.Sse.Connection.{chunk, Callback, response, stream_end}
use toolkit_inference_mesh.Chat.Messages
use toolkit_inference_mesh.Chat.Messages.{
  ChatStates, ok, add_delta, reparse_last, assistant, ChatStatus, ChatMessage, done, finish_last,
  closed,
}
use toolkit_inference_mesh.Chat.Messages.Deltas.{
  IsText, EndsWithUser, add_delta_new, generated, add_delta_more, reparse_new,
}
use toolkit_inference_mesh.Stream.Sse.Lines.{Message, event_value, process_chunks}
use toolkit_inference_mesh.Chat.Session.Chunks.{chunk_info, chunk_json, on_message-chunk}
use toolkit_inference_mesh.Chat.Session.Lines.{
  IsValue, data_message, response_text, complete_lines-response, line_messages-response,
}
use toolkit_inference_mesh.Chat.Session.{apply_callbacks, apply_callback, accepts, answer}
use toolkit_inference_mesh.Chat.Actions.Invariant.{start}
use toolkit_inference_mesh.Stream.Sse.Connection.Laws.{session_complete}
use toolkit_inference_mesh.Stream.Frames.Laws.{complete_lines}
use toolkit_inference_mesh.Stream.Sse.Lines.Laws.{
  process_chunks-plain, HasPlainLines, line_messages,
}

pub finish_last-snoc :
    (m : ChatMessage) (ms : List ChatMessage)
    → finish_last (ms ++ m ∷ []) ≡ ok (ms ++ record m { status = done } ∷ [])
unfolding finish_last
finish_last-snoc m [] = refl
finish_last-snoc m (n ∷ []) = refl
finish_last-snoc m (n ∷ k ∷ ms) = rw (finish_last-snoc m (k ∷ ms)) refl

module _ (id model : Text) (created : ℕ) (parse_json : Text → Option Json) where
  -- The text of an event, and the delta that it stands for.
  pub record IsChunk (sent : Text × Text) : Type 0 where
    pub value : IsValue sent.0
    pub parses : parse_json sent.0 ≡ some (chunk_json id model created sent.1)
    pub text : IsText sent.1

  abbrev pub message_of : Text × Text → Message
  message_of sent = data_message parse_json sent.0

  -- The chat after the answer.
  abbrev pub answered : ChatStates → Text × Text → List (Text × Text) → ChatStates
  answered s x sent = record s {
    status = closed;
    messages =
        s.messages
        ++ record (generated (chunk_info id model created) model
            (concat (map (λ p. p.1) (x ∷ sent)))) { status = done }
          ∷ [];
  }

  event_value-chunk :
      (sent : Text × Text)
      → IsChunk sent
      → event_value parse_json sent.0 ≡ walk (chunk_json id model created sent.1)
  unfolding event_value
  event_value-chunk sent h = rw (h.parses, event_value) refl

  apply_callback-chunk :
      (sent : Text × Text) (s : ChatStates)
      → IsChunk sent
      → apply_callback (Callback.on_message (message_of sent)) s
        ≡ ok (record s {
          status = ChatStatus.generating;
          messages =
              reparse_last model
                (add_delta (chunk_info id model created) assistant sent.1 s.messages);
        })
  unfolding apply_callback
  apply_callback-chunk sent s h =
      rw (event_value-chunk sent h) (on_message-chunk id model created sent.1 s h.text)

  -- The chat while the answer grows.
  abbrev growing : List ChatMessage → Text → ChatStates → ChatStates
  growing ms raw s = record s {
    status = ChatStatus.generating;
    messages = ms ++ generated (chunk_info id model created) model raw ∷ [];
  }

  apply_callbacks-more :
      (sent : List (Text × Text)) (ms : List ChatMessage) (raw : Text) (s : ChatStates)
      (rest : List Callback)
      → All IsChunk sent
      → apply_callbacks (map Callback.on_message (map message_of sent) ++ rest) (growing ms raw s)
        ≡ apply_callbacks rest (growing ms (raw ++ concat (map (λ p. p.1) sent)) s)
  unfolding apply_callbacks
  apply_callbacks-more [] ms raw s rest h =
      ap (λ t. apply_callbacks rest (growing ms t s)) (sym (append-nil raw))
  apply_callbacks-more (x ∷ sent) ms raw s rest (h, hs) =
      rw (apply_callback-chunk x (growing ms raw s) h) (
        rw (add_delta_more (chunk_info id model created) model raw x.1 ms) (
          apply_callbacks-more sent ms (raw ++ x.1) s rest hs
          ∙ ap (λ t. apply_callbacks rest (growing ms t s))
              (append_assoc raw x.1 (concat (map (λ p. p.1) sent)))))

  apply_callbacks-first :
      (x : Text × Text) (sent : List (Text × Text)) (s : ChatStates) (rest : List Callback)
      → EndsWithUser s.messages
      → All IsChunk (x ∷ sent)
      → apply_callbacks (map Callback.on_message (map message_of (x ∷ sent)) ++ rest) s
        ≡ apply_callbacks rest (growing s.messages (concat (map (λ p. p.1) (x ∷ sent))) s)
  unfolding apply_callbacks
  apply_callbacks-first x sent s rest e (h, hs) = rw (apply_callback-chunk x s h) (
      rw (add_delta_new (chunk_info id model created) x.1 s.messages e) (
        rw (reparse_new (chunk_info id model created) model x.1 s.messages)
          (apply_callbacks-more sent s.messages x.1 s rest hs)))

  -- The closing event is no JSON, and is handed on as a text that changes nothing.
  on_message-done :
      (s : ChatStates)
      → parse_json (lit "[DONE]") ≡ none
      → Messages.on_message (event_value parse_json (lit "[DONE]")) s ≡ ok s
  unfolding Messages.on_message event_value get text_eq
  on_message-done s h = rw (h, event_value) refl

  accepts-messages :
      (sent : List (Text × Text))
      → All IsChunk sent
      → parse_json (lit "[DONE]") ≡ none
      → All
          (λ m. accepts m ≡ true)
          (map message_of sent ++ data_message parse_json (lit "[DONE]") ∷ [])
  unfolding accepts
  accepts-messages [] h e = (rw (on_message-done start e) refl, tt)
  accepts-messages (x ∷ sent) (h, hs) e = (
    rw (event_value-chunk x h) (rw (on_message-chunk id model created x.1 start h.text) refl),
    accepts-messages sent hs e,
  )

  IsChunk-values :
      (sent : List (Text × Text)) → All IsChunk sent → All IsValue (map (λ p. p.0) sent)
  IsChunk-values [] h = tt
  IsChunk-values (x ∷ sent) (h, hs) = (h.value, IsChunk-values sent hs)

  messages-response :
      (sent : List (Text × Text)) (chunks : List Text)
      → All IsChunk sent
      → concat chunks ≡ response_text (map (λ p. p.0) sent)
      → process_chunks parse_json [] chunks
        ≡ map message_of sent ++ data_message parse_json (lit "[DONE]") ∷ []
  messages-response sent chunks h e =
      let values = IsChunk-values sent h in
      let same = ap complete_lines e ∙ complete_lines-response (map (λ p. p.0) sent) values in
      let (plain, messages) = line_messages-response parse_json (map (λ p. p.0) sent) values in
      process_chunks-plain parse_json chunks (subst HasPlainLines (sym same) plain)
      ∙ ap (line_messages parse_json) same
      ∙ messages
      ∙ ap (λ ms. ms ++ data_message parse_json (lit "[DONE]") ∷ [])
          (map-map (data_message parse_json) (λ p. p.0) sent)

  apply_callbacks-end :
      (ms : List ChatMessage) (raw : Text) (s : ChatStates)
      → parse_json (lit "[DONE]") ≡ none
      → apply_callbacks
          (Callback.on_message (data_message parse_json (lit "[DONE]")) ∷ Callback.on_close ∷ [])
          (growing ms raw s)
        ≡ ok (record s {
          status = closed;
          messages =
              ms
              ++ record (generated (chunk_info id model created) model raw) { status = done } ∷ [];
        })
  unfolding apply_callbacks apply_callback Messages.on_close
  apply_callbacks-end ms raw s e =
      rw (on_message-done (growing ms raw s) e)
        (rw (finish_last-snoc (generated (chunk_info id model created) model raw) ms) refl)

  -- The calls of the handlers, once the chat is open.
  apply_callbacks-answer :
      (x : Text × Text) (sent : List (Text × Text)) (s : ChatStates)
      → All IsChunk (x ∷ sent)
      → parse_json (lit "[DONE]") ≡ none
      → EndsWithUser s.messages
      → apply_callbacks
          (map Callback.on_message
              (map message_of (x ∷ sent) ++ data_message parse_json (lit "[DONE]") ∷ [])
            ++ Callback.on_close ∷ [])
          s
        ≡ ok (answered s x sent)
  apply_callbacks-answer x sent s h e u =
      let last = data_message parse_json (lit "[DONE]") in
      ap (λ cbs. apply_callbacks cbs s) (simp list_laws)
      ∙ apply_callbacks-first x sent s _ u h
      ∙ apply_callbacks-end s.messages (concat (map (λ p. p.1) (x ∷ sent))) s e

  -- Where the server answers a request with the events of some deltas, at least one and none of
  -- them empty, and the closing event, each a JSON value on one line that `JSON.parse` reads as the
  -- chunk of its delta, then however the response is cut into chunks, the chat ends closed, with
  -- one more message than before: it is done, its raw text is all the deltas in order, and its
  -- thinking and content are those of this text as a whole. The messages before the answer do not
  -- end with one of the assistant.
  pub answer-generated :
      (content_type : Text) (chunks : List Text) (x : Text × Text) (sent : List (Text × Text))
      (s : ChatStates)
      → includes (lit "text/event-stream") content_type ≡ true
      → concat chunks ≡ response_text (map (λ p. p.0) (x ∷ sent))
      → All IsChunk (x ∷ sent)
      → parse_json (lit "[DONE]") ≡ none
      → EndsWithUser s.messages
      → answer parse_json
          (response 200 (some content_type) true ∷ map chunk chunks ++ stream_end ∷ [])
          s
        ≡ ok (answered s x sent)
  unfolding answer apply_callbacks apply_callback Messages.on_open
  answer-generated content_type chunks x sent s ct whole h e u =
      let last = data_message parse_json (lit "[DONE]") in
      let messages = messages-response (x ∷ sent) chunks h whole in
      ap (λ cbs. apply_callbacks cbs s)
        (session_complete parse_json accepts content_type chunks ct
            (subst (All (λ m. accepts m ≡ true)) (sym messages) (accepts-messages (x ∷ sent) h e))
          ∙ ap (λ ms. Callback.on_open ∷ map Callback.on_message ms ++ Callback.on_close ∷ [])
              messages)
      ∙ apply_callbacks-answer x sent (Messages.on_open s) h e u
