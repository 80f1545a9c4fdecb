-- ===== src/Chat/Session/Chunks.antt =====
-- The event of a delta, and what `onMessage` makes of it.
use toolkit_inference_mesh.Common.{ℕ, ◌≡◌, refl, [], ◌∷◌, some}
use toolkit_inference_mesh.Js.Text.{Text, lit, text_eq}
use toolkit_inference_mesh.Js.Json.{
  Json, str, num, null, obj, arr, field, end, cons, nil, get, truthy,
}
use toolkit_inference_mesh.Stream.Walk.{walk}
use toolkit_inference_mesh.Chat.Messages
use toolkit_inference_mesh.Chat.Messages.{
  ChatStates, ok, ChunkInfo, add_delta, reparse_last, assistant, delta_fields, ChatStatus,
}
use toolkit_inference_mesh.Chat.Messages.Deltas.{IsText}

-- The event of a delta, in the shape that the source's comment gives.
module _ (id model : Text) (created : ℕ) where
  abbrev pub chunk_choice : Text → Json
  chunk_choice d = obj (
      field (lit "index") (num 0) (
        field (lit "logprobs") null (
          field (lit "finish_reason") null (
            field (lit "matched_stop") null (
              field (lit "delta")
                (obj (field (lit "role") null (field (lit "content") (str d) end))) end)))))

  abbrev pub chunk_json : Text → Json
  chunk_json d = obj (
      field (lit "id") (str id) (
        field (lit "object") (str (lit "chat.completion.chunk")) (
          field (lit "model") (str model) (
            field (lit "created") (num created) (
              field (lit "choices") (arr (cons (chunk_choice d) nil))
                (field (lit "usage") null end))))))

  abbrev pub chunk_info : ChunkInfo
  chunk_info = record { id = some id; created = some created }

  pub on_message-chunk :
      (d : Text) (s : ChatStates)
      → IsText d
      → Messages.on_message (walk (chunk_json d)) s
        ≡ ok (record s {
          status = ChatStatus.generating;
          messages = reparse_last model (add_delta chunk_info assistant d s.messages);
        })
  unfolding Messages.on_message Messages.update_messages walk get delta_fields text_eq truthy
  on_message-chunk [] s h = cc
  on_message-chunk (c ∷ d) s h = refl
