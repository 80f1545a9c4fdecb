-- ===== src/Ui/ChatView/Conversation/Laws.antt =====
-- What a conversation leaves.
use toolkit_inference_mesh.Stream.Sse.Connection.{
  connect, on_response, session, run, step, dispatch,
}
use toolkit_inference_mesh.Chat.Session.Laws.{finish_last-snoc}
use toolkit_inference_mesh.Chat.Messages
use toolkit_inference_mesh.Chat.Session.{apply_callbacks, apply_callback}
use toolkit_inference_mesh.Common.{
  list_laws, ◌≡◌, false, Option, List, [], ◌∷◌, ◌++◌, All, refl, append_assoc, ◌∙◌,
}
use toolkit_inference_mesh.Js.Text.{Text, trim, text_eq}
use toolkit_inference_mesh.Js.Json.{Json}
use toolkit_inference_mesh.Chat.Messages.{ok, ChatMessage, assistant, closed, ChatStatus, opened}
use toolkit_inference_mesh.Chat.Actions.{send, Env, user_message, is_busy}
use toolkit_inference_mesh.Chat.Session.{answer}
use toolkit_inference_mesh.Chat.Session.Laws.{answer-generated}
use toolkit_inference_mesh.Chat.Messages.Deltas.{EndsWithUser}
use toolkit_inference_mesh.Ui.ChatInput.Laws.{click_main-sends}
use toolkit_inference_mesh.Ui.ChatView.Conversation.{
  Reply, answers, refuses, unreachable, Exchange, IsReply, IsExchange, network, exchange, converse,
  reply_messages, status_after, messages_of, all_messages, last_status, request_of, all_requests,
  rests,
}

EndsWithUser-append :
    (ms : List ChatMessage) (m : ChatMessage)
    → text_eq m.role assistant ≡ false
    → EndsWithUser (ms ++ m ∷ [])
EndsWithUser-append [] m h = h
EndsWithUser-append (n ∷ []) m h = h
EndsWithUser-append (n ∷ k ∷ ms) m h = EndsWithUser-append (k ∷ ms) m h

-- A question that is not answered stays as the last message.
fails :
    (env : Env) (question : Text) (ms : List ChatMessage) (status : ChatStatus)
    → Messages.on_error (rests status (ms ++ user_message env question ∷ []))
      ≡ ok (rests ChatStatus.error (ms ++ user_message env question ∷ []))
unfolding Messages.on_error
fails env question ms status =
    rw (finish_last-snoc (user_message env question) ms) (unfold user_message in refl)

answer-reply :
    (env : Env) (question : Text) (parse_json : Text → Option Json) (reply : Reply)
    (status : ChatStatus) (ms : List ChatMessage)
    → IsReply parse_json reply
    → answer parse_json (network reply) (rests status (ms ++ user_message env question ∷ []))
      ≡ ok (rests (status_after reply) (ms ++ (user_message env question ∷ reply_messages reply)))
answer-reply env question parse_json (answers a) status ms h =
    answer-generated a.id a.model a.created parse_json a.content_type a.chunks a.first a.more
      (rests status (ms ++ user_message env question ∷ [])) h.event_stream h.whole h.deltas h.ends
      (EndsWithUser-append ms (user_message env question) (unfold user_message text_eq in refl))
    ∙ (λ i. ok (
        rests closed
          (append_assoc ms (user_message env question ∷ []) (reply_messages (answers a)) i)))
answer-reply env question parse_json (refuses code content_type has_body) status ms h =
    unfold answer session run step dispatch on_response connect apply_callbacks apply_callback
      Messages.on_open in
    rw h (rw (fails env question ms opened) refl)
answer-reply env question parse_json unreachable status ms h =
    unfold answer session run step dispatch connect apply_callbacks apply_callback
      Messages.on_open in
    rw (fails env question ms opened) refl

exchange-rests :
    (e : Exchange) (status : ChatStatus) (ms : List ChatMessage)
    → is_busy status ≡ false
    → IsExchange e
    → exchange e (rests status ms)
      ≡ ok (rests (status_after e.reply) (ms ++ messages_of e), request_of ms e ∷ [])
unfolding exchange send
exchange-rests e status ms b h =
    rw
      (click_main-sends e.env (record (rests status ms) { input = e.question }) b h.ready h.named
        h.asked)
      (rw (answer-reply e.env (trim e.question) e.parse_json e.reply status ms h.replied) refl)

status_after-rests : (reply : Reply) → is_busy (status_after reply) ≡ false
status_after-rests (answers a) = refl
status_after-rests (refuses code content_type has_body) = refl
status_after-rests unreachable = refl

-- A whole conversation: from a chat in which no answer is on its way, the user asks questions one
-- after the other, each by typing it and a click on the main button; each is answered, refused with
-- a status that is not 200, or fails without a response. Then the messages are those of before and,
-- for each exchange in order, the trimmed question and, if it was answered, one message of the
-- assistant, which is done and is what the whole text of its deltas stands for; the chat is closed
-- or has an error, as the last exchange has ended; and each request carried all the messages up to
-- its question. In each exchange the cluster is available and has a model, the question is more than
-- white space, and an answer is as `answer-generated` has it.
pub converse-rests :
    (es : List Exchange) (status : ChatStatus) (ms : List ChatMessage)
    → is_busy status ≡ false
    → All IsExchange es
    → converse es (rests status ms)
      ≡ ok (rests (last_status es status) (ms ++ all_messages es), all_requests ms es)
unfolding converse
converse-rests [] status ms b h = simp list_laws
converse-rests (e ∷ es) status ms b (h, hs) =
    let rest =
      converse-rests es (status_after e.reply) (ms ++ messages_of e) (status_after-rests e.reply)
        hs in
    rw (exchange-rests e status ms b h) (rw rest (simp list_laws))
