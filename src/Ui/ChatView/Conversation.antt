-- ===== src/Ui/ChatView/Conversation.antt =====
-- A conversation: the user types a question and clicks on the main button of the input
-- (components/inputs/chat-input.tsx), the request is answered or fails (services/chat.tsx), and so on.
pub mod Laws
use toolkit_inference_mesh.Stream.Sse.Connection.{rejected, other_error}
use toolkit_inference_mesh.Chat.Messages
use toolkit_inference_mesh.Common.{
  ◌==◌, ℕ, ◌≡◌, true, false, Option, none, some, List, [], ◌∷◌, ◌++◌, map, All, concat, Bool,
}
use toolkit_inference_mesh.Js.Text.{Text, lit, trim, includes, is_empty}
use toolkit_inference_mesh.Js.Json.{Json}
use toolkit_inference_mesh.Stream.Sse.Connection.{NetEvent, response, chunk, stream_end}
use toolkit_inference_mesh.Cluster.Status.{is_available}
use toolkit_inference_mesh.Chat.Messages.{
  ChatStates, Result, ok, ◌>>=◌, done, ChatMessage, closed, ChatStatus,
}
use toolkit_inference_mesh.Chat.Actions.{Env, Request, user_message, to_request}
use toolkit_inference_mesh.Chat.Session.{answer}
use toolkit_inference_mesh.Chat.Session.Lines.{response_text}
use toolkit_inference_mesh.Chat.Session.Laws.{IsChunk}
use toolkit_inference_mesh.Ui.ChatInput.{click_main, perform}
use toolkit_inference_mesh.Chat.Messages.Deltas.{generated}
use toolkit_inference_mesh.Chat.Session.Chunks.{chunk_info}

-- An answer: its events, each a JSON text with the delta that it stands for, and the chunks in which
-- they come.
pub record Answer : Type 0 where
  pub id : Text
  pub model : Text
  pub created : ℕ
  pub content_type : Text
  pub chunks : List Text
  pub first : Text × Text
  pub more : List (Text × Text)

-- What comes back from the server: an answer, a response with a status that is not 200, or nothing,
-- where the fetch is rejected.
pub data Reply : Type 0 where
  answers : Answer → Reply
  refuses : (status : ℕ) (content_type : Option Text) (has_body : Bool) → Reply
  unreachable : Reply

pub record Exchange : Type 0 where
  pub env : Env
  pub question : Text
  pub parse_json : Text → Option Json
  pub reply : Reply

-- The server sends the deltas, at least one, each in an event, however they are cut into chunks.
pub record IsAnswer (parse_json : Text → Option Json) (a : Answer) : Type 0 where
  pub event_stream : includes (lit "text/event-stream") a.content_type ≡ true
  pub whole : concat a.chunks ≡ response_text (map (λ p. p.0) (a.first ∷ a.more))
  pub deltas : All (IsChunk a.id a.model a.created parse_json) (a.first ∷ a.more)
  pub ends : parse_json (lit "[DONE]") ≡ none

abbrev pub IsReply : (Text → Option Json) → Reply → Type 0
IsReply parse_json (answers a) = IsAnswer parse_json a
IsReply parse_json (refuses status content_type has_body) = (status == 200) ≡ false
IsReply parse_json unreachable = Unit

-- The cluster is available and has a model, and the question is more than white space.
pub record IsExchange (e : Exchange) : Type 0 where
  pub ready : is_available e.env.cluster_status ≡ true
  pub named : is_empty e.env.model_name ≡ false
  pub asked : is_empty (trim e.question) ≡ false
  pub replied : IsReply e.parse_json e.reply

abbrev network : Reply → List NetEvent
network (answers a) =
    response 200 (some a.content_type) true ∷ map chunk a.chunks ++ stream_end ∷ []
network (refuses status content_type has_body) = response status content_type has_body ∷ []
network unreachable = rejected other_error ∷ []

-- What follows what the click has sent, if anything.
abbrev after_click : Exchange → ChatStates × Option Request → Result (ChatStates × List Request)
after_click e (s, none) = ok (s, [])
after_click e (s, some r) = do s' ← answer e.parse_json (network e.reply) s; ok (s', r ∷ [])

-- The user types, and clicks.
unfoldable pub exchange : Exchange → ChatStates → Result (ChatStates × List Request)
unfolding answer
exchange e s = do
  sent ← perform e.env (click_main e.env.cluster_status s.status) (record s { input = e.question })
  after_click e sent

-- The exchanges one after the other, with the requests that are sent.
unfoldable pub converse : List Exchange → ChatStates → Result (ChatStates × List Request)
unfolding exchange
converse [] s = ok (s, [])
converse (e ∷ es) s = do
  first ← exchange e s
  rest ← converse es first.0
  ok (rest.0, first.1 ++ rest.1)

-- What an exchange leaves: the message of the assistant, if there is an answer, and the status.
abbrev pub reply_messages : Reply → List ChatMessage
reply_messages (answers a) =
    record (generated (chunk_info a.id a.model a.created) a.model
      (concat (map (λ p. p.1) (a.first ∷ a.more)))) { status = done }
    ∷ []
reply_messages _ = []

abbrev pub status_after : Reply → ChatStatus
status_after (answers a) = closed
status_after _ = ChatStatus.error

abbrev pub messages_of : Exchange → List ChatMessage
messages_of e = user_message e.env (trim e.question) ∷ reply_messages e.reply

abbrev pub all_messages : List Exchange → List ChatMessage
all_messages [] = []
all_messages (e ∷ es) = messages_of e ++ all_messages es

abbrev pub last_status : List Exchange → ChatStatus → ChatStatus
last_status [] status = status
last_status (e ∷ es) status = last_status es (status_after e.reply)

-- The request of an exchange after some messages.
abbrev pub request_of : List ChatMessage → Exchange → Request
request_of ms e = record {
  model = e.env.model_name;
  messages = map to_request (ms ++ user_message e.env (trim e.question) ∷ []);
}

abbrev pub all_requests : List ChatMessage → List Exchange → List Request
all_requests ms [] = []
all_requests ms (e ∷ es) = request_of ms e ∷ all_requests (ms ++ messages_of e) es

-- The chat between two exchanges.
abbrev pub rests : ChatStatus → List ChatMessage → ChatStates
rests status ms = record { input = []; status = status; messages = ms }
