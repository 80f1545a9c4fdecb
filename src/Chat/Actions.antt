-- ===== src/Chat/Actions.antt =====
-- The user's actions of services/chat.tsx: `generate`, `stop` and `clear`.
pub mod Generate
pub mod Invariant
use mathlib.Core.Option
use toolkit_inference_mesh.Common.{
  if◌then◌else◌, ℕ, Bool, true, false, not, ◌||◌, Option, none, some, List, [], ◌∷◌, ◌++◌, map,
}
use toolkit_inference_mesh.Js.Text.{Text, text_eq, is_empty, trim}
use toolkit_inference_mesh.Chat.Messages.{
  ChatMessage, Result, ok, on_close, ◌>>=◌, done, user, ChatStatus, closed, opened, ChatStates,
}
use toolkit_inference_mesh.Cluster.Status.{is_available, ClusterStatus}

-- What `generate` reads besides the chat: the cluster's status and model, and `performance.now()`
-- with its text.
pub record Env : Type 0 where
  pub cluster_status : ClusterStatus
  pub model_name : Text
  pub now : ℕ
  pub now_text : Text

pub record RequestMessage : Type 0 where
  pub id : Option Text
  pub role : Text
  pub content : Text

-- The call of `sse.connect`.
pub record Request : Type 0 where
  pub model : Text
  pub messages : List RequestMessage

-- `status === 'opened' || status === 'generating'`
abbrev pub is_busy : ChatStatus → Bool
is_busy opened = true
is_busy ChatStatus.generating = true
is_busy closed = false
is_busy ChatStatus.error = false

unfoldable pub id_eq : Option Text → Option Text → Bool
unfolding text_eq
id_eq none none = true
id_eq (some a) (some b) = text_eq a b
id_eq _ _ = false

-- The messages up to the first with the given id: that one is kept if it is the user's. `none`
-- where there is no such message.
unfoldable pub cut_at : Option Text → List ChatMessage → Option (List ChatMessage)
unfolding id_eq text_eq
cut_at id [] = none
cut_at id (m ∷ ms) =
    let rest = Option.map (λ kept. m ∷ kept) (cut_at id ms) in
    if id_eq m.id id then some (if text_eq m.role user then m ∷ [] else []) else rest

-- The message that a new input makes.
unfoldable pub user_message : Env → Text → ChatMessage
user_message env text = record {
  id = some env.now_text;
  role = user;
  status = done;
  content = text;
  raw = none;
  thinking = none;
  created_at = some env.now;
}

abbrev pub to_request : ChatMessage → RequestMessage
to_request m = record { id = m.id; role = m.role; content = m.content }

-- `setMessages(nextMessages)` and `sse.connect`.
unfoldable pub send : Env → List ChatMessage → ChatStates → ChatStates × Option Request
send env next s = (
  record s { messages = next },
  some (record { model = env.model_name; messages = map to_request next }),
)

unfoldable pub generate_new : Env → ChatStates → ChatStates × Option Request
unfolding send user_message
generate_new env s =
    let text = trim s.input in
    if is_empty text
    then (s, none)
    else send env (s.messages ++ user_message env text ∷ []) (record s { input = [] })

unfoldable pub regenerate :
    Env → Option (List ChatMessage) → ChatStates → ChatStates × Option Request
unfolding send
regenerate env none s = (s, none)
regenerate env (some kept) s = send env kept s

-- `generate`, with the id of the message to regenerate, if it is called with one.
unfoldable pub generate : Env → Option (Option Text) → ChatStates → ChatStates × Option Request
unfolding generate_new regenerate cut_at
generate env message s =
    if not (is_available env.cluster_status) || is_busy s.status
    then (s, none)
    else if is_empty env.model_name
    then (s, none)
    else elim message [
      | none ↦ generate_new env s
      | some id ↦ regenerate env (cut_at id s.messages) s
    ]

-- `stop`: `disconnect` calls `onClose` at once.
unfoldable pub stop : ChatStates → Result ChatStates
unfolding on_close
stop s = if is_busy s.status then on_close s else ok s

-- `clear` tests the status that it was rendered with, which `stop` does not change.
unfoldable pub clear : ChatStates → Result ChatStates
unfolding stop
clear s = do s' ← stop s; ok (if is_busy s.status then s' else record s' { messages = [] })
