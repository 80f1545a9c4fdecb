-- ===== src/Chat/Session.antt =====
-- One answer from end to end: the callbacks that `createSSE` calls, run by the handlers that
-- `ChatProvider` gives it (services/chat.tsx).
pub mod Lines
pub mod Chunks
pub mod Laws
pub mod Stopped
pub mod Accepts
use toolkit_inference_mesh.Common.{Bool, true, false, Option, List, [], ◌∷◌}
use toolkit_inference_mesh.Js.Text.{Text}
use toolkit_inference_mesh.Js.Json.{Json, or_undef}
use toolkit_inference_mesh.Stream.Sse.Lines.{Message}
use toolkit_inference_mesh.Chat.Actions.Invariant.{start}
use toolkit_inference_mesh.Stream.Sse.Connection.{Callback, NetEvent, session}
use toolkit_inference_mesh.Chat.Messages
use toolkit_inference_mesh.Chat.Messages.{Result, ok, throws, ◌>>=◌, ChatStates}

-- `message.data`
abbrev pub payload_of : Message → Json
payload_of m = or_undef m.payload

-- The handler of a callback.
unfoldable pub apply_callback : Callback → ChatStates → Result ChatStates
apply_callback Callback.on_open s = ok (Messages.on_open s)
apply_callback Callback.on_close s = Messages.on_close s
apply_callback Callback.on_error s = Messages.on_error s
apply_callback (Callback.on_message m) s = Messages.on_message (payload_of m) s

unfoldable pub apply_callbacks : List Callback → ChatStates → Result ChatStates
unfolding apply_callback
apply_callbacks [] s = ok s
apply_callbacks (c ∷ cs) s = do s' ← apply_callback c s; apply_callbacks cs s'

abbrev pub is_ok {ℓ} : {A : Type ℓ} → Result A → Bool
is_ok (ok a) = true
is_ok throws = false

-- Whether `onMessage` returns, in the first state of the chat. (Child Accepts is about the other
-- states.)
unfoldable pub accepts : Message → Bool
accepts m = is_ok (Messages.on_message (payload_of m) start)

-- The whole answer, over what the network does.
unfoldable pub answer : (Text → Option Json) → List NetEvent → ChatStates → Result ChatStates
unfolding apply_callbacks accepts
answer parse_json events s = apply_callbacks (session parse_json accepts events).1 s
