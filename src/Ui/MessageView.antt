-- ===== src/Ui/MessageView.antt =====
-- `ChatMessage` of components/inputs/chat-messages.tsx: what is shown of a message, and its buttons.
pub mod Laws
use toolkit_inference_mesh.Common.{
  Bool, true, false, ◌&&◌, ◌||◌, Option, some, none, List, [], ◌∷◌, ◌++◌, if◌then◌else◌,
}
use toolkit_inference_mesh.Js.Text.{Text, text_eq, is_empty}
use toolkit_inference_mesh.Chat.Messages.{ChatMessage, MessageStatus, user, assistant, thinking}

-- A text of the user, or a part of an answer.
pub data Part : Type 0 where
  user_text thinking_part content_part : Text → Part

abbrev pub is_done : MessageStatus → Bool
is_done MessageStatus.done = true
is_done _ = false

abbrev pub thinking_of : Option Text → List Part
thinking_of none = []
thinking_of (some []) = []
thinking_of (some (c ∷ s)) = thinking_part (c ∷ s) ∷ []

-- `nodeContent`
unfoldable pub parts : ChatMessage → List Part
unfolding text_eq
parts m =
    if text_eq m.role user
    then user_text m.content ∷ []
    else thinking_of m.thinking ++ (if is_empty m.content then [] else content_part m.content ∷ [])

unfoldable pub show_copy : ChatMessage → Bool
unfolding text_eq
show_copy m = text_eq m.role user || text_eq m.role assistant && is_done m.status

unfoldable pub show_regenerate : ChatMessage → Bool
unfolding text_eq
show_regenerate m = text_eq m.role assistant && is_done m.status
