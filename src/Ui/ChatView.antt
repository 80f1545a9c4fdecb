-- ===== src/Ui/ChatView.antt =====
-- `ChatMessages` of components/inputs/chat-messages.tsx: the stream of messages that it shows, with
-- the mark of a message that was copied.
pub mod Laws
pub mod Copies
pub mod Conversation
use toolkit_inference_mesh.Common.{Bool, true, false, List, [], ◌∷◌, map}
use toolkit_inference_mesh.Chat.Messages.{ChatMessage, ChatStates}
use toolkit_inference_mesh.Ui.ChatInput.{is_opened}
use toolkit_inference_mesh.Ui.MessageView.{Part, parts, show_copy, show_regenerate}

-- A message with its buttons.
pub record Item : Type 0 where
  pub parts : List Part
  pub copy : Bool
  pub regenerate : Bool

unfoldable pub item : ChatMessage → Item
unfolding parts show_copy show_regenerate
item m = record { parts = parts m; copy = show_copy m; regenerate = show_regenerate m }

-- `nodeStream`: the messages, and whether the pulse is shown below them.
unfoldable pub stream : ChatStates → List Item × Bool
unfolding item
stream s = (map item s.messages, is_opened s.status)

-- The state `copied` of a message, and whether the timer of its effect runs.
pub record Copy : Type 0 where
  pub copied : Bool
  pub timer : Bool

pub data CopyEvent : Type 0 where
  copy_clicked timeout : CopyEvent

-- The first rendering: its effect sets a timer.
abbrev pub mounted : Copy
mounted = record { copied = false; timer = true }

-- `setCopied`: the effect sets a new timer where the state has changed.
abbrev pub set_from : Bool → Bool → Copy → Copy
set_from true true c = c
set_from false false c = c
set_from true false c = record { copied = true; timer = true }
set_from false true c = record { copied = false; timer = true }

abbrev pub set_copied : Bool → Copy → Copy
set_copied b c = set_from b c.copied c

abbrev pub on_timeout : Bool → Copy → Copy
on_timeout true c = set_copied false (record c { timer = false })
on_timeout false c = c

unfoldable pub copy_step : Copy → CopyEvent → Copy
copy_step c copy_clicked = set_copied true c
copy_step c timeout = on_timeout c.timer c

unfoldable pub copy_run : Copy → List CopyEvent → Copy
unfolding copy_step
copy_run c [] = c
copy_run c (e ∷ es) = copy_run (copy_step c e) es
