-- ===== src/Ui/ChatInput.antt =====
-- `ChatInput` (components/inputs/chat-input.tsx): which of the chat's actions a key or a button calls.
pub mod Laws
use toolkit_inference_mesh.Common.{
  Bool, true, false, not, ◌&&◌, ◌||◌, Option, none, some, if◌then◌else◌,
}
use toolkit_inference_mesh.Cluster.Status.{ClusterStatus, is_available}
use toolkit_inference_mesh.Chat.Messages.{ChatStatus, closed, opened, Result, ok, ◌>>=◌, ChatStates}
use toolkit_inference_mesh.Chat.Actions.{is_busy, Env, Request, generate, stop, clear}

pub data Call : Type 0 where
  call_generate call_stop call_clear : Call

-- The Enter key generates, unless shift is held or an input method is composing.
unfoldable pub on_key_down : (is_enter shift_key composing : Bool) → Option Call
on_key_down is_enter shift_key composing =
    if is_enter && not shift_key && not composing then some call_generate else none

unfoldable pub on_click_main_button : ChatStatus → Option Call
on_click_main_button opened = some call_stop
on_click_main_button ChatStatus.generating = some call_stop
on_click_main_button closed = some call_generate
on_click_main_button ChatStatus.error = some call_generate

abbrev pub on_click_clear_button : Option Call
on_click_clear_button = some call_clear

abbrev pub is_opened : ChatStatus → Bool
is_opened opened = true
is_opened _ = false

-- The `disabled` of the two buttons.
unfoldable pub main_disabled : ClusterStatus → ChatStatus → Bool
main_disabled cluster_status status = not (is_available cluster_status) || is_opened status

unfoldable pub clear_disabled : ChatStatus → Bool
clear_disabled status = is_busy status

-- A click on a button that may be disabled.
unfoldable pub click_main : ClusterStatus → ChatStatus → Option Call
unfolding main_disabled on_click_main_button
click_main cluster_status status =
    if main_disabled cluster_status status then none else on_click_main_button status

unfoldable pub click_clear : ChatStatus → Option Call
unfolding clear_disabled
click_clear status = if clear_disabled status then none else on_click_clear_button

-- What a call makes of the chat, and the request that it sends.
unfoldable pub perform : Env → Option Call → ChatStates → Result (ChatStates × Option Request)
unfolding generate stop clear
perform env none s = ok (s, none)
perform env (some call_generate) s = ok (generate env none s)
perform env (some call_stop) s = do s' ← stop s; ok (s', none)
perform env (some call_clear) s = do s' ← clear s; ok (s', none)
