-- ===== src/Ui/ChatInput/Laws.antt =====
-- What the enabled buttons do to the chat.
use toolkit_inference_mesh.Common.{◌≡◌, true, false, none, [], ◌∷◌, ◌++◌, arith}
use toolkit_inference_mesh.Ui.ChatInput.{
  click_main, perform, click_clear, on_click_main_button, main_disabled, clear_disabled,
}
use toolkit_inference_mesh.Chat.Actions.{
  Env, is_busy, user_message, send, generate_new, generate, stop, clear,
}
use toolkit_inference_mesh.Chat.Messages.{ChatStates, ok}
use toolkit_inference_mesh.Cluster.Status.{is_available}
use toolkit_inference_mesh.Js.Text.{is_empty, trim}

-- When the cluster is available and a model is chosen, and no answer is on its way, a click on the
-- main button with a text in the input sends the conversation with the trimmed text as a new
-- message of the user at its end, and empties the input.
pub click_main-sends :
    (env : Env) (s : ChatStates)
    → is_busy s.status ≡ false
    → is_available env.cluster_status ≡ true
    → is_empty env.model_name ≡ false
    → is_empty (trim s.input) ≡ false
    → perform env (click_main env.cluster_status s.status) s
      ≡ ok (send env (s.messages ++ user_message env (trim s.input) ∷ []) (record s { input = [] }))
unfolding perform click_main on_click_main_button main_disabled generate generate_new
click_main-sends env s b a m t = ground arith

-- When no answer is on its way, a click on the clear button empties the conversation, sends
-- nothing, and does not fail.
pub click_clear-empties :
    (env : Env) (s : ChatStates)
    → is_busy s.status ≡ false
    → perform env (click_clear s.status) s ≡ ok (record s { messages = [] }, none)
unfolding perform click_clear clear_disabled clear stop
click_clear-empties env s b = ground arith
