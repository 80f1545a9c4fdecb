-- ===== src/Tests/Ui.antt =====
-- The components of the user interface.
use toolkit_inference_mesh.Ui.Pages.Setup
use toolkit_inference_mesh.Ui.Pages.Setup.Laws.{IsSingle, run-IsSingle}
use toolkit_inference_mesh.Cluster.Status
use toolkit_inference_mesh.Common.{
  ◌≡◌, refl, [], ◌∷◌, some, none, false, ◌≤◌, arith, ◌-◌, ◌+◌, ◌⊎◌, true, List,
}
use toolkit_inference_mesh.Js.Text.{lit, Text}
use toolkit_inference_mesh.Ui.Dialog.{
  run, mounted, open_dialog, click, promise, dismiss, submit, throws, pipe_handlers, dispatch, step,
}
use toolkit_inference_mesh.Ui.Dialog.Laws.{run-locked}
use toolkit_inference_mesh.Ui.NodeList.{node_list, menu, dash, node}
use toolkit_inference_mesh.Ui.NodeList.Laws.{node_list-layout}
use toolkit_inference_mesh.Ui.NumberInput.{
  edits, Edit, safe_bound, on_plus, on_minus, type_text, minus, plus, Parsed, nan, positive,
}
use toolkit_inference_mesh.Ui.NumberInput.Laws.{edits-bounds}
use toolkit_inference_mesh.Cluster.Nodes.{NodeInfo}
use toolkit_inference_mesh.Cluster.Status.{ClusterStatus, NodeStatus, cluster_host, local_network}
use toolkit_inference_mesh.Ui.Drawer.Laws.{IsQuiet, run-IsQuiet}
use toolkit_inference_mesh.Chat.Messages.{ChatStates, closed, MessageStatus, ChatMessage, assistant}
use toolkit_inference_mesh.Ui.Drawer.{Dialogs, status_changed, second_passed}
use toolkit_inference_mesh.Ui.Scroll.{Scroll, Event, messages_changed, scroll, animation_frame}
use toolkit_inference_mesh.Chat.Actions.{Env, user_message}
use toolkit_inference_mesh.Ui.Scroll.Laws.{run-stays_up, calls}
use toolkit_inference_mesh.Ui.ModelSelect.{Select}
use toolkit_inference_mesh.Cluster.Config.{ClusterConfig}

run-locked_example :
    run (run mounted (open_dialog ∷ click promise ∷ [])).0 (dismiss ∷ click throws ∷ submit ∷ [])
    ≡ ((run mounted (open_dialog ∷ click promise ∷ [])).0, false ∷ false ∷ false ∷ [])
unfolding run step dispatch pipe_handlers
run-locked_example =
    run-locked (open_dialog ∷ click promise ∷ []) (dismiss ∷ click throws ∷ submit ∷ []) refl
      (refl, (refl, (refl, tt)))

abbrev test_node : NodeInfo
test_node = record {
  id = lit "n1";
  status = NodeStatus.available;
  gpu_number = 2;
  gpu_name = lit "A100";
  gpu_memory = 80;
}

node_list-layout_example :
    node_list menu false ClusterStatus.waiting 2 (test_node ∷ [])
    ≡ node (some test_node) ∷ dash false ∷ node none ∷ []
node_list-layout_example = node_list-layout menu false ClusterStatus.waiting 2 (test_node ∷ [])

abbrev parse_digits : Text → Parsed
parse_digits [] = nan
parse_digits (c ∷ s) = positive (c - 48)

abbrev typed : List Edit
typed = type_text (lit "0") ∷ minus ∷ plus ∷ []

edits-bounds_example :
    (1 ≤ edits parse_digits typed 4)
    × (((edits parse_digits (plus ∷ []) (edits parse_digits typed 4)
            ≡ edits parse_digits typed 4 + 1)
          × (edits parse_digits (plus ∷ minus ∷ []) (edits parse_digits typed 4)
              ≡ edits parse_digits typed 4))
        ⊎ (safe_bound ≤ edits parse_digits typed 4))
edits-bounds_example = edits-bounds parse_digits typed 4 (omega arith)

-- From 2 ^ 53 on, plus and minus need not lead back.
test_past_the_safe_numbers :
    (on_plus safe_bound ≡ safe_bound) × (on_minus safe_bound ≡ 9_007_199_254_740_991)
unfolding on_plus on_minus
test_past_the_safe_numbers = (refl, refl)

abbrev still : Scroll
still = record {
  is_bottom = false;
  user_scrolled_up = true;
  auto_scrolling = false;
  prev_scroll_top = 40;
  frames = 1;
}

abbrev new_answer : List Event
new_answer = messages_changed ∷ scroll 20 900 400 ∷ animation_frame ∷ messages_changed ∷ []

run-stays_up_example :
    ((toolkit_inference_mesh.Ui.Scroll.run still new_answer).0.user_scrolled_up ≡ true)
    × (calls (toolkit_inference_mesh.Ui.Scroll.run still new_answer).1
          + (toolkit_inference_mesh.Ui.Scroll.run still new_answer).0.frames
        ≡ 1)
    × ((toolkit_inference_mesh.Ui.Scroll.step animation_frame still).1 ≡ 1)
    × (calls
          (toolkit_inference_mesh.Ui.Scroll.run
            (toolkit_inference_mesh.Ui.Scroll.step animation_frame still).0
            new_answer).1
        ≡ 0)
run-stays_up_example = run-stays_up still new_answer refl (refl, (refl, (refl, (refl, tt))))

abbrev idle_dialogs : Dialogs
idle_dialogs = record {
  waiting_open = false;
  rebalancing_open = false;
  need_more_nodes_open = false;
  failed_open = false;
  timer = true;
}

run-IsQuiet_example : IsQuiet (
    toolkit_inference_mesh.Ui.Drawer.run cluster_host
      (status_changed ClusterStatus.available ∷ second_passed ∷ [])
      idle_dialogs)
run-IsQuiet_example =
    run-IsQuiet cluster_host ClusterStatus.available (second_passed ∷ []) idle_dialogs refl refl
      (refl, tt)

abbrev test_env : Env
test_env = record {
  cluster_status = ClusterStatus.available;
  model_name = lit "qwen3";
  now = 5;
  now_text = lit "5";
}

abbrev typed_states : ChatStates
typed_states = record { input = lit " hi "; status = closed; messages = [] }

abbrev test_config : ClusterConfig
test_config = record {
  network_type = local_network;
  init_nodes_number = 2;
  model_name = lit "qwen3";
}

abbrev answer : ChatMessage
answer = record {
  id = some (lit "7");
  role = assistant;
  status = MessageStatus.done;
  content = lit "b";
  raw = some (lit "b");
  thinking = none;
  created_at = some 7;
}

abbrev answered : ChatStates
answered = record {
  input = [];
  status = closed;
  messages = user_message test_env (lit "hi") ∷ answer ∷ [];
}

abbrev unset : Select
unset = record { config_model_name = []; can_auto_commit = false }

abbrev commands : List (Text × Text)
commands = (lit "linux", lit "parallax join") ∷ []

run-IsSingle_example :
    IsSingle
      (Setup.run Setup.mounted (
        Setup.clicked Status.idle test_config
        ∷ Setup.clicked Status.idle test_config
        ∷ [])).0.loading
      (Setup.run Setup.mounted (
        Setup.clicked Status.idle test_config ∷ Setup.clicked Status.idle test_config ∷ [])).0.waits
run-IsSingle_example =
    run-IsSingle
      (Setup.clicked Status.idle test_config ∷ Setup.clicked Status.idle test_config ∷ [])
