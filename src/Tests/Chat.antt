-- ===== src/Tests/Chat.antt =====
-- The chat: a conversation in which the user has asked something.
use toolkit_inference_mesh.Common.{arith, ◌≡◌, refl, [], ◌∷◌, some, none}
use toolkit_inference_mesh.Chat.Messages.{
  add_delta, ChunkInfo, ChatMessage, ChatStates, ok, done, user, update_messages, on_close,
  on_error,
}
use toolkit_inference_mesh.Chat.Messages.Laws.{update_messages-Extends, Extends}
use toolkit_inference_mesh.Chat.Messages.Deltas.{generated, delta_items}
use toolkit_inference_mesh.Chat.Actions.{Env, send, generate_new, generate, stop}
use toolkit_inference_mesh.Chat.Actions.Invariant.{
  Inv, Reach, start, submit, Reach-Inv, Reach-ends, here, next, typed, submitted,
}
use toolkit_inference_mesh.Chat.Helper.Qwen.{parse_generation_qwen, think_tag_open}
use toolkit_inference_mesh.Chat.Helper.Qwen.Closed.{parse_generation_qwen-closed}
use toolkit_inference_mesh.Chat.Helper.Qwen.Laws.{parse_generation_qwen_total}
use toolkit_inference_mesh.Js.Text.{lit, trim, Text, text_eq, index_of}
use toolkit_inference_mesh.Cluster.Status.{available}

abbrev test_env : Env
test_env = record {
  cluster_status = available;
  model_name = lit "qwen3";
  now = 5;
  now_text = lit "5";
}

abbrev pub question : ChatMessage
question = record {
  id = some (lit "5");
  role = user;
  status = done;
  content = lit "hi";
  raw = none;
  thinking = none;
  created_at = some 5;
}

abbrev test_info : ChunkInfo
test_info = record { id = some (lit "7"); created = some 7 }

abbrev asked : ChatStates
asked = submit test_env none (record start { input = lit "hi" })

abbrev asked_reach : Reach start asked
asked_reach = next (next here (typed (lit "hi") refl)) (submitted test_env none refl)

Reach-Inv_example : Inv asked
Reach-Inv_example = Reach-Inv asked_reach

Reach-ends_example :
    (a : ChatStates) × (b : ChatStates) × (on_close asked ≡ ok a)
    × (on_error asked ≡ ok b)
    × (stop asked ≡ ok a)
unfolding submit generate generate_new send trim
Reach-ends_example = Reach-ends asked_reach refl

parse_generation_qwen_total_example :
    (rest : Text) × (think : Text) × (parse_generation_qwen (lit "<think>a<think>b")
      ≡ some (record { think = trim think; content = trim rest }))
    × (index_of think_tag_open rest ≡ none)
parse_generation_qwen_total_example = parse_generation_qwen_total (lit "<think>a<think>b")

parse_generation_qwen-closed_example :
    parse_generation_qwen (lit " <think>a</think>b")
    ≡ some (record { think = trim (lit "\n\na"); content = trim (lit "b") })
unfolding trim
parse_generation_qwen-closed_example =
    parse_generation_qwen-closed (lit "a") (lit "b") (omega arith, tt) (lit " <think>a</think>b")
      refl (omega arith, tt)

update_messages-Extends_example :
    Extends (question ∷ []) (question ∷ generated test_info (lit "qwen3") (lit "a") ∷ [])
unfolding update_messages generated text_eq add_delta
update_messages-Extends_example =
    update_messages-Extends test_info (some (lit "qwen3")) (delta_items (lit "a")) (question ∷ [])
      (question ∷ generated test_info (lit "qwen3") (lit "a") ∷ []) refl
