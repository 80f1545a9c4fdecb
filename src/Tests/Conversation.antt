-- ===== src/Tests/Conversation.antt =====
-- A conversation of two questions.
use toolkit_inference_mesh.Ui.ChatView.Conversation.Laws.{converse-rests}
use toolkit_inference_mesh.Common.{◌≡◌, refl, [], ◌∷◌, List, false, none}
use toolkit_inference_mesh.Js.Text.{lit, trim, includes, text_eq, starts_with}
use toolkit_inference_mesh.Cluster.Status.{ClusterStatus}
use toolkit_inference_mesh.Chat.Messages.{ok, ChatStatus}
use toolkit_inference_mesh.Chat.Actions.{Env}
use toolkit_inference_mesh.Ui.ChatView.Conversation.{
  Exchange, IsExchange, converse, rests, all_messages, last_status, all_requests, Answer, answers,
  refuses, IsAnswer,
}
use toolkit_inference_mesh.Tests.Session.{test_parse, test-IsChunk_a, test-IsChunk_b}

abbrev question_env : Env
question_env = record {
  cluster_status = ClusterStatus.available;
  model_name = lit "qwen3";
  now = 1;
  now_text = lit "1";
}

abbrev test_answer : Answer
test_answer = record {
  id = lit "7";
  model = lit "qwen3";
  created = 7;
  content_type = lit "text/event-stream";
  chunks = lit "data: {a}\n\nda" ∷ lit "ta: {b}\n\ndata: [DONE]\n\n" ∷ [];
  first = (lit "{a}", lit "<think>a");
  more = (lit "{b}", lit "</think>b") ∷ [];
}

-- The first question is refused, and the second is answered.
abbrev refused_exchange : Exchange
refused_exchange = record {
  env = question_env;
  question = lit "Hi";
  parse_json = test_parse;
  reply = refuses 503 none false;
}

abbrev answered_exchange : Exchange
answered_exchange = record {
  env = question_env;
  question = lit " Why? ";
  parse_json = test_parse;
  reply = answers test_answer;
}

test-IsExchange_refused : IsExchange refused_exchange
unfolding trim
test-IsExchange_refused = record { ready = refl; named = refl; asked = refl; replied = refl }

test-IsAnswer_a : IsAnswer test_parse test_answer
unfolding includes text_eq starts_with
test-IsAnswer_a = record {
  event_stream = refl;
  whole = refl;
  deltas = (test-IsChunk_a, (test-IsChunk_b, tt));
  ends = refl;
}

test-IsExchange_answered : IsExchange answered_exchange
unfolding trim
test-IsExchange_answered = record {
  ready = refl;
  named = refl;
  asked = refl;
  replied = test-IsAnswer_a;
}

abbrev test_exchanges : List Exchange
test_exchanges = refused_exchange ∷ answered_exchange ∷ []

converse-rests_example :
    converse test_exchanges (rests ChatStatus.closed [])
    ≡ ok (
      rests (last_status test_exchanges ChatStatus.closed) (all_messages test_exchanges),
      all_requests [] test_exchanges,
    )
converse-rests_example =
    converse-rests test_exchanges ChatStatus.closed [] refl
      (test-IsExchange_refused, (test-IsExchange_answered, tt))
