-- ===== src/Tests/Session.antt =====
-- One answer from end to end: two deltas, cut into chunks.
use toolkit_inference_mesh.Common.{
  ◌++◌, false, arith, ◌≡◌, refl, List, [], ◌∷◌, Option, some, none, if◌then◌else◌, true,
}
use toolkit_inference_mesh.Js.Text.{
  index_of, to_lower_case, Text, lit, text_eq, trim, starts_with, includes,
}
use toolkit_inference_mesh.Js.Json.{Json}
use toolkit_inference_mesh.Stream.Sse.Connection.{NetEvent, response, chunk, stream_end}
use toolkit_inference_mesh.Chat.Messages.{ChatStates, ok}
use toolkit_inference_mesh.Chat.Actions.Invariant.{start}
use toolkit_inference_mesh.Chat.Session.{answer}
use toolkit_inference_mesh.Chat.Session.Lines.{IsValue}
use toolkit_inference_mesh.Chat.Session.Chunks.{chunk_json}
use toolkit_inference_mesh.Chat.Session.Laws.{answer-generated, answered, IsChunk}
use toolkit_inference_mesh.Chat.Helper.Gpt.Laws.{IsChannel}
use toolkit_inference_mesh.Ui.ChatView.{stream}
use toolkit_inference_mesh.Ui.ChatView.Laws.{answer-stream, answer-stream_qwen, answer_item}
use toolkit_inference_mesh.Tests.Chat.{question}

abbrev pub test_parse : Text → Option Json
test_parse t =
    if text_eq t (lit "{a}")
    then some (chunk_json (lit "7") (lit "qwen3") 7 (lit "<think>a"))
    else if text_eq t (lit "{b}")
    then some (chunk_json (lit "7") (lit "qwen3") 7 (lit "</think>b"))
    else none

abbrev pub test_states : ChatStates
test_states = record start { messages = question ∷ [] }

abbrev test_network : List NetEvent
test_network =
    response 200 (some (lit "text/event-stream")) true
    ∷ chunk (lit "data: {a}\n\nda")
    ∷ chunk (lit "ta: {b}\n\ndata: [DONE]\n\n")
    ∷ stream_end
    ∷ []

test-IsValue_a : IsValue (lit "{a}")
unfolding trim starts_with
test-IsValue_a = record { one_line = omega arith; trimmed = refl; no_comment = refl }

test-IsValue_b : IsValue (lit "{b}")
unfolding trim starts_with
test-IsValue_b = record { one_line = omega arith; trimmed = refl; no_comment = refl }

pub test-IsChunk_a : IsChunk (lit "7") (lit "qwen3") 7 test_parse (lit "{a}", lit "<think>a")
unfolding text_eq
test-IsChunk_a = record { value = test-IsValue_a; parses = refl; text = refl }

pub test-IsChunk_b : IsChunk (lit "7") (lit "qwen3") 7 test_parse (lit "{b}", lit "</think>b")
unfolding text_eq
test-IsChunk_b = record { value = test-IsValue_b; parses = refl; text = refl }

answer-generated_example :
    answer test_parse test_network test_states
    ≡ ok (
        answered
          (lit "7")
          (lit "qwen3")
          7
          test_parse
          test_states
          (lit "{a}", lit "<think>a")
          ((lit "{b}", lit "</think>b") ∷ []))
unfolding includes text_eq starts_with
answer-generated_example =
    answer-generated (lit "7") (lit "qwen3") 7 test_parse (lit "text/event-stream")
      (lit "data: {a}\n\nda" ∷ lit "ta: {b}\n\ndata: [DONE]\n\n" ∷ []) (lit "{a}", lit "<think>a")
      ((lit "{b}", lit "</think>b") ∷ []) test_states refl refl
      (test-IsChunk_a, (test-IsChunk_b, tt)) refl refl

-- An answer of a gpt-oss model in two channels.
abbrev parse_gpt : Text → Option Json
parse_gpt t =
    if text_eq t (lit "{a}")
    then some (
        chunk_json (lit "7") (lit "gpt-oss") 7
          (lit "<|channel|>analysis<|message|>Hm<|end|><|start|>assis"))
    else if text_eq t (lit "{b}")
    then some (chunk_json (lit "7") (lit "gpt-oss") 7 (lit "tant<|channel|>final<|message|>Hi"))
    else none

test-IsChunk_gpt_a :
    IsChunk
      (lit "7")
      (lit "gpt-oss")
      7
      parse_gpt
      (lit "{a}", lit "<|channel|>analysis<|message|>Hm<|end|><|start|>assis")
unfolding text_eq
test-IsChunk_gpt_a = record { value = test-IsValue_a; parses = refl; text = refl }

test-IsChunk_gpt_b :
    IsChunk
      (lit "7")
      (lit "gpt-oss")
      7
      parse_gpt
      (lit "{b}", lit "tant<|channel|>final<|message|>Hi")
unfolding text_eq
test-IsChunk_gpt_b = record { value = test-IsValue_b; parses = refl; text = refl }

test-IsChannel_analysis : IsChannel (lit "analysis", lit "Hm")
unfolding index_of starts_with
test-IsChannel_analysis = record { named = refl; name = omega arith; body = refl }

test-IsChannel_final : IsChannel (lit "final", lit "Hi")
unfolding index_of starts_with
test-IsChannel_final = record { named = refl; name = omega arith; body = refl }

answer-stream_example :
    (last : ChatStates) × (answer parse_gpt test_network test_states ≡ ok last)
    × (stream last ≡ ((stream test_states).0 ++ answer_item (lit "Hm") (lit "Hi") ∷ [], false))
unfolding includes text_eq starts_with trim to_lower_case
answer-stream_example =
    answer-stream (lit "7") (lit "gpt-oss") 7 parse_gpt (lit "text/event-stream")
      (lit "data: {a}\n\nda" ∷ lit "ta: {b}\n\ndata: [DONE]\n\n" ∷ [])
      (lit "{a}", lit "<|channel|>analysis<|message|>Hm<|end|><|start|>assis")
      ((lit "{b}", lit "tant<|channel|>final<|message|>Hi") ∷ []) test_states (lit "Hm") (lit "Hi")
      false refl refl (test-IsChunk_gpt_a, (test-IsChunk_gpt_b, tt)) refl refl refl
      test-IsChannel_analysis test-IsChannel_final refl

answer-stream_qwen_example :
    (last : ChatStates) × (answer test_parse test_network test_states ≡ ok last)
    × (stream last ≡ ((stream test_states).0 ++ answer_item (lit "a") (lit "b") ∷ [], false))
unfolding includes text_eq starts_with trim to_lower_case
answer-stream_qwen_example =
    answer-stream_qwen (lit "7") (lit "qwen3") 7 test_parse (lit "text/event-stream")
      (lit "data: {a}\n\nda" ∷ lit "ta: {b}\n\ndata: [DONE]\n\n" ∷ []) (lit "{a}", lit "<think>a")
      ((lit "{b}", lit "</think>b") ∷ []) test_states (lit "a") (lit "b") refl refl
      (test-IsChunk_a, (test-IsChunk_b, tt)) refl refl refl refl (omega arith, tt) (omega arith, tt)
      refl
