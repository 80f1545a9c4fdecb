-- ===== src/Tests/Gpt.antt =====
-- The parser at a generation with two channels.
use toolkit_inference_mesh.Common.{some, length, ◌+◌, List, refl, ◌≡◌, [], ◌∷◌}
use toolkit_inference_mesh.Js.Text.{Text, lit, text_eq, trim, starts_with}
use toolkit_inference_mesh.Chat.Helper.Gpt.{
  parse_generation_gpt, match_head, exec_loop, GptGenerationMap,
}
use toolkit_inference_mesh.Chat.Helper.Gpt.Fuel.{parse_generation_gpt_total}

test_gpt :
    parse_generation_gpt (
      lit
        " <|channel|>analysis<|message|>we <b>think<|end|><|start|>assistant<|channel|>final<|message|>Hello")
    ≡ some ((lit "analysis", lit "we <b>think") ∷ (lit "final", lit "Hello") ∷ [])
unfolding parse_generation_gpt match_head trim starts_with text_eq
test_gpt = refl

abbrev test_final : List (Text × Text)
test_final = (lit "analysis", lit " think ") ∷ (lit "final", lit "Hi") ∷ []

parse_generation_gpt_total_example :
    (m : GptGenerationMap) × (parse_generation_gpt (lit "<|channel|>final<|message|>Hi") ≡ some m)
    × (exec_loop
          (length (trim (lit "<|channel|>final<|message|>Hi")) + 5)
          (trim (lit "<|channel|>final<|message|>Hi"))
          ((lit "analysis", []) ∷ (lit "final", []) ∷ [])
        ≡ some m)
parse_generation_gpt_total_example =
    parse_generation_gpt_total (lit "<|channel|>final<|message|>Hi") 5
