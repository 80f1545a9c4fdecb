-- ===== src/Chat/Helper/Qwen.antt =====
-- `parseGenerationQwen`: the text between <think> tags, and the rest.
pub mod Laws
pub mod Closed
use mathlib.Core.Option
use toolkit_inference_mesh.Common.{
  ltb, if◌then◌else◌, length, ℕ, zero, suc, ◌+◌, Bool, false, Option, none, some, [], ◌++◌,
}
use toolkit_inference_mesh.Js.Text.{Text, lit, trim, index_of, substring, replace_first}

abbrev pub think_tag_open : Text
think_tag_open = lit "<think>"

abbrev pub think_tag_close : Text
think_tag_close = lit "</think>"

pub record QwenGenerationMap : Type 0 where
  pub think : Text
  pub content : Text

-- `thinkEnd > thinkStart`, where `thinkEnd` may be -1.
abbrev pub closes_after : Option ℕ → ℕ → Bool
closes_after none start = false
closes_after (some stop) start = ltb start stop

-- The end of the thinking text.
abbrev pub think_stop : Option ℕ → ℕ → Text → ℕ
think_stop none start buffer = length buffer
think_stop (some stop) start buffer = if ltb start stop then stop else length buffer

-- The thinking text of a round whose first opening tag stands at `start`.
unfoldable pub think_at : ℕ → Text → Text
think_at start buffer =
    substring (start + 7) (think_stop (index_of think_tag_close buffer) start buffer) buffer

-- The text that the round takes out of the buffer.
unfoldable pub pattern_at : ℕ → Text → Text
unfolding think_at
pattern_at start buffer =
    think_tag_open
    ++ (think_at start buffer
        ++ (if closes_after (index_of think_tag_close buffer) start then think_tag_close else []))

-- The loop: `none` where the fuel runs out. What is left of the buffer, and `map.think`.
unfoldable pub think_loop : ℕ → Text → Text → Option (Text × Text)
unfolding pattern_at
think_loop zero buffer think = none
think_loop (suc fuel) buffer think = elim (index_of think_tag_open buffer) [
  | none ↦ some (buffer, think)
  | some start ↦
      think_loop fuel (replace_first (pattern_at start buffer) [] buffer)
        (think ++ (lit "\n\n" ++ think_at start buffer))
]

unfoldable pub parse_generation_qwen : Text → Option QwenGenerationMap
unfolding think_loop
parse_generation_qwen input =
    let buffer = trim input in
    Option.map (λ r. record { think = trim r.1; content = trim r.0 })
      (think_loop (suc (length buffer)) buffer [])
