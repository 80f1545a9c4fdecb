-- ===== src/Ui/Markdown.antt =====
-- The preprocessing of a message in components/inputs/chat-markdown.tsx.
pub mod Laws
pub mod View
use toolkit_inference_mesh.Common.{ℕ, ◌==◌, ◌&&◌, [], ◌∷◌, ◌++◌, if◌then◌else◌}
use toolkit_inference_mesh.Js.Text.{Text, lit, replace_first}

-- The tags are set apart by blank lines.
unfoldable pub preprocess_think : Text → Text
unfolding replace_first
preprocess_think input =
    let blank = 10 ∷ 10 ∷ [] in
    replace_first (lit "</think>") (blank ++ lit "</think>" ++ blank)
      (replace_first (lit "<think>") (lit "<think>" ++ blank) input)

-- The text that a replacement string stands for: `$$` in it is one `$`.
abbrev pub expand : Text → Text
expand [] = []
expand (c ∷ []) = c ∷ []
expand (c ∷ d ∷ r) =
    let after = expand r in
    let rest = expand (d ∷ r) in if c == 36 && d == 36 then 36 ∷ after else c ∷ rest

-- `input.replace(/\\c/g, r)`: every backslash that `c` follows, with it.
unfoldable pub replace_escaped : ℕ → Text → Text → Text
replace_escaped c r [] = []
replace_escaped c r (a ∷ []) = a ∷ []
replace_escaped c r (a ∷ b ∷ s) =
    let after = replace_escaped c r s in
    let rest = replace_escaped c r (b ∷ s) in
    if a == 92 && b == c then expand r ++ after else a ∷ rest

-- The brackets and parentheses of MathJax: `\[`, `\]`, `\(`, `\)`.
unfoldable pub preprocess_math : Text → Text
unfolding replace_escaped
preprocess_math input = replace_escaped 41 (lit "$") (
    replace_escaped 40 (lit "$")
      (replace_escaped 93 (lit "$$") (replace_escaped 91 (lit "$$") input)))
