-- ===== src/Ui/Markdown/Laws.antt =====
-- What becomes of a formula.
use toolkit_inference_mesh.Common.{ℕ, ◌≡◌, refl, ap, All, ◌==◌, false, [], ◌∷◌, ◌++◌, ◌∙◌, sym}
use toolkit_inference_mesh.Ui.Markdown.{replace_escaped, preprocess_math}
use toolkit_inference_mesh.Js.Text.{Text, lit}

-- A text without a backslash.
abbrev pub IsUnescaped : Text → Type 0
IsUnescaped s = All (λ c. (c == 92) ≡ false) s

-- Nothing is replaced in such a text, nor in what comes before.
replace_escaped-unescaped :
    (c : ℕ) (r s t : Text)
    → IsUnescaped s
    → replace_escaped c r (s ++ t) ≡ s ++ replace_escaped c r t
unfolding replace_escaped
replace_escaped-unescaped c r [] t h = refl
replace_escaped-unescaped c r (a ∷ []) [] h = refl
replace_escaped-unescaped c r (a ∷ []) (b ∷ t) h = rw h.0 refl
replace_escaped-unescaped c r (a ∷ b ∷ s) t h =
    rw h.0 (ap (λ u. a ∷ u) (replace_escaped-unescaped c r (b ∷ s) t h.1))

-- A formula between brackets, and one between parentheses.
abbrev pub display : Text → Text
display s = lit "\\[" ++ (s ++ lit "\\]")

abbrev pub inline : Text → Text
inline s = lit "\\(" ++ (s ++ lit "\\)")

-- The two passes for the brackets, and the two for the parentheses.
abbrev brackets : Text → Text
brackets t = replace_escaped 93 (lit "$$") (replace_escaped 91 (lit "$$") t)

abbrev parentheses : Text → Text
parentheses t = replace_escaped 41 (lit "$") (replace_escaped 40 (lit "$") t)

display_shown : (s : Text) → IsUnescaped s → preprocess_math (display s) ≡ lit "$" ++ (s ++ lit "$")
unfolding preprocess_math replace_escaped
display_shown s h =
    ap (λ t. parentheses (replace_escaped 93 (lit "$$") (36 ∷ t)))
      (replace_escaped-unescaped 91 (lit "$$") s (lit "\\]") h)
    ∙ ap parentheses (replace_escaped-unescaped 93 (lit "$$") (36 ∷ s) (lit "\\]") (refl, h))
    ∙ ap (replace_escaped 41 (lit "$"))
        (replace_escaped-unescaped 40 (lit "$") (36 ∷ s) (lit "$") (refl, h))
    ∙ replace_escaped-unescaped 41 (lit "$") (36 ∷ s) (lit "$") (refl, h)

inline_shown : (s : Text) → IsUnescaped s → preprocess_math (inline s) ≡ lit "$" ++ (s ++ lit "$")
unfolding preprocess_math replace_escaped
inline_shown s h =
    ap (λ t. parentheses (replace_escaped 93 (lit "$$") (92 ∷ t)))
      (replace_escaped-unescaped 91 (lit "$$") (40 ∷ s) (lit "\\)") (refl, h))
    ∙ ap (λ t. parentheses (92 ∷ t))
        (replace_escaped-unescaped 93 (lit "$$") (40 ∷ s) (lit "\\)") (refl, h))
    ∙ ap (λ t. replace_escaped 41 (lit "$") (36 ∷ t))
        (replace_escaped-unescaped 40 (lit "$") s (lit "\\)") h)
    ∙ replace_escaped-unescaped 41 (lit "$") (36 ∷ s) (lit "\\)") (refl, h)

-- A formula between the brackets that MathJax has for a display becomes a text between single
-- dollar signs, the same as one between the parentheses for an inline formula.
pub preprocess_math-display :
    (s : Text)
    → IsUnescaped s
    → (preprocess_math (display s) ≡ lit "$" ++ (s ++ lit "$"))
      × (preprocess_math (display s) ≡ preprocess_math (inline s))
preprocess_math-display s h = (display_shown s h, display_shown s h ∙ sym (inline_shown s h))
