-- ===== src/Stream/Response.antt =====
-- A response of a server, apart from how the network cuts it into chunks: the chunks up to the text
-- that they make together.
use mathlib.Core.Quot
use mathlib.Core.Quot.{Quot, Quot-set}
use mathlib.Core.List.{is_set}
use native.Mathlib.Nat.{ℕ_set}
use mathlib.Core.HLevel.{Σ_set}
use toolkit_inference_mesh.Common.{◌≡◌, refl, List, [], ◌∷◌, concat, append-nil, sym, ap, ◌∙◌}
use toolkit_inference_mesh.Js.Text.{Text, split}
use toolkit_inference_mesh.Stream.Frames.{frames, is_newline, pop}
use toolkit_inference_mesh.Stream.Frames.Laws.{frames-split}

abbrev pub SameText : List Text → List Text → Type 0
SameText xs ys = concat xs ≡ concat ys

abbrev pub Response : Type 0
Response = Quot SameText

-- The response that came in these chunks.
abbrev pub received : List Text → Response
received chunks = Quot.mk chunks

unfoldable pub whole : Response → Text
whole = Quot.lift (is_set ℕ_set) concat (λ xs ys h. h)

whole-received : (chunks : List Text) → whole (received chunks) ≡ concat chunks
unfolding whole
whole-received chunks = refl

-- A response is its text, no more and no less.
received_whole : (r : Response) → received (whole r ∷ []) ≡ r
unfolding whole
received_whole = Quot.ind (λ r. Quot-set _ _) (λ chunks. Quot.sound (append-nil (concat chunks)))

-- Chunks of the same response make the same text.
whole_same : (xs ys : List Text) → received xs ≡ received ys → concat xs ≡ concat ys
unfolding whole
whole_same xs ys h = ap whole h

-- The line buffer over a response: the complete lines, and what is left. It reads the chunks, and
-- chunks of the same response give the same.
unfoldable pub lines_of : Response → List Text × Text
lines_of =
    Quot.lift (Σ_set (is_set (is_set ℕ_set)) (λ _. is_set ℕ_set)) (frames [])
      (λ xs ys h. frames-split xs ∙ ap (λ t. pop (split is_newline t)) h ∙ sym (frames-split ys))

pub lines_of-received : (chunks : List Text) → lines_of (received chunks) ≡ frames [] chunks
unfolding lines_of
lines_of-received chunks = refl
