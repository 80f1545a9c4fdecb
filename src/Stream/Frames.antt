-- ===== src/Stream/Frames.antt =====
-- The line buffer of both readers (services/chat.tsx, services/http-stream.ts): the chunk is appended
-- to `buffer`, the buffer is split at '\n', and its last part is kept for later. A chunk is the text
-- that `decoder.decode(value)` returns for it: the decoder is the platform's and stands before.
pub mod Laws
use toolkit_inference_mesh.Common.{ℕ, Bool, List, [], ◌∷◌, ◌++◌, ◌==◌, init, get_last?, get_or_else}
use toolkit_inference_mesh.Js.Text.{Text, split}

abbrev pub is_newline : ℕ → Bool
is_newline c = c == 10

-- `lines.pop() || ''`, with the lines that are left.
abbrev pub pop : List Text → List Text × Text
pop parts = (init parts, get_or_else (get_last? parts) [])

-- One round of the reading loop: the complete lines, and the new buffer.
unfoldable pub frame : Text → Text → List Text × Text
unfolding split
frame buffer chunk = pop (split is_newline (buffer ++ chunk))

-- The rounds over a sequence of chunks: all the lines that were handed on, and the last buffer.
unfoldable pub frames : Text → List Text → List Text × Text
frames buffer [] = ([], buffer)
frames buffer (chunk ∷ chunks) =
    let (lines, rest) = frame buffer chunk in
    let (more, last) = frames rest chunks in (lines ++ more, last)
