-- ===== src/Chat/Helper/Gpt.antt =====
-- `parseGenerationGpt`: the channels of a generation, by the regular expression
-- /<\|channel\|>([^<]+)<\|message\|>(.*?)(<\|end\|>|$)/gs.
pub mod Spans
pub mod Laws
pub mod Fuel
use toolkit_inference_mesh.Common.{
  ◌==◌, if◌then◌else◌, length, drop, ℕ, zero, suc, Option, none, some, List, [], ◌∷◌, map,
}
use toolkit_inference_mesh.Js.Text.{Text, lit, text_eq, is_empty, trim, starts_with}

abbrev pub channel_tag : Text
channel_tag = lit "<|channel|>"

abbrev pub message_tag : Text
message_tag = lit "<|message|>"

abbrev pub end_tag : Text
end_tag = lit "<|end|>"

-- The map of the source, by channel.
abbrev pub GptGenerationMap : Type 0
GptGenerationMap = List (Text × Text)

unfoldable pub lookup : Text → GptGenerationMap → Option Text
lookup k [] = none
lookup k ((j, v) ∷ m) = let rest = lookup k m in if text_eq j k then some v else rest

-- `map[k] = v`
unfoldable pub insert : Text → Text → GptGenerationMap → GptGenerationMap
insert k v [] = (k, v) ∷ []
insert k v ((j, w) ∷ m) =
    let rest = insert k v m in if text_eq j k then (k, v) ∷ m else (j, w) ∷ rest

-- What follows a prefix, where the text starts with it.
unfoldable pub after : Text → Text → Option Text
unfolding starts_with
after p s = if starts_with p s then some (drop (length p) s) else none

-- `[^<]+` and what follows: as long as it can be. (No shorter match helps, since the next character
-- of the expression is '<'.)
unfoldable pub name_span : Text → Text × Text
name_span [] = ([], [])
name_span (c ∷ s) =
    let (name, rest) = name_span s in if c == 60 then ([], c ∷ s) else (c ∷ name, rest)

-- `(.*?)(<\|end\|>|$)`: up to the first end tag, which is passed over, or up to the end.
unfoldable pub body_span : Text → Text × Text
unfolding starts_with
body_span [] = ([], [])
body_span (c ∷ s) =
    let (body, rest) = body_span s in
    if starts_with end_tag (c ∷ s) then ([], drop 7 (c ∷ s)) else (c ∷ body, rest)

-- A match that starts at the head of the text: the two groups, and what follows the match.
unfoldable pub match_body : Text → Text → Option (Text × Text × Text)
unfolding body_span
match_body name s = let (body, rest) = body_span s in some (name, body, rest)

unfoldable pub match_name : Text × Text → Option (Text × Text × Text)
unfolding after match_body
match_name (name, rest) =
    if is_empty name
    then none
    else elim (after message_tag rest) [ none ↦ none | some s ↦ match_body name s ]

unfoldable pub match_head : Text → Option (Text × Text × Text)
unfolding after match_name name_span
match_head s = elim (after channel_tag s) [ none ↦ none | some rest ↦ match_name (name_span rest) ]

-- The loop over `regex.exec`: from each position the next match, and on behind it. The fuel counts
-- the characters; a loop that uses it up before the end of the text is `none`.
unfoldable pub exec_loop : ℕ → Text → GptGenerationMap → Option GptGenerationMap
unfolding match_head insert
exec_loop fuel [] map = some map
exec_loop zero (c ∷ s) map = none
exec_loop (suc fuel) (c ∷ s) map = elim (match_head (c ∷ s)) [
  | none ↦ exec_loop fuel s map
  | some (name, body, rest) ↦ exec_loop fuel rest (insert name (trim body) map)
]

unfoldable pub parse_generation_gpt : Text → Option GptGenerationMap
unfolding exec_loop
parse_generation_gpt input =
    let buffer = trim input in
    exec_loop (length buffer) buffer ((lit "analysis", []) ∷ (lit "final", []) ∷ [])
