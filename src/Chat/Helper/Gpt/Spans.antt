-- ===== src/Chat/Helper/Gpt/Spans.antt =====
-- What the parts of the regular expression match.
use toolkit_inference_mesh.Common.{
  ℕ, ◌≡◌, refl, arith, false, none, [], ◌∷◌, ◌++◌, Bool-cases, Option-cases, drop, ap, ◌∙◌, inl,
  inr,
}
use toolkit_inference_mesh.Js.Text.{Text, starts_with, index_of, is_empty, lit}
use toolkit_inference_mesh.Js.Text.Laws.{Lacks}
use toolkit_inference_mesh.Chat.Helper.Gpt.{
  channel_tag, message_tag, end_tag, name_span, body_span, match_head, match_body, after,
  match_name,
}

-- The text holds no end tag.
abbrev pub IsBody : Text → Type 0
IsBody b = index_of end_tag b ≡ none

-- A prefix without '<' does not reach over a '<'.
starts_with-stop : (p s t : Text) → Lacks 60 p → starts_with p (s ++ 60 ∷ t) ≡ starts_with p s
unfolding starts_with
starts_with-stop [] s t h = refl
starts_with-stop (a ∷ p) [] t (h, hs) = ground arith
starts_with-stop (a ∷ p) (d ∷ s) t (h, hs) = rw (starts_with-stop p s t hs) refl

IsBody-head : (c : ℕ) (b : Text) → IsBody (c ∷ b) → (starts_with end_tag (c ∷ b) ≡ false) × IsBody b
unfolding index_of
IsBody-head c b h = elim (Bool-cases (starts_with end_tag (c ∷ b))) [
  | inl y ↦ absurd (ground arith)
  | inr n ↦ elim (Option-cases (index_of end_tag b)) [
    | inl e ↦ (n, e)
    | inr (i, e) ↦ absurd (ground arith)
  ]
]

end_tag_later :
    (c : ℕ) (b rest : Text)
    → starts_with end_tag (c ∷ b) ≡ false
    → starts_with end_tag (c ∷ (b ++ (end_tag ++ rest))) ≡ false
unfolding starts_with
end_tag_later c b rest h =
    ground (arith, starts_with-stop (lit "|end|>") b (drop 1 end_tag ++ rest) (omega arith))

pub body_span-end : (b rest : Text) → IsBody b → body_span (b ++ (end_tag ++ rest)) ≡ (b, rest)
unfolding body_span
body_span-end [] rest h = refl
body_span-end (c ∷ b) rest h =
    let (n, hs) = IsBody-head c b h in rw (end_tag_later c b rest n, body_span-end b rest hs) refl

pub body_span-all : (b : Text) → IsBody b → body_span b ≡ (b, [])
unfolding body_span
body_span-all [] h = refl
body_span-all (c ∷ b) h = let (n, hs) = IsBody-head c b h in rw (n, body_span-all b hs) refl

name_span-tag : (n t : Text) → Lacks 60 n → name_span (n ++ 60 ∷ t) ≡ (n, 60 ∷ t)
unfolding name_span
name_span-tag [] t h = refl
name_span-tag (c ∷ n) t (h, hs) = rw (name_span-tag n t hs) (ground arith)

-- A channel with its name, up to the body.
pub match_head-channel :
    (n s : Text)
    → is_empty n ≡ false
    → Lacks 60 n
    → match_head (channel_tag ++ (n ++ (message_tag ++ s))) ≡ match_body n s
unfolding match_head starts_with
match_head-channel n s e h =
    ap match_name (name_span-tag n (drop 1 message_tag ++ s) h)
    ∙ (unfold match_name after in rw e refl)
