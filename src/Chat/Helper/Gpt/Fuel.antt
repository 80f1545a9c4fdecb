-- ===== src/Chat/Helper/Gpt/Fuel.antt =====
-- The loop over the matches has enough fuel.
use toolkit_inference_mesh.Common.{
  ◌≡◌, ◌+◌, ◌≤◌, suc, arith, length, length-drop, some, [], ◌∷◌, Bool-cases, Option-cases,
  eq_of_some, length-append, ℕ, zero, refl, ap, inl, inr, ◌∙◌,
}
use toolkit_inference_mesh.Js.Text.{Text, lit, trim, starts_with}
use toolkit_inference_mesh.Chat.Helper.Gpt.{
  after, name_span, body_span, match_body, match_name, match_head, channel_tag, message_tag,
  GptGenerationMap, exec_loop, parse_generation_gpt, insert,
}
use toolkit_inference_mesh.Js.Text.Laws.{split_of_starts_with}
use toolkit_inference_mesh.Chat.Helper.Gpt.Laws.{exec_loop-skip, exec_loop-match}

length-name_span : (s : Text) → length (name_span s).1 ≤ length s
unfolding name_span
length-name_span [] = omega arith
length-name_span (c ∷ s) = ground (arith, length-name_span s)

length-body_span : (s : Text) → length (body_span s).1 ≤ length s
unfolding body_span
length-body_span [] = omega arith
length-body_span (c ∷ s) = ground (arith, length-body_span s, length-drop 7 (c ∷ s))

length-after : (p s t : Text) → after p s ≡ some t → length t + length p ≡ length s
unfolding after
length-after p s t h = elim (Bool-cases (starts_with p s)) [
  | inl y ↦
      let (v, e) = split_of_starts_with p s y in
      omega (
        arith,
        ap length (eq_of_some (rw y at h)),
        ap length e,
        length-append p v,
        length-drop (length p) s,
      )
  | inr n ↦ absurd (ground arith)
]

length-match_name :
    (x : Text × Text) (n b rest : Text)
    → match_name x ≡ some (n, b, rest)
    → length rest ≤ length x.1
unfolding match_name match_body
length-match_name (name, s) n b rest h = elim (Option-cases (after message_tag s)) [
  | inl e ↦ absurd (ground arith)
  | inr (t, e) ↦ ground (arith, length-after message_tag s t e, length-body_span t)
]

-- What follows a match is shorter than the text.
length-match_head :
    (s n b rest : Text) → match_head s ≡ some (n, b, rest) → suc (length rest) ≤ length s
unfolding match_head
length-match_head s n b rest h = elim (Option-cases (after channel_tag s)) [
  | inl e ↦ absurd (ground arith)
  | inr (t, e) ↦
      let found : match_name (name_span t) ≡ some (n, b, rest) = rw (e, match_head) at h in
      omega (
        arith,
        length-after channel_tag s t e,
        length-match_name (name_span t) n b rest found,
        length-name_span t,
      )
]

-- With fuel for its characters the loop ends, and more fuel changes nothing.
exec_loop_enough :
    (fuel more : ℕ) (s : Text) (m : GptGenerationMap)
    → length s ≤ fuel
    → (r : GptGenerationMap) × (exec_loop fuel s m ≡ some r)
      × (exec_loop (fuel + more) s m ≡ some r)
unfolding exec_loop
exec_loop_enough fuel more [] m h = (m, refl, refl)
exec_loop_enough zero more (c ∷ s) m h = absurd (omega (arith, h))
exec_loop_enough (suc fuel) more (c ∷ s) m h =
    let longer : suc fuel + more ≡ suc (fuel + more) = omega arith in
    let later = ap (λ n. exec_loop n (c ∷ s) m) longer in
    elim (Option-cases (match_head (c ∷ s))) [
      | inl e ↦
          let (r, ends, same) = exec_loop_enough fuel more s m (omega (arith, h)) in
          (
            r,
            exec_loop-skip c s fuel m e ∙ ends,
            later ∙ exec_loop-skip c s (fuel + more) m e ∙ same,
          )
      | inr ((n, b, rest), e) ↦
          let (r, ends, same) =
            exec_loop_enough fuel more rest (insert n (trim b) m)
              (omega (arith, h, length-match_head (c ∷ s) n b rest e)) in
          (
            r,
            exec_loop-match c s n b rest fuel m e ∙ ends,
            later ∙ exec_loop-match c s n b rest (fuel + more) m e ∙ same,
          )
    ]

-- The loop over the matches ends on every text: the parser returns a map, it never uses up its
-- rounds, of which there are as many as the trimmed text has characters, and with any number of
-- rounds more the loop returns the same map.
pub parse_generation_gpt_total :
    (input : Text) (more : ℕ)
    → (m : GptGenerationMap) × (parse_generation_gpt input ≡ some m)
      × (exec_loop
            (length (trim input) + more)
            (trim input)
            ((lit "analysis", []) ∷ (lit "final", []) ∷ [])
          ≡ some m)
unfolding parse_generation_gpt
parse_generation_gpt_total input more = exec_loop_enough _ more (trim input) _ (omega arith)
