-- ===== src/Chat/Helper/Gpt/Laws.antt =====
-- What the parser makes of a generation in channels, and that its loop ends.
use toolkit_inference_mesh.Common.{
  ℕ, ◌≡◌, ◌≢◌, refl, ap, ◌∙◌, ◌+◌, arith, length, Bool, true, false, some, none, List, [], ◌∷◌,
  ◌++◌, if◌then◌else◌, append-nil, drop, All, zero, suc, ◌-◌, ◌≤◌, length-append,
}
use toolkit_inference_mesh.Js.Text.{Text, lit, trim, is_empty, starts_with}
use toolkit_inference_mesh.Js.Text.Laws.{Lacks, text_eq_refl}
use toolkit_inference_mesh.Chat.Helper.Gpt.{
  GptGenerationMap, channel_tag, message_tag, end_tag, match_head, match_body, exec_loop, insert,
  after, parse_generation_gpt, lookup,
}
use toolkit_inference_mesh.Chat.Helper.Gpt.Spans.{
  IsBody, match_head-channel, body_span-end, body_span-all,
}

-- What a model writes between two channels.
abbrev pub separator : Text
separator = lit "<|start|>assistant"

abbrev pub closing : Bool → Text
closing closed = if closed then end_tag else []

-- A channel up to the end of its body.
abbrev pub open_channel : Text × Text → Text → Text
open_channel (name, body) rest = channel_tag ++ (name ++ (message_tag ++ (body ++ rest)))

-- Channels, all but the last with an end tag, and the last with or without one.
abbrev pub generation_text : List (Text × Text) → Text × Text → Bool → Text
generation_text [] last closed = open_channel last (closing closed)
generation_text (x ∷ xs) last closed =
    open_channel x (end_tag ++ (separator ++ generation_text xs last closed))

pub record IsChannel (x : Text × Text) : Type 0 where
  pub named : is_empty x.0 ≡ false
  pub name : Lacks 60 x.0
  pub body : IsBody x.1

-- `map[name] = body.trim()`, one after the other.
abbrev pub assign : List (Text × Text) → GptGenerationMap → GptGenerationMap
assign [] m = m
assign (x ∷ xs) m = assign xs (insert x.0 (trim x.1) m)

match_head-end :
    (x : Text × Text) (rest : Text)
    → IsChannel x
    → match_head (open_channel x (end_tag ++ rest)) ≡ some (x.0, x.1, rest)
match_head-end (n, b) rest h =
    match_head-channel n (b ++ (end_tag ++ rest)) h.named h.name
    ∙ (unfold match_body in rw (body_span-end b rest h.body) refl)

match_head-last :
    (x : Text × Text) (closed : Bool)
    → IsChannel x
    → match_head (open_channel x (closing closed)) ≡ some (x.0, x.1, [])
match_head-last x true h = match_head-end x [] h
match_head-last (n, b) false h =
    match_head-channel n (b ++ []) h.named h.name
    ∙ (unfold match_body in rw (append-nil b, body_span-all b h.body) refl)

-- No match begins at a character that is not '<'.
match_head-ne : (c : ℕ) (s : Text) → c ≢ 60 → match_head (c ∷ s) ≡ none
unfolding match_head starts_with after
match_head-ne c s h = ground arith

-- One round.
pub exec_loop-skip :
    (c : ℕ) (s : Text) (fuel : ℕ) (m : GptGenerationMap)
    → match_head (c ∷ s) ≡ none
    → exec_loop (suc fuel) (c ∷ s) m ≡ exec_loop fuel s m
unfolding exec_loop
exec_loop-skip c s fuel m h = rw (h, exec_loop) refl

pub exec_loop-match :
    (c : ℕ) (s n b rest : Text) (fuel : ℕ) (m : GptGenerationMap)
    → match_head (c ∷ s) ≡ some (n, b, rest)
    → exec_loop (suc fuel) (c ∷ s) m ≡ exec_loop fuel rest (insert n (trim b) m)
unfolding exec_loop
exec_loop-match c s n b rest fuel m h = rw (h, exec_loop) refl

exec_loop-lacking :
    (p rest : Text) (fuel : ℕ) (m : GptGenerationMap)
    → Lacks 60 p
    → exec_loop (length p + fuel) (p ++ rest) m ≡ exec_loop fuel rest m
exec_loop-lacking [] rest fuel m h = ap (λ n. exec_loop n rest m) (omega arith)
exec_loop-lacking (c ∷ p) rest fuel m (h, hs) =
    ap (λ n. exec_loop n (c ∷ (p ++ rest)) m) (omega arith)
    ∙ exec_loop-skip c (p ++ rest) (length p + fuel) m (match_head-ne c (p ++ rest) h)
    ∙ exec_loop-lacking p rest fuel m hs

separator_head : (rest : Text) → match_head (separator ++ rest) ≡ none
unfolding match_head after starts_with
separator_head rest = refl

exec_loop-separator :
    (rest : Text) (fuel : ℕ) (m : GptGenerationMap)
    → exec_loop (18 + fuel) (separator ++ rest) m ≡ exec_loop fuel rest m
exec_loop-separator rest fuel m =
    let tail = drop 1 separator in
    ap (λ n. exec_loop n (separator ++ rest) m) (omega arith)
    ∙ exec_loop-skip 60 (tail ++ rest) (length tail + fuel) m (separator_head rest)
    ∙ exec_loop-lacking tail rest fuel m (omega arith)

-- The rounds over a generation, with fuel for each of its characters.
exec_loop-generation :
    (xs : List (Text × Text)) (last : Text × Text) (closed : Bool) (fuel : ℕ) (m : GptGenerationMap)
    → All IsChannel (xs ++ last ∷ [])
    → length (generation_text xs last closed) ≤ fuel
    → exec_loop fuel (generation_text xs last closed) m ≡ some (assign (xs ++ last ∷ []) m)
exec_loop-generation [] last closed zero m h f = absurd (omega (arith, f))
exec_loop-generation [] last closed (suc fuel) m h f =
    exec_loop-match 60 _ last.0 last.1 [] fuel m (match_head-last last closed h.0)
    ∙ (unfold exec_loop in refl)
exec_loop-generation (x ∷ xs) last closed zero m h f = absurd (omega (arith, f))
exec_loop-generation (x ∷ xs) last closed (suc fuel) m h f =
    let rest = generation_text xs last closed in
    let enough : 18 + length rest ≤ fuel = omega (
      arith,
      f,
      length-append x.0 (message_tag ++ (x.1 ++ (end_tag ++ (separator ++ rest)))),
      length-append x.1 (end_tag ++ (separator ++ rest)),
    ) in
    exec_loop-match 60 _ x.0 x.1 (separator ++ rest) fuel m
      (match_head-end x (separator ++ rest) h.0)
    ∙ ap (λ n. exec_loop n (separator ++ rest) (insert x.0 (trim x.1) m)) (omega (arith, enough))
    ∙ exec_loop-separator rest (fuel - 18) (insert x.0 (trim x.1) m)
    ∙ exec_loop-generation xs last closed (fuel - 18) (insert x.0 (trim x.1) m) h.1
        (omega (arith, enough))

assign-snoc :
    (xs : List (Text × Text)) (x : Text × Text) (m : GptGenerationMap)
    → assign (xs ++ x ∷ []) m ≡ insert x.0 (trim x.1) (assign xs m)
assign-snoc [] x m = refl
assign-snoc (y ∷ xs) x m = assign-snoc xs x (insert y.0 (trim y.1) m)

lookup-insert_self : (k v : Text) (m : GptGenerationMap) → lookup k (insert k v m) ≡ some v
unfolding lookup insert
lookup-insert_self k v [] = rw (text_eq_refl k) refl
lookup-insert_self k v ((j, w) ∷ m) = ground (arith, text_eq_refl k, lookup-insert_self k v m)

pub parse_generation_gpt-generation_text :
    (input : Text) (xs : List (Text × Text)) (last : Text × Text) (closed : Bool)
    → All IsChannel (xs ++ last ∷ [])
    → trim input ≡ generation_text xs last closed
    → (parse_generation_gpt input
        ≡ some (assign (xs ++ last ∷ []) ((lit "analysis", []) ∷ (lit "final", []) ∷ [])))
      × (lookup last.0 (assign (xs ++ last ∷ []) ((lit "analysis", []) ∷ (lit "final", []) ∷ []))
          ≡ some (trim last.1))
unfolding parse_generation_gpt
parse_generation_gpt-generation_text input xs last closed h e =
    let initial : GptGenerationMap = (lit "analysis", []) ∷ (lit "final", []) ∷ [] in
    (
      rw e (exec_loop-generation xs last closed _ initial h (omega arith)),
      ap (lookup last.0) (assign-snoc xs last initial)
          ∙ lookup-insert_self last.0 (trim last.1) (assign xs initial),
    )
