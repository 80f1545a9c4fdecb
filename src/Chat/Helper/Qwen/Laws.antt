-- ===== src/Chat/Helper/Qwen/Laws.antt =====
-- How the loop over <think> tags ends, and what it yields.
use toolkit_inference_mesh.Common.{
  length, take, drop, length-append, drop-append, take-append, take_all, ℕ, zero, suc, ◌+◌, ◌≤◌,
  ◌<◌, ◌≡◌, true, ◌++◌, arith, ltb, if◌then◌else◌, Bool-cases, take-append-drop, ◌-◌, min, max,
  refl, sym, ap, ◌∙◌, inl, inr, Option, none, some, [], length-take, append_assoc, append-nil,
  Option-cases,
}
use toolkit_inference_mesh.Js.Text.{
  Text, starts_with, substring, index_of, replace_first, lit, trim,
}
use toolkit_inference_mesh.Chat.Helper.Qwen.{
  think_tag_open, think_tag_close, closes_after, think_stop, pattern_at, think_at, think_loop,
  parse_generation_qwen,
}
use toolkit_inference_mesh.Js.Text.Laws.{
  index_of-some, starts_with-append, index_of-occurs, length-replace_first,
}

-- Behind the start of an opening tag, the first seven characters start no closing tag.
no_close_inside :
    (k : ℕ) (x : Text)
    → 0 < k
    → starts_with think_tag_close (drop k (think_tag_open ++ x)) ≡ true
    → 7 ≤ k
unfolding starts_with
no_close_inside zero x p h = absurd (omega arith)
no_close_inside (suc zero) x p h = cc
no_close_inside (suc (suc zero)) x p h = cc
no_close_inside (suc (suc (suc zero))) x p h = cc
no_close_inside (suc (suc (suc (suc zero)))) x p h = cc
no_close_inside (suc (suc (suc (suc (suc zero))))) x p h = cc
no_close_inside (suc (suc (suc (suc (suc (suc zero)))))) x p h = cc
no_close_inside (suc (suc (suc (suc (suc (suc (suc k))))))) x p h = omega arith

-- A round takes out a text that stands at the first opening tag.
module _ (u x : Text) where
  abbrev here : Text
  here = u ++ (think_tag_open ++ x)

  length-here : length here ≡ length u + (7 + length x)
  length-here = omega (arith, length-append u (think_tag_open ++ x))

  think_to_end : substring (length u + 7) (length here) here ≡ x
  unfolding substring
  think_to_end =
      rw
        (take_all (max (min (length u + 7) (length here)) (min (length here) (length here))) here
          (omega arith))
        (drop-append (min (min (length u + 7) (length here)) (min (length here) (length here))) 7 u
          (think_tag_open ++ x) (omega (arith, length-here)))

  pub think_to_close :
      (k : ℕ)
      → length u + (7 + k) ≤ length here
      → substring (length u + 7) (length u + (7 + k)) here ≡ take k x
  unfolding substring
  think_to_close k h =
      rw
        (take-append
          (max (min (length u + 7) (length here)) (min (length u + (7 + k)) (length here)))
          (suc (suc (suc (suc (suc (suc (suc k))))))) u (think_tag_open ++ x) (omega arith))
        (drop-append
          (min (min (length u + 7) (length here)) (min (length u + (7 + k)) (length here))) 7 u
          (think_tag_open ++ take k x) (omega arith))

  close_is_far :
      (stop : ℕ)
      → index_of think_tag_close here ≡ some stop
      → length u < stop
      → (k : ℕ) × (v : Text) × (stop ≡ length u + (7 + k))
        × (x ≡ take k x ++ (think_tag_close ++ v))
  close_is_far stop h lt =
      let (u', v, e, len) = index_of-some think_tag_close here stop h in
      let k = stop - length u in
      let at : drop stop here ≡ think_tag_close ++ v =
        ap (drop stop) e ∙ drop-append stop 0 u' (think_tag_close ++ v) (omega arith) in
      let at_x : drop stop here ≡ drop k (think_tag_open ++ x) =
        drop-append stop k u (think_tag_open ++ x) (omega arith) in
      let far : 7 ≤ k =
        no_close_inside k x (omega arith)
          (rw (sym at_x ∙ at) (starts_with-append think_tag_close v)) in
      let tail : drop (k - 7) x ≡ think_tag_close ++ v =
        sym (drop-append k (k - 7) think_tag_open x (omega arith)) ∙ sym at_x ∙ at in
      (k - 7, v, omega arith, sym (take-append-drop (k - 7) x) ∙ ap (λ t. take (k - 7) x ++ t) tail)

  pattern-occurs : (v : Text) × (here ≡ u ++ (pattern_at (length u) here ++ v))
  unfolding pattern_at
  pattern-occurs = go (index_of think_tag_close here) refl
    where
      go :
          (o : Option ℕ)
          → index_of think_tag_close here ≡ o
          → (v : Text) × (here
              ≡ u
                ++ (think_tag_open
                    ++ (substring (length u + 7) (think_stop o (length u) here) here
                        ++ (if closes_after o (length u) then think_tag_close else []))
                    ++ v))
      go none h = ([], rw think_to_end (simp append-nil))
      go (some stop) h = elim (Bool-cases (ltb (length u) stop)) [
        | inr n ↦ ([], rw n (rw think_to_end (simp append-nil)))
        | inl y ↦
            let (k, v, far, e) = close_is_far stop h (ground arith) in
            let within : length u + (7 + k) ≤ length here = omega (
              arith,
              length-here,
              ap length e,
              length-append (take k x) (think_tag_close ++ v),
              length-take k x,
            ) in
            let th : substring (length u + 7) stop here ≡ take k x =
              ap (λ n. substring (length u + 7) n here) far ∙ think_to_close k within in
            (
              v,
              rw y (
                  rw th (
                    ap (λ t. u ++ (think_tag_open ++ t))
                      (e ∙ sym (append_assoc (take k x) think_tag_close v)))),
            )
      ]

length-pattern_at : (start : ℕ) (buffer : Text) → 7 ≤ length (pattern_at start buffer)
unfolding pattern_at
length-pattern_at start buffer = omega arith

-- A round makes the buffer shorter.
round_shrinks :
    (start : ℕ) (buffer : Text)
    → index_of think_tag_open buffer ≡ some start
    → length (replace_first (pattern_at start buffer) [] buffer) < length buffer
round_shrinks start buffer h =
    let (u, x, e, len) = index_of-some think_tag_open buffer start h in
    let (v, occurs) = pattern-occurs u x in
    let p = pattern_at start buffer in
    let same : buffer ≡ u ++ (p ++ v) =
      e ∙ occurs ∙ ap (λ t. u ++ (t ++ v)) (λ i. pattern_at (len i) (sym e i)) in
    let (i, found) = index_of-occurs p u v in
    let shorter = length-replace_first p buffer i (ap (index_of p) same ∙ found) in
    omega (arith, shorter, length-pattern_at start buffer)

-- The loop with more fuel than characters ends, and leaves no opening tag.
think_loop_total :
    (fuel : ℕ) (buffer think : Text)
    → length buffer < fuel
    → (r : Text × Text) × (think_loop fuel buffer think ≡ some r)
      × (index_of think_tag_open r.0 ≡ none)
unfolding think_loop
think_loop_total zero buffer think h = absurd (omega arith)
think_loop_total (suc fuel) buffer think h = elim (Option-cases (index_of think_tag_open buffer)) [
  | inl e ↦ ((buffer, think), rw (e, think_loop), e)
  | inr (start, e) ↦
      rw (e, think_loop)
        (think_loop_total fuel (replace_first (pattern_at start buffer) [] buffer)
          (think ++ (lit "\n\n" ++ think_at start buffer))
          (omega (arith, round_shrinks start buffer e)))
]

-- `parseGenerationQwen` returns on every text: its loop ends. The content is, but for white space
-- at its ends, a text without any opening tag.
pub parse_generation_qwen_total :
    (input : Text)
    → (rest : Text) × (think : Text) × (parse_generation_qwen input
        ≡ some (record { think = trim think; content = trim rest }))
      × (index_of think_tag_open rest ≡ none)
unfolding parse_generation_qwen
parse_generation_qwen_total input =
    let (r, e, clean) =
      think_loop_total (suc (length (trim input))) (trim input) [] (omega arith) in
    (r.0, r.1, rw e, clean)
