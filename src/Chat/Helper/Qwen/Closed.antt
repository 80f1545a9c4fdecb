-- ===== src/Chat/Helper/Qwen/Closed.antt =====
-- What the parser makes of a generation with one thinking block that is closed.
use mathlib.Core.Option
use toolkit_inference_mesh.Common.{
  length, drop, length-append, take-append, ℕ, suc, ◌+◌, ◌≡◌, true, ◌++◌, arith, sym, ap, ◌∙◌, none,
  some, [], append_assoc, append-nil,
}
use toolkit_inference_mesh.Js.Text.{
  Text, starts_with, substring, index_of, replace_first, lit, trim,
}
use toolkit_inference_mesh.Chat.Helper.Qwen.{
  think_tag_open, think_tag_close, closes_after, think_stop, pattern_at, think_at, think_loop,
  parse_generation_qwen,
}
use toolkit_inference_mesh.Js.Text.Laws.{
  Lacks, index_of_lacking, index_of-append, index_of-prefix, replace_first-prefix,
}
use toolkit_inference_mesh.Chat.Helper.Qwen.Laws.{think_to_close}

abbrev pub lt_sign : ℕ
lt_sign = 60

-- The two tags round a text without '<'.
close_index :
    (a w : Text)
    → Lacks lt_sign a
    → index_of think_tag_close (think_tag_open ++ (a ++ (think_tag_close ++ w)))
      ≡ some (7 + length a)
unfolding index_of starts_with
close_index a w h =
    rw (index_of-append lt_sign (drop 1 think_tag_close) a w h) (ap some (omega arith))

no_close_index :
    (a : Text) → Lacks lt_sign a → index_of think_tag_close (think_tag_open ++ a) ≡ none
unfolding index_of starts_with
no_close_index a h = rw (index_of_lacking lt_sign (drop 1 think_tag_close) a h)

think_loop-step :
    (fuel start : ℕ) (buffer think : Text)
    → index_of think_tag_open buffer ≡ some start
    → think_loop (suc fuel) buffer think
      ≡ think_loop fuel
          (replace_first (pattern_at start buffer) [] buffer)
          (think ++ (lit "\n\n" ++ think_at start buffer))
unfolding think_loop
think_loop-step fuel start buffer think h = rw (h, think_loop)

think_loop-done :
    (fuel : ℕ) (buffer think : Text)
    → index_of think_tag_open buffer ≡ none
    → think_loop (suc fuel) buffer think ≡ some (buffer, think)
unfolding think_loop
think_loop-done fuel buffer think h = rw (h, think_loop)

-- One round over a closed block.
module _ (a w : Text) (ha : Lacks lt_sign a) where
  abbrev closed : Text
  closed = think_tag_open ++ (a ++ (think_tag_close ++ w))

  stop-closed : think_stop (index_of think_tag_close closed) 0 closed ≡ 0 + (7 + length a)
  stop-closed = rw (close_index a w ha) (ground arith)

  think_at-closed : think_at 0 closed ≡ a
  unfolding think_at
  think_at-closed =
      ap (λ n. substring 7 n closed) stop-closed
      ∙ think_to_close [] (a ++ (think_tag_close ++ w)) (length a)
          (omega (arith, length-append a (think_tag_close ++ w)))
      ∙ take-append (length a) 0 a (think_tag_close ++ w) (omega arith)
      ∙ append-nil a

  pattern_at-closed : pattern_at 0 closed ≡ think_tag_open ++ (a ++ think_tag_close)
  unfolding pattern_at
  pattern_at-closed =
      let goes : closes_after (index_of think_tag_close closed) 0 ≡ true =
        rw (close_index a w ha) (ground arith) in
      rw (think_at-closed, goes)

  replace-closed : replace_first (pattern_at 0 closed) [] closed ≡ w
  replace-closed =
      let p = think_tag_open ++ (a ++ think_tag_close) in
      ap (λ q. replace_first q [] closed) pattern_at-closed
      ∙ ap (λ t. replace_first p [] (think_tag_open ++ t)) (sym (append_assoc a think_tag_close w))
      ∙ replace_first-prefix p [] w

  -- A thinking block without '<' in it, and then a content without '<': the two parts are returned,
  -- trimmed, where the text as a whole is trimmed to that form.
  pub parse_generation_qwen-closed :
      (input : Text)
      → trim input ≡ closed
      → Lacks lt_sign w
      → parse_generation_qwen input
        ≡ some (record { think = trim (lit "\n\n" ++ a); content = trim w })
  unfolding parse_generation_qwen
  parse_generation_qwen-closed input e hw = rw e (
      ap (Option.map (λ r. record { think = trim r.1; content = trim r.0 })) (
        think_loop-step (length closed) 0 closed []
          (index_of-prefix think_tag_open (a ++ (think_tag_close ++ w)))
        ∙ ap (λ b. think_loop (length closed) b (lit "\n\n" ++ think_at 0 closed)) replace-closed
        ∙ ap (λ t. think_loop (length closed) w (lit "\n\n" ++ t)) think_at-closed
        ∙ think_loop-done (length (drop 1 closed)) w (lit "\n\n" ++ a)
            (index_of_lacking lt_sign (drop 1 think_tag_open) w hw)))
