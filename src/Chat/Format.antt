-- ===== src/Chat/Format.antt =====
-- The ways in which the models write an answer, as `onMessage` of services/chat.tsx tells them apart
-- by the model's name.
use toolkit_inference_mesh.Common.{◌≡◌, refl, Bool, true, false, [], ◌∷◌, ◌++◌, ◌∙◌}
use toolkit_inference_mesh.Js.Text.{
  Text, lit, trim, trim_start, is_space, includes, to_lower_case, text_eq,
}
use toolkit_inference_mesh.Js.Text.Laws.{Lacks}
use toolkit_inference_mesh.Chat.Messages.{split_generation}
use toolkit_inference_mesh.Chat.Helper.Gpt.{lookup, insert}
use toolkit_inference_mesh.Chat.Helper.Gpt.Laws.{
  IsChannel, generation_text, parse_generation_gpt-generation_text,
}
use toolkit_inference_mesh.Chat.Helper.Qwen.{think_tag_open, think_tag_close}
use toolkit_inference_mesh.Chat.Helper.Qwen.Closed.{lt_sign, parse_generation_qwen-closed}

-- What the rest of the chat needs to know of a model: which raw texts stand for a thinking and a
-- content, and that these are what such a text is taken apart into.
pub record Format (model : Text) : Type 1 where
  pub IsWritten : Text → Text → Text → Type 0
  pub splits :
      (raw think text : Text)
      → IsWritten raw think text
      → split_generation model raw ≡ (think, text)

-- The two channels of a generation.
abbrev pub two_channels : Text → Text → Bool → Text
two_channels think text ended =
    generation_text ((lit "analysis", think) ∷ []) (lit "final", text) ended

-- A raw text of two channels with the bodies `t` and `c`.
pub record InChannels (raw think text : Text) : Type 0 where
  pub t : Text
  pub c : Text
  pub ended : Bool
  pub analysis : IsChannel (lit "analysis", t)
  pub final : IsChannel (lit "final", c)
  pub written : trim raw ≡ two_channels t c ended
  pub is_think : trim t ≡ think
  pub is_text : trim c ≡ text

-- A raw text of a thinking block that is closed and a content.
pub record InTags (raw think text : Text) : Type 0 where
  pub t : Text
  pub c : Text
  pub no_tag : Lacks lt_sign t
  pub no_tag_after : Lacks lt_sign c
  pub written : trim raw ≡ think_tag_open ++ (t ++ (think_tag_close ++ c))
  pub is_think : trim t ≡ think
  pub is_text : trim c ≡ text

pub splits_gpt :
    (model raw think text : Text)
    → includes (lit "gpt-oss") (to_lower_case model) ≡ true
    → InChannels raw think text
    → split_generation model raw ≡ (think, text)
unfolding split_generation
splits_gpt model raw think text m w =
    let (parsed, last) =
      parse_generation_gpt-generation_text raw ((lit "analysis", w.t) ∷ []) (lit "final", w.c)
        w.ended (w.analysis, (w.final, tt)) w.written in
    rw (m, parsed) (unfold lookup insert text_eq in λ i. (w.is_think i, w.is_text i))

trim_breaks : (t : Text) → trim (lit "\n\n" ++ t) ≡ trim t
unfolding trim trim_start is_space
trim_breaks t = refl

pub splits_qwen :
    (model raw think text : Text)
    → includes (lit "gpt-oss") (to_lower_case model) ≡ false
    → includes (lit "qwen") (to_lower_case model) ≡ true
    → InTags raw think text
    → split_generation model raw ≡ (think, text)
unfolding split_generation
splits_qwen model raw think text g m w =
    rw (g, m, parse_generation_qwen-closed w.t w.c w.no_tag raw w.written w.no_tag_after)
      (λ i. ((trim_breaks w.t ∙ w.is_think) i, w.is_text i))

pub splits_plain :
    (model raw think text : Text)
    → includes (lit "gpt-oss") (to_lower_case model) ≡ false
    → includes (lit "qwen") (to_lower_case model) ≡ false
    → (think ≡ []) × (text ≡ raw)
    → split_generation model raw ≡ (think, text)
unfolding split_generation
splits_plain model raw think text g m (e, f) = rw (g, m, e, f) refl

abbrev pub gpt_format :
    (model : Text) → includes (lit "gpt-oss") (to_lower_case model) ≡ true → Format model
gpt_format model m = record {
  IsWritten = InChannels;
  splits = λ raw think text. splits_gpt model raw think text m;
}

abbrev pub qwen_format :
    (model : Text)
    → includes (lit "gpt-oss") (to_lower_case model) ≡ false
    → includes (lit "qwen") (to_lower_case model) ≡ true
    → Format model
qwen_format model g m = record {
  IsWritten = InTags;
  splits = λ raw think text. splits_qwen model raw think text g m;
}

-- Any other model writes a content and no thinking.
abbrev pub plain_format :
    (model : Text)
    → includes (lit "gpt-oss") (to_lower_case model) ≡ false
    → includes (lit "qwen") (to_lower_case model) ≡ false
    → Format model
plain_format model g m = record {
  IsWritten = λ raw think text. (think ≡ []) × (text ≡ raw);
  splits = λ raw think text. splits_plain model raw think text g m;
}
