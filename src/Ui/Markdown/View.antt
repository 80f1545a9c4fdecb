-- ===== src/Ui/Markdown/View.antt =====
-- What `ChatMarkdown` hands to the renderer (components/inputs/chat-markdown.tsx): the text, the
-- elements for the tags, and the plugins. `default_tags` are those of rehype-sanitize.
use toolkit_inference_mesh.Common.{
  ◌≡◌, refl, Bool, false, not, ◌||◌, List, [], ◌∷◌, filter, map, All, Bool-cases, inl, inr,
}
use toolkit_inference_mesh.Js.Text.{Text, lit, text_eq}
use toolkit_inference_mesh.Ui.Markdown.{preprocess_think, preprocess_math}

pub data Element : Type 0 where
  typography : (variant : Text) → Element
  divider table_in_container table_head table_body table_row table_cell : Element

-- `components`, by the tag's name.
abbrev pub components : List (Text × Element)
components =
    (lit "h1", typography (lit "h1"))
    ∷ (lit "h2", typography (lit "h2"))
    ∷ (lit "h3", typography (lit "h3"))
    ∷ (lit "h4", typography (lit "h4"))
    ∷ (lit "h5", typography (lit "h5"))
    ∷ (lit "h6", typography (lit "h6"))
    ∷ (lit "p", typography (lit "body1"))
    ∷ (lit "caption", typography (lit "caption"))
    ∷ (lit "hr", divider)
    ∷ (lit "table", table_in_container)
    ∷ (lit "thead", table_head)
    ∷ (lit "tbody", table_body)
    ∷ (lit "tr", table_row)
    ∷ (lit "th", table_cell)
    ∷ (lit "td", table_cell)
    ∷ []

abbrev pub block_list : List Text
block_list =
    lit "script" ∷ lit "iframe" ∷ lit "style" ∷ lit "form" ∷ lit "input" ∷ lit "textarea" ∷ []

-- `list.includes(tag)`
unfoldable pub lists : List Text → Text → Bool
unfolding text_eq
lists [] tag = false
lists (t ∷ ts) tag = text_eq t tag || lists ts tag

-- `schema.tagNames`
unfoldable pub tag_names : List Text → List Text
unfolding lists
tag_names default_tags = filter (λ tag. not (lists block_list tag)) default_tags

pub data Plugin : Type 0 where
  remark_gfm remark_math rehype_katex rehype_raw rehype_sanitize : Plugin

-- An entry of a list of plugins: a plugin, or a plugin with options, which may be plugins, or, as
-- `schema`, the tags of a schema.
pub data PluginOption : Type 0 where
  plugin_value : Plugin → PluginOption
  schema : List Text → PluginOption

pub record Pluggable : Type 0 where
  pub plugin : Plugin
  pub options : List PluginOption

-- What the renderer gets.
pub record Rendering : Type 0 where
  pub content : Text
  pub remark_plugins : List Pluggable
  pub rehype_plugins : List Pluggable

abbrev pub alone : Plugin → Pluggable
alone p = record { plugin = p; options = [] }

unfoldable pub chat_markdown : List Text → Text → Rendering
unfolding preprocess_think preprocess_math tag_names
chat_markdown default_tags content = record {
  content = preprocess_math (preprocess_think content);
  remark_plugins = alone remark_gfm ∷ alone remark_math ∷ [];
  rehype_plugins =
      alone rehype_katex
      ∷ alone rehype_raw
      ∷ record {
        plugin = remark_gfm;
        options =
            plugin_value remark_math
            ∷ plugin_value rehype_sanitize
            ∷ schema (tag_names default_tags)
            ∷ [];
      }
      ∷ [];
}

tag_names-lists :
    (default_tags : List Text) → All (λ t. lists block_list t ≡ false) (tag_names default_tags)
unfolding tag_names
tag_names-lists [] = tt
tag_names-lists (t ∷ ts) = elim (Bool-cases (lists block_list t)) [
  | inl y ↦ rw y (tag_names-lists ts)
  | inr n ↦ rw n (n, tag_names-lists ts)
]

-- The schema allows no tag of the block list, and yet the plugins that run over the HTML are three,
-- and the one that sanitizes is none of them: it is an option of another.
plugins-run :
    (default_tags : List Text) (content : Text)
    → All (λ t. lists block_list t ≡ false) (tag_names default_tags)
      × (map (λ p. p.plugin) (chat_markdown default_tags content).rehype_plugins
          ≡ rehype_katex ∷ rehype_raw ∷ remark_gfm ∷ [])
unfolding chat_markdown
plugins-run default_tags content = (tag_names-lists default_tags, refl)
