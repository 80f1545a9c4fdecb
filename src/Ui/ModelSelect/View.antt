-- ===== src/Ui/ModelSelect/View.antt =====
-- What `ModelSelect` renders (components/inputs/model-select.tsx): the chosen model, and the mark of
-- an option.
pub mod Laws
use toolkit_inference_mesh.Common.{Bool, true, false, Option, none, some, List, find}
use toolkit_inference_mesh.Js.Text.{Text, text_eq}
use toolkit_inference_mesh.Cluster.Status.{HostType}
use toolkit_inference_mesh.Cluster.Info.{ModelInfo}
use toolkit_inference_mesh.Ui.ModelSelect.{ModelOption}

pub data SelectVariant : Type 0 where
  outlined text_variant : SelectVariant

-- A row with the logo and two names, or a plain text.
pub data Value : Type 0 where
  row : (logo_url display_name name : Text) → Value
  plain : Text → Value

abbrev pub value_of : SelectVariant → Text → Option ModelInfo → Value
value_of variant value none = plain value
value_of outlined value (some m) = row m.logo_url m.display_name m.name
value_of text_variant value (some m) = plain m.name

-- `renderValue`
unfoldable pub render_value : SelectVariant → List ModelInfo → Text → Value
unfolding text_eq
render_value variant models value = value_of variant value (find (λ m. text_eq m.name value) models)

pub data StatusMark : Type 0 where
  loader check : StatusMark

-- `(loading && <IconLoader />) || (selected && <IconCheck />)`
abbrev pub mark_of : (loading selected : Bool) → Option StatusMark
mark_of true selected = some loader
mark_of false true = some check
mark_of false false = none

abbrev pub extra_status : ModelOption → Option StatusMark
extra_status o = mark_of o.loading o.selected

-- The select of a node's page is read only, and has no arrow.
abbrev pub is_read_only : HostType → Bool
is_read_only HostType.node_host = true
is_read_only HostType.cluster_host = false
