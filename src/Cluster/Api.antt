-- ===== src/Cluster/Api.antt =====
-- services/api.ts: the two calls of the scheduler, over what `response.json()` comes to, and the
-- stream of the cluster's status as the model list's loop and `init` use them. An answer is none
-- where `fetch` or the parsing of its body is rejected.
pub mod Laws
use toolkit_inference_mesh.Common.{Bool, false, Option, none, some, if◌then◌else◌, ℕ, List, map}
use toolkit_inference_mesh.Js.Text.{Text, lit, text_eq}
use toolkit_inference_mesh.Js.Json.{Json, str, obj, get, or_undef}
use toolkit_inference_mesh.Cluster.Config.{RawModel, load_models}
use toolkit_inference_mesh.Cluster.Status.{HostType}
use toolkit_inference_mesh.Cluster.Info.{ModelInfo}

-- `a === type`, for a text
abbrev pub is_text : Text → Option Json → Bool
is_text t (some (str s)) = text_eq s t
is_text t _ = false

-- `message.data`, where `message.type` is the one that is expected; `none` where it throws. The
-- value `null` has no properties, and other values than objects do not have this one.
unfoldable pub data_of_type : Text → Json → Option Json
unfolding get text_eq
data_of_type type (obj fields) =
    if is_text type (get (lit "type") fields)
    then some (or_undef (get (lit "data") fields))
    else none
data_of_type type _ = none

abbrev pub after_fetch : (Json → Option Json) → Option Json → Option Json
after_fetch f none = none
after_fetch f (some message) = f message

unfoldable pub get_model_list : Option Json → Option Json
unfolding data_of_type
get_model_list answer = after_fetch (data_of_type (lit "model_list")) answer

unfoldable pub init_scheduler : Option Json → Option Json
unfolding data_of_type
init_scheduler answer = after_fetch (data_of_type (lit "scheduler_init")) answer

-- The calls of `updateModelList` over the answers of the server; `raw_list` reads the data as the
-- array of models that its `map` takes, none where this throws.
module _ (raw_list : Json → Option (List RawModel)) where
  abbrev pub read_list : Option Json → Option (List RawModel)
  read_list none = none
  read_list (some data_json) = raw_list data_json

  unfoldable pub load_answers :
      HostType → List (Text × Text) → List (Option Json) → Option (List ModelInfo) × ℕ
  unfolding get_model_list
  load_answers host logo_url_map answers =
      load_models host logo_url_map (map (λ a. read_list (get_model_list a)) answers)
