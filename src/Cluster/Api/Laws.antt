-- ===== src/Cluster/Api/Laws.antt =====
-- The answers of the server, and what comes of them.
use toolkit_inference_mesh.Common.{
  ◌≡◌, refl, ◌∙◌, ap, Bool, true, false, Option, none, some, List, [], ◌∷◌, ◌++◌, map, All, length,
  suc, replicate, map-append, arith,
}
use toolkit_inference_mesh.Js.Text.{Text, lit}
use toolkit_inference_mesh.Js.Json.{Json, obj, Fields, get}
use toolkit_inference_mesh.Cluster.Config.{RawModel, to_model_info, load_models, update_model_list}
use toolkit_inference_mesh.Cluster.Config.Laws.{update_model_list-first}
use toolkit_inference_mesh.Cluster.Status.{HostType}
use toolkit_inference_mesh.Cluster.Api.{
  is_text, get_model_list, load_answers, read_list, data_of_type,
}

-- An answer with a message of a type.
abbrev pub has_type : Text → Option Json → Bool
has_type type (some (obj fields)) = is_text type (get (lit "type") fields)
has_type type _ = false

get_model_list_other :
    (a : Option Json) → has_type (lit "model_list") a ≡ false → get_model_list a ≡ none
unfolding get_model_list data_of_type
get_model_list_other none h = refl
get_model_list_other (some (obj fields)) h = rw h refl
get_model_list_other (some j) h = ground arith

module _ (raw_list : Json → Option (List RawModel)) where
  read_others :
      (bad : List (Option Json))
      → All (λ a. has_type (lit "model_list") a ≡ false) bad
      → map (λ a. read_list raw_list (get_model_list a)) bad ≡ replicate (length bad) none
  read_others [] h = refl
  read_others (a ∷ bad) (h, hs) = rw (get_model_list_other a h, read_others bad hs) refl

  -- The first answer that is a message of the type `model_list`, with data that read as models, sets
  -- the list to these models, each with its name, its logo and its memory; the answers before it, of
  -- another type or rejected, are each followed by a wait and another call; and what follows is not
  -- asked for. The page of a node asks for nothing.
  pub load_answers_first :
      (urls : List (Text × Text)) (bad rest : List (Option Json)) (fields : Fields)
      (data_json : Json) (raw : List RawModel)
      → All (λ a. has_type (lit "model_list") a ≡ false) bad
      → has_type (lit "model_list") (some (obj fields)) ≡ true
      → get (lit "data") fields ≡ some data_json
      → raw_list data_json ≡ some raw
      → (load_answers raw_list HostType.cluster_host urls (bad ++ some (obj fields) ∷ rest)
          ≡ (some (map (to_model_info urls) raw), suc (length bad)))
        × (load_answers raw_list HostType.node_host urls (bad ++ some (obj fields) ∷ rest)
            ≡ (none, 0))
  unfolding load_answers load_models get_model_list data_of_type
  load_answers_first urls bad rest fields data_json raw h t d r =
      let read : Option Json → Option (List RawModel) =
        λ a. read_list raw_list (get_model_list a) in
      let good : read (some (obj fields)) ≡ some raw = rw (t, d, r) refl in
      let answers : map read (bad ++ some (obj fields) ∷ rest)
          ≡ replicate (length bad) none ++ some raw ∷ map read rest =
        map-append read bad (some (obj fields) ∷ rest) ∙ rw (read_others bad h, good) refl in
      (
        ap (update_model_list urls) answers
            ∙ update_model_list-first urls (length bad) raw (map read rest),
        refl,
      )
