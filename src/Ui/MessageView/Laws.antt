-- ===== src/Ui/MessageView/Laws.antt =====
-- What the button to regenerate an answer does.
use toolkit_inference_mesh.Common.{
  ◌≡◌, refl, true, false, Option, some, List, ◌∷◌, ◌++◌, none, Bool-cases, ap, inl, inr, [], map,
  arith,
}
use toolkit_inference_mesh.Js.Text.{text_eq, Text, is_empty, split}
use toolkit_inference_mesh.Chat.Messages.{ChatMessage, user, assistant, ChatStates}
use toolkit_inference_mesh.Chat.Actions.{
  cut_at, id_eq, Env, is_busy, to_request, send, regenerate, generate,
}
use toolkit_inference_mesh.Js.Text.Laws.{text_eq_refl, text_eq_iff}
use toolkit_inference_mesh.Ui.MessageView.{show_regenerate}
use toolkit_inference_mesh.Cluster.Status.{is_available}

id_eq_refl : (id : Option Text) → id_eq id id ≡ true
unfolding id_eq
id_eq_refl none = refl
id_eq_refl (some t) = text_eq_refl t

-- An answer that is there is found, and what is kept is a beginning of the messages before it.
cut_at_found :
    (before after : List ChatMessage) (m : ChatMessage)
    → text_eq m.role user ≡ false
    → (kept : List ChatMessage) × (rest : List ChatMessage) × (before ≡ kept ++ rest)
      × (cut_at m.id (before ++ m ∷ after) ≡ some kept)
unfolding cut_at
cut_at_found [] after m a = ([], [], refl, rw (id_eq_refl m.id, a) refl)
cut_at_found (b ∷ before) after m a =
    let (kept, rest, e, found) = cut_at_found before after m a in
    elim (Bool-cases (id_eq b.id m.id)) [
      | inl y ↦ elim (Bool-cases (text_eq b.role user)) [
        | inl u ↦ (b ∷ [], before, refl, rw (y, u) refl)
        | inr n ↦ ([], b ∷ before, refl, rw (y, n) refl)
      ]
      | inr n ↦ (b ∷ kept, rest, ap (λ t. b ∷ t) e, rw (n, found) refl)
    ]

not_user : (m : ChatMessage) → show_regenerate m ≡ true → text_eq m.role user ≡ false
unfolding show_regenerate
not_user m h = elim (Bool-cases (text_eq m.role assistant)) [
  | inl y ↦ rw ((text_eq_iff m.role assistant).0 y) (unfold text_eq in refl)
  | inr n ↦ ground arith
]

-- Where an answer shows the button to regenerate, the cluster is available, a model is chosen and
-- nothing is being generated, a click on it sends a request: the messages of the request are a
-- beginning of those that stand before the answer.
pub regenerate_sends :
    (env : Env) (s : ChatStates) (before after : List ChatMessage) (m : ChatMessage)
    → s.messages ≡ before ++ m ∷ after
    → show_regenerate m ≡ true
    → is_available env.cluster_status ≡ true
    → is_busy s.status ≡ false
    → is_empty env.model_name ≡ false
    → (kept : List ChatMessage) × (rest : List ChatMessage) × (before ≡ kept ++ rest)
      × ((generate env (some (m.id)) s).1
          ≡ some (record { model = env.model_name; messages = map to_request kept }))
unfolding generate regenerate send
regenerate_sends env s before after m e shown a b n =
    let (kept, rest, split, found) = cut_at_found before after m (not_user m shown) in
    (kept, rest, split, rw (a, b, n, e, found) refl)
