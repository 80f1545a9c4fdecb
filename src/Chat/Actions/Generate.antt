-- ===== src/Chat/Actions/Generate.antt =====
-- What `generate` sends, and what it keeps of the messages.
use mathlib.Core.Option
use toolkit_inference_mesh.Common.{
  refl, ◌≡◌, ap, ◌∙◌, ◌≢◌, true, Option, some, List, [], ◌∷◌, ◌++◌, Bool-cases, inl, inr, not, ◌||◌,
  none, eq_of_some, false,
}
use toolkit_inference_mesh.Js.Text.{Text, is_some, text_eq, is_empty, trim}
use toolkit_inference_mesh.Chat.Messages.{ChatMessage, user, ChatStates}
use toolkit_inference_mesh.Chat.Actions.{
  Env, is_busy, cut_at, generate, Request, is_available, id_eq, user_message, generate_new,
  regenerate, send,
}
use toolkit_inference_mesh.Js.Text.Laws.{text_eq_iff}

abbrev pub StartsWithUser : List ChatMessage → Type 0
StartsWithUser [] = Unit
StartsWithUser (m ∷ ms) = m.role ≡ user

pub StartsWithUser-append :
    (ms : List ChatMessage) (m : ChatMessage)
    → StartsWithUser ms
    → m.role ≡ user
    → StartsWithUser (ms ++ m ∷ []) × (ms ++ m ∷ [] ≢ [])
StartsWithUser-append [] m h k = (k, λ e. cc)
StartsWithUser-append (n ∷ ms) m h k = (h, λ e. cc)

-- Regenerating keeps a beginning of the messages.
pub cut_at-prefix :
    (id : Option Text) (ms kept : List ChatMessage)
    → cut_at id ms ≡ some kept
    → (rest : List ChatMessage) × (ms ≡ kept ++ rest)
unfolding cut_at
cut_at-prefix id [] kept h = cc
cut_at-prefix id (m ∷ ms) kept h = elim (Bool-cases (id_eq m.id id)) [
  | inl y ↦ elim (Bool-cases (text_eq m.role user)) [
    | inl u ↦ (ms, ap (λ k. k ++ ms) (eq_of_some (rw (y, u) at h)))
    | inr a ↦ (m ∷ ms, ap (λ k. k ++ m ∷ ms) (eq_of_some (rw (y, a) at h)))
  ]
  | inr n ↦
      let (k, found, same) = (Option.map-eq-some_iff _ (cut_at id ms)).0 (rw n at h) in
      let (rest, e) = cut_at-prefix id ms k found in
      (rest, ap (λ t. m ∷ t) e ∙ ap (λ t. t ++ rest) same)
]

-- It keeps the user's first message.
pub cut_at-starts :
    (id : Option Text) (ms kept : List ChatMessage)
    → cut_at id ms ≡ some kept
    → StartsWithUser ms
    → StartsWithUser kept × (kept ≢ [])
unfolding cut_at
cut_at-starts id [] kept h k = cc
cut_at-starts id (m ∷ ms) kept h k = elim (Bool-cases (id_eq m.id id)) [
  | inl y ↦
      let e : m ∷ [] ≡ kept = eq_of_some (rw (y, (text_eq_iff m.role user).1 k) at h) in
      rw (← e) (k, λ z. cc)
  | inr n ↦
      let (t, found, same) = (Option.map-eq-some_iff _ (cut_at id ms)).0 (rw n at h) in
      rw (← same) (k, λ z. cc)
]

-- What a call of `generate` leaves: with a request there are messages, without one all is as it was.
pub record Generated (s : ChatStates) (r : ChatStates × Option Request) : Type 0 where
  pub starts : StartsWithUser r.0.messages
  pub sent : is_some r.1 ≡ true → r.0.messages ≢ []
  pub unsent : is_some r.1 ≡ false → r.0 ≡ s

unsent_Generated : (s : ChatStates) → StartsWithUser s.messages → Generated s (s, none)
unsent_Generated s h = record { starts = h; sent = λ z. cc; unsent = λ z. refl }

sent_Generated :
    (env : Env) (s t : ChatStates) (ms : List ChatMessage)
    → StartsWithUser ms × (ms ≢ [])
    → Generated s (send env ms t)
unfolding send
sent_Generated env s t ms (h, n) = record { starts = h; sent = λ z. n; unsent = λ z. cc }

generate_new-Generated :
    (env : Env) (s : ChatStates) → StartsWithUser s.messages → Generated s (generate_new env s)
unfolding generate_new
generate_new-Generated env s h = elim (Bool-cases (is_empty (trim s.input))) [
  | inl y ↦ rw y (unsent_Generated s h)
  | inr n ↦ rw n (
      sent_Generated env s (record s { input = [] }) _
        (StartsWithUser-append s.messages (user_message env (trim s.input)) h refl))
]

regenerate-Generated :
    (env : Env) (o : Option (List ChatMessage)) (s : ChatStates)
    → StartsWithUser s.messages
    → ((kept : List ChatMessage) → o ≡ some kept → StartsWithUser kept × (kept ≢ []))
    → Generated s (regenerate env o s)
unfolding regenerate
regenerate-Generated env none s h k = unsent_Generated s h
regenerate-Generated env (some kept) s h k = sent_Generated env s s kept (k kept refl)

pub generate-Generated :
    (env : Env) (message : Option (Option Text)) (s : ChatStates)
    → StartsWithUser s.messages
    → Generated s (generate env message s)
unfolding generate
generate-Generated env message s h =
    elim (Bool-cases (not (is_available env.cluster_status) || is_busy s.status)) [
      | inl y ↦ rw y (unsent_Generated s h)
      | inr n ↦ rw n (elim (Bool-cases (is_empty env.model_name)) [
        | inl y ↦ rw y (unsent_Generated s h)
        | inr k ↦ rw k (go message)
      ])
    ]
  where
    go :
        (m : Option (Option Text))
        → Generated s (elim m [
          | none ↦ generate_new env s
          | some id ↦ regenerate env (cut_at id s.messages) s
        ])
    go none = generate_new-Generated env s h
    go (some id) =
        regenerate-Generated env (cut_at id s.messages) s h
          (λ kept e. cut_at-starts id s.messages kept e h)
