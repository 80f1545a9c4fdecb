-- ===== src/Chat/Messages/Laws.antt =====
-- What a stream of chunks makes of the messages.
use toolkit_inference_mesh.Common.{
  refl, ◌≡◌, ◌∙◌, Bool, true, false, Option, none, some, List, [], ◌∷◌, subst, ap, Bool-cases, inl,
  inr,
}
use toolkit_inference_mesh.Js.Text.{Text, text_eq}
use toolkit_inference_mesh.Js.Json.{Items, nil, cons}
use toolkit_inference_mesh.Chat.Messages.{
  ChatMessage, ok, delta_fields, ChunkInfo, add_delta, add_choices, reparse_last, update_messages,
  ok-injective, >>=-eq-ok, delta_text, reparse_if, done, finish_last,
}

abbrev pub IsSameAuthor : ChatMessage → ChatMessage → Type 0
IsSameAuthor m m' = (m'.id ≡ m.id) × (m'.role ≡ m.role)

-- The later list has every message but the last of the earlier one in its place, and in the last
-- one's place a message with its id and role.
abbrev pub Extends : List ChatMessage → List ChatMessage → Type 0
Extends [] ms' = Unit
Extends (m ∷ ms) [] = ⊥
Extends (m ∷ []) (m' ∷ ms') = IsSameAuthor m m'
Extends (m ∷ n ∷ ms) (m' ∷ ms') = (m' ≡ m) × Extends (n ∷ ms) ms'

pub Extends-refl : (ms : List ChatMessage) → Extends ms ms
Extends-refl [] = tt
Extends-refl (m ∷ []) = (refl, refl)
Extends-refl (m ∷ n ∷ ms) = (refl, Extends-refl (n ∷ ms))

Extends-trans : (a b c : List ChatMessage) → Extends a b → Extends b c → Extends a c
Extends-trans [] b c h k = tt
Extends-trans (m ∷ a) [] c h k = absurd h
Extends-trans (m ∷ a) (x ∷ b) [] h k = absurd k
Extends-trans (m ∷ []) (x ∷ []) (y ∷ c) h k = (k.0 ∙ h.0, k.1 ∙ h.1)
Extends-trans (m ∷ []) (x ∷ z ∷ b) (y ∷ c) h k =
    (ap (λ n. n.id) k.0 ∙ h.0, ap (λ n. n.role) k.0 ∙ h.1)
Extends-trans (m ∷ n ∷ a) (x ∷ []) (y ∷ c) h k = absurd h.1
Extends-trans (m ∷ n ∷ a) (x ∷ z ∷ b) (y ∷ c) h k =
    (k.0 ∙ h.0, Extends-trans (n ∷ a) (z ∷ b) c h.1 k.1)

add_delta-Extends :
    (info : ChunkInfo) (role delta : Text) (ms : List ChatMessage)
    → Extends ms (add_delta info role delta ms)
unfolding add_delta
add_delta-Extends info role delta [] = tt
add_delta-Extends info role delta (m ∷ []) = elim (Bool-cases (text_eq m.role role)) [
  | inl y ↦ rw y (refl, refl)
  | inr n ↦ rw n (refl, refl)
]
add_delta-Extends info role delta (m ∷ n ∷ ms) = (refl, add_delta-Extends info role delta (n ∷ ms))

reparse_last-Extends : (model : Text) (ms : List ChatMessage) → Extends ms (reparse_last model ms)
unfolding reparse_last
reparse_last-Extends model [] = tt
reparse_last-Extends model (m ∷ []) = (refl, refl)
reparse_last-Extends model (m ∷ n ∷ ms) = (refl, reparse_last-Extends model (n ∷ ms))

reparse_if-Extends :
    (changed : Bool) (model : Option Text) (ms : List ChatMessage)
    → Extends ms (reparse_if changed model ms)
reparse_if-Extends true (some model) ms = reparse_last-Extends model ms
reparse_if-Extends true none ms = Extends-refl ms
reparse_if-Extends false model ms = Extends-refl ms

add_choices-Extends :
    (info : ChunkInfo) (choices : Items) (ms : List ChatMessage) (changed : Bool)
    (next : List ChatMessage × Bool)
    → add_choices info choices (ms, changed) ≡ ok next
    → Extends ms next.0
unfolding add_choices
add_choices-Extends info nil ms changed next h =
    subst (λ n. Extends ms n.0) (ok-injective h) (Extends-refl ms)
add_choices-Extends info (cons choice choices) ms changed next h =
    let (fs, _, rest) = >>=-eq-ok (delta_fields choice) _ h in
    go (delta_text fs) (λ ns b. add_choices-Extends info choices ns b next) rest
  where
    go :
        (o : Option (Text × Text))
        → ((ns : List ChatMessage) (b : Bool)
            → add_choices info choices (ns, b) ≡ ok next
            → Extends ns next.0)
        → add_choices info choices (elim o [
          | none ↦ (ms, changed)
          | some (role, delta) ↦ (add_delta info role delta ms, true)
        ])
          ≡ ok next
        → Extends ms next.0
    go none ih h' = ih ms changed h'
    go (some (role, delta)) ih h' =
        Extends-trans ms (add_delta info role delta ms) next.0
          (add_delta-Extends info role delta ms) (ih (add_delta info role delta ms) true h')

-- The messages that stand before the last are never changed or lost by a chunk.
pub update_messages-Extends :
    (info : ChunkInfo) (model : Option Text) (choices : Items) (ms ms' : List ChatMessage)
    → update_messages info model choices ms ≡ ok ms'
    → Extends ms ms'
unfolding update_messages
update_messages-Extends info model choices ms ms' h =
    let (next, added, same) = >>=-eq-ok (add_choices info choices (ms, false)) _ h in
    Extends-trans ms next.0 ms' (add_choices-Extends info choices ms false next added)
      (subst (λ r. Extends next.0 r) (ok-injective same) (reparse_if-Extends next.1 model next.0))

-- The end of a stream goes through where there is a message.
pub finish_last_total :
    (m : ChatMessage) (ms : List ChatMessage)
    → (r : List ChatMessage) × (finish_last (m ∷ ms) ≡ ok r) × Extends (m ∷ ms) r
unfolding finish_last
finish_last_total m [] = (record m { status = done } ∷ [], refl, (refl, refl))
finish_last_total m (n ∷ ms) = let (r, e, x) = finish_last_total n ms in (m ∷ r, rw e, (refl, x))
