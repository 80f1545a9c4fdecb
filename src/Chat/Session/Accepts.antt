-- ===== src/Chat/Session/Accepts.antt =====
-- Whether a message is accepted, in any state of the chat.
use toolkit_inference_mesh.Common.{false, ◌≡◌, refl, Bool, List, Option, none, some}
use toolkit_inference_mesh.Js.Result.{Result, ok, throws, ◌>>=◌}
use toolkit_inference_mesh.Js.Json.{Json, Items, nil, cons, Fields}
use toolkit_inference_mesh.Stream.Sse.Lines.{Message}
use toolkit_inference_mesh.Stream.Sse.Connection.{Callback}
use toolkit_inference_mesh.Chat.Messages
use toolkit_inference_mesh.Chat.Messages.{
  ChatMessage, ChatStates, ChunkInfo, add_choices, delta_fields, fields_of, chunk_choices,
  update_messages, first_content, on_choices,
}
use toolkit_inference_mesh.Chat.Actions.Invariant.{start}
use toolkit_inference_mesh.Chat.Session.{is_ok, accepts, apply_callback, payload_of}

-- A step goes through where it returns and what follows it goes through.
is_ok-bind :
    {A : Type 0} {B : Type 0} {C : Type 0} (r : Result A) (f : A → Result B) (g : A → Result C)
    → ((a : A) → is_ok (f a) ≡ is_ok (g a))
    → is_ok (r >>= f) ≡ is_ok (r >>= g)
is_ok-bind throws f g h = refl
is_ok-bind (ok a) f g h = h a

is_ok-return :
    {A : Type 0} {B : Type 0} {C : Type 0} {D : Type 0} (r : Result A) (q : Result B) (f : A → C)
    (g : B → D)
    → is_ok r ≡ is_ok q
    → is_ok (r >>= λ a. ok (f a)) ≡ is_ok (q >>= λ b. ok (g b))
is_ok-return throws throws f g h = refl
is_ok-return (ok a) (ok b) f g h = refl
is_ok-return throws (ok b) f g h = h
is_ok-return (ok a) throws f g h = h

add_choices-is_ok :
    (info : ChunkInfo) (choices : Items) (one other : List ChatMessage × Bool)
    → is_ok (add_choices info choices one) ≡ is_ok (add_choices info choices other)
unfolding add_choices
add_choices-is_ok info nil one other = refl
add_choices-is_ok info (cons choice choices) (ms, b) (ms', b') =
    is_ok-bind (delta_fields choice) _ _ (λ fs. add_choices-is_ok info choices _ _)

on_choices-is_ok :
    (fs : Fields) (choices : Items) (s t : ChatStates)
    → is_ok (on_choices fs choices s) ≡ is_ok (on_choices fs choices t)
unfolding on_choices update_messages
on_choices-is_ok fs choices s t = is_ok-bind (first_content choices) _ _ (λ starts.
    is_ok-return (update_messages _ _ choices s.messages) (update_messages _ _ choices t.messages) _
      _
      (is_ok-return _ _ _ _ (add_choices-is_ok _ choices (s.messages, false) (t.messages, false))))

of_choices :
    (fs : Fields) (s t : ChatStates) (choices : Option Items)
    → is_ok
        (elim choices as (λ o. Result ChatStates) [ none ↦ ok s | some cs ↦ on_choices fs cs s ])
      ≡ is_ok
          (elim choices as (λ o. Result ChatStates) [ none ↦ ok t | some cs ↦ on_choices fs cs t ])
of_choices fs s t none = refl
of_choices fs s t (some cs) = on_choices-is_ok fs cs s t

on_message-is_ok :
    (payload : Json) (s t : ChatStates)
    → is_ok (Messages.on_message payload s) ≡ is_ok (Messages.on_message payload t)
unfolding Messages.on_message
on_message-is_ok payload s t =
    is_ok-bind (fields_of payload) _ _
      (λ fs. is_ok-bind (chunk_choices fs) _ _ (λ choices. of_choices fs s t choices))

-- A message is accepted in one state of the chat exactly if it is in every other.
pub apply_callback-accepts :
    (m : Message) (s : ChatStates) → is_ok (apply_callback (Callback.on_message m) s) ≡ accepts m
unfolding apply_callback accepts
apply_callback-accepts m s = on_message-is_ok (payload_of m) s start
