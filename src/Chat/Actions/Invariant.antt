-- ===== src/Chat/Actions/Invariant.antt =====
-- What holds of the chat between any two events.
use toolkit_inference_mesh.Common.{
  refl, if◌then◌else◌, ◌≡◌, ap, ◌∙◌, ◌≢◌, true, Option, some, List, [], ◌∷◌, Bool-cases, inl, inr,
  none, sym, subst, false,
}
use toolkit_inference_mesh.Js.Text.{Text, is_some}
use toolkit_inference_mesh.Js.Json.{Json, Items, Fields}
use toolkit_inference_mesh.Chat.Messages.{
  ChatMessage, ok, on_message, on_close, on_error, on_open, closed, ChatStates, finish_last,
  ok-injective, >>=-eq-ok, fields_of, update_messages, chunk_choices, first_content, on_choices,
  ChatStatus,
}
use toolkit_inference_mesh.Chat.Messages.Laws.{
  Extends, update_messages-Extends, finish_last_total, Extends-refl,
}
use toolkit_inference_mesh.Chat.Actions.{Env, is_busy, generate, stop, clear}
use toolkit_inference_mesh.Chat.Actions.Generate.{StartsWithUser, generate-Generated}

-- The messages begin with one of the user, and while a generation is on its way there is one.
pub record Inv (s : ChatStates) : Type 0 where
  pub starts : StartsWithUser s.messages
  pub busy : is_busy s.status ≡ true → s.messages ≢ []

-- `generate` with what `connect` does at once: it calls `onOpen`.
unfoldable pub submit : Env → Option (Option Text) → ChatStates → ChatStates
unfolding on_open
submit env message s =
    let (s', request) = generate env message s in if is_some request then on_open s' else s'

-- One event: the user types, submits, stops or clears, or the stream's callbacks are called while a
-- generation is on its way.
pub data Step (s s' : ChatStates) : Type 0 where
  typed : (text : Text) → s' ≡ record s { input = text } → Step s s'
  submitted : (env : Env) (message : Option (Option Text)) → s' ≡ submit env message s → Step s s'
  stopped : stop s ≡ ok s' → Step s s'
  cleared : clear s ≡ ok s' → Step s s'
  received : (payload : Json) → is_busy s.status ≡ true → on_message payload s ≡ ok s' → Step s s'
  ended : is_busy s.status ≡ true → on_close s ≡ ok s' → Step s s'
  broke : is_busy s.status ≡ true → on_error s ≡ ok s' → Step s s'

pub data Reach (s : ChatStates) : ChatStates → Type 0 where
  here : Reach s s
  next : {t u : ChatStates} → Reach s t → Step t u → Reach s u

abbrev pub start : ChatStates
start = record { input = []; status = closed; messages = [] }

StartsWithUser-Extends :
    (ms ms' : List ChatMessage)
    → Extends ms ms'
    → ms ≢ []
    → StartsWithUser ms
    → StartsWithUser ms' × (ms' ≢ [])
StartsWithUser-Extends [] ms' x n h = absurd (n refl)
StartsWithUser-Extends (m ∷ ms) [] x n h = absurd x
StartsWithUser-Extends (m ∷ []) (m' ∷ ms') x n h = (x.1 ∙ h, λ e. cc)
StartsWithUser-Extends (m ∷ k ∷ ms) (m' ∷ ms') x n h = (ap (λ a. a.role) x.0 ∙ h, λ e. cc)

submit-Inv :
    (env : Env) (message : Option (Option Text)) (s : ChatStates)
    → Inv s
    → Inv (submit env message s)
unfolding submit
submit-Inv env message s v =
    let g = generate-Generated env message s v.starts in
    elim (Bool-cases (is_some (generate env message s).1)) [
      | inl y ↦ rw y (record { starts = g.starts; busy = λ z. g.sent y })
      | inr n ↦ rw n (rw (g.unsent n) v)
    ]

of_finish :
    (ms ms' : List ChatMessage)
    → StartsWithUser ms
    → finish_last ms ≡ ok ms'
    → StartsWithUser ms' × (ms' ≢ [])
of_finish [] ms' h e = unfold finish_last in cc
of_finish (m ∷ ms) ms' h e =
    let (r, f, x) = finish_last_total m ms in
    StartsWithUser-Extends (m ∷ ms) ms' (subst (Extends (m ∷ ms)) (ok-injective (sym f ∙ e)) x)
      (λ z. cc) h

on_close-Inv : (s s' : ChatStates) → StartsWithUser s.messages → on_close s ≡ ok s' → Inv s'
unfolding on_close
on_close-Inv s s' h e =
    let (ms, f, same) = >>=-eq-ok (finish_last s.messages) _ e in
    let (st, n) = of_finish s.messages ms h f in
    rw (← ok-injective same) (record { starts = st; busy = λ z. n })

on_error-Inv : (s s' : ChatStates) → StartsWithUser s.messages → on_error s ≡ ok s' → Inv s'
unfolding on_error
on_error-Inv s s' h e =
    let (ms, f, same) = >>=-eq-ok (finish_last s.messages) _ e in
    let (st, n) = of_finish s.messages ms h f in
    rw (← ok-injective same) (record { starts = st; busy = λ z. n })

stop-Inv : (s s' : ChatStates) → Inv s → stop s ≡ ok s' → Inv s'
unfolding stop
stop-Inv s s' v e = elim (Bool-cases (is_busy s.status)) [
  | inl y ↦ on_close-Inv s s' v.starts (rw y at e)
  | inr n ↦ subst Inv (ok-injective (rw n at e)) v
]

stop_of_idle : (s : ChatStates) → is_busy s.status ≡ false → stop s ≡ ok s
unfolding stop
stop_of_idle s h = rw h

clear-Inv : (s s' : ChatStates) → Inv s → clear s ≡ ok s' → Inv s'
unfolding clear
clear-Inv s s' v e =
    let (t, stops, same) = >>=-eq-ok (stop s) _ e in
    elim (Bool-cases (is_busy s.status)) [
      | inl y ↦ subst Inv (ok-injective (rw y at same)) (stop-Inv s t v stops)
      | inr n ↦
          let quiet : s ≡ t = ok-injective (sym (stop_of_idle s n) ∙ stops) in
          subst Inv (ok-injective (rw n at same)) (record {
            starts = tt;
            busy = λ z. absurd (cc (n, z, ap (λ c. is_busy c.status) quiet));
          })
    ]

on_message-Extends :
    (payload : Json) (s s' : ChatStates)
    → on_message payload s ≡ ok s'
    → Extends s.messages s'.messages
unfolding on_message on_choices
on_message-Extends payload s s' h =
    let (fs, _, h₁) = >>=-eq-ok (fields_of payload) _ h in
    let (choices, _, h₂) = >>=-eq-ok (chunk_choices fs) _ h₁ in go fs choices h₂
  where
    go :
        (fs : Fields) (choices : Option Items)
        → elim choices [ none ↦ ok s | some cs ↦ on_choices fs cs s ] ≡ ok s'
        → Extends s.messages s'.messages
    go fs none e =
        subst (λ t. Extends s.messages t.messages) (ok-injective e) (Extends-refl s.messages)
    go fs (some cs) e =
        let (starts, _, e₁) = >>=-eq-ok (first_content cs) _ e in
        let (ms, added, e₂) = >>=-eq-ok (update_messages _ _ cs s.messages) _ e₁ in
        subst (λ t. Extends s.messages t.messages) (ok-injective e₂)
          (update_messages-Extends _ _ cs s.messages ms added)

Step-Inv : {s s' : ChatStates} → Step s s' → Inv s → Inv s'
Step-Inv {s} (typed text e) v = rw e (record { starts = v.starts; busy = v.busy })
Step-Inv {s} (submitted env message e) v = rw e (submit-Inv env message s v)
Step-Inv {s} {s'} (stopped e) v = stop-Inv s s' v e
Step-Inv {s} {s'} (cleared e) v = clear-Inv s s' v e
Step-Inv {s} {s'} (received payload b e) v =
    let (st, n) =
      StartsWithUser-Extends s.messages s'.messages (on_message-Extends payload s s' e) (v.busy b)
        v.starts in
    record { starts = st; busy = λ z. n }
Step-Inv {s} {s'} (ended b e) v = on_close-Inv s s' v.starts e
Step-Inv {s} {s'} (broke b e) v = on_error-Inv s s' v.starts e

-- In every state that the chat reaches from its start, the messages begin with one of the user, and
-- they are not empty while a generation is on its way.
pub Reach-Inv : {s : ChatStates} → Reach start s → Inv s
Reach-Inv here = record { starts = tt; busy = λ z. cc }
Reach-Inv (next r st) = Step-Inv st (Reach-Inv r)

finishes : (ms : List ChatMessage) → ms ≢ [] → (r : List ChatMessage) × (finish_last ms ≡ ok r)
finishes [] h = absurd (h refl)
finishes (m ∷ ms) h = let (r, e, _) = finish_last_total m ms in (r, e)

-- While a generation is on its way in a state that the chat reaches, `onClose`, `onError` and `stop`
-- all return: none of them reads a last message that is not there.
pub Reach-ends :
    {s : ChatStates}
    → Reach start s
    → is_busy s.status ≡ true
    → (a : ChatStates) × (b : ChatStates) × (on_close s ≡ ok a)
      × (on_error s ≡ ok b)
      × (stop s ≡ ok a)
unfolding on_close on_error stop
Reach-ends {s} r busy =
    let (ms, e) = finishes s.messages ((Reach-Inv r).busy busy) in
    (
      record s { status = closed; messages = ms },
      record s { status = ChatStatus.error; messages = ms },
      rw e,
      rw e,
      rw (busy, e),
    )
