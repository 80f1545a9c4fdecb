-- ===== src/Ui/Dialog/Laws.antt =====
-- What a dialog does while it waits.
use toolkit_inference_mesh.Common.{
  ◌≡◌, refl, sym, ◌∙◌, true, false, Bool, none, some, All, List, [], ◌∷◌, map, arith, if◌then◌else◌,
}
use toolkit_inference_mesh.Ui.Dialog.{
  Dialog, Event, Pending, Outcome, HandlerResult, dispatch, undefined_result, null_result,
  other_result, bool_result, object_result, returns, throws, promise, fulfilled, rejected, nothing,
  action, submission, open_dialog, close_dialog, dismiss, submit, click, settled, invalid_settled,
  stay, finish, on_outcome, on_settled, on_invalid_settled, step, run, mounted, pipe_handlers,
  on_submit, safe_on_close, on_close, on_valid_settled,
}

abbrev pub is_waiting : Pending → Bool
is_waiting nothing = false
is_waiting action = true
is_waiting submission = true

-- The dialog is in its loading state exactly while it waits for a promise.
abbrev pub Inv : Dialog → Type 0
Inv d = d.loading ≡ is_waiting d.pending

finish-Inv : (r : HandlerResult) (d : Dialog) → d.loading ≡ false → Inv d → Inv (finish r d).0
unfolding finish
finish-Inv (bool_result true) d l h = h
finish-Inv (bool_result false) d l h = h
finish-Inv (object_result (some true)) d l h = h
finish-Inv (object_result (some false)) d l h = h
finish-Inv (object_result none) d l h = h
finish-Inv null_result d l h = sym l ∙ h
finish-Inv undefined_result d l h = h
finish-Inv other_result d l h = h

click-Inv : (o : Outcome) (d : Dialog) → d.loading ≡ false → Inv d → Inv (on_outcome o d).0
click-Inv (returns r) d l h = finish-Inv r d l h
click-Inv throws d l h = unfold stay in sym l ∙ h
click-Inv promise d l h = refl

guarded-Inv :
    (b : Bool) (d : Dialog) (x : Dialog × Bool)
    → Inv d
    → (b ≡ false → Inv x.0)
    → Inv (if b then (d, false) else x).0
guarded-Inv true d x h f = h
guarded-Inv false d x h f = f refl

dispatch-Inv :
    (p : Pending) (e : Event) (d : Dialog) → d.pending ≡ p → Inv d → Inv (dispatch p e d).0
unfolding dispatch on_valid_settled on_settled on_invalid_settled safe_on_close on_submit
    pipe_handlers on_close
dispatch-Inv p open_dialog d e h = h
dispatch-Inv p close_dialog d e h = h
dispatch-Inv p dismiss d e h = guarded-Inv d.loading d (on_close d) h (λ n. h)
dispatch-Inv p submit d e h =
    guarded-Inv d.loading d (record d { loading = true; pending = submission }, false) h (λ n. refl)
dispatch-Inv p (click o) d e h = guarded-Inv d.loading d (on_outcome o d) h (λ n. click-Inv o d n h)
dispatch-Inv action (settled (fulfilled r)) d e h = finish-Inv r _ refl refl
dispatch-Inv action (settled rejected) d e h = refl
dispatch-Inv submission (settled (fulfilled r)) d e h = finish-Inv r _ refl refl
dispatch-Inv submission (settled rejected) d e h = refl
dispatch-Inv submission (invalid_settled s) d e h = refl
dispatch-Inv p e' d e h = ground arith

pub run-Inv : (d : Dialog) (es : List Event) → Inv d → Inv (run d es).0
unfolding run step
run-Inv d [] h = h
run-Inv d (e ∷ es) h = run-Inv (step d e).0 es (dispatch-Inv d.pending e d refl h)

-- The events of a user who does not use the hook's actions.
abbrev pub is_input : Event → Bool
is_input dismiss = true
is_input submit = true
is_input (click o) = true
is_input _ = false

input-ignored :
    (p : Pending) (e : Event) (d : Dialog)
    → d.loading ≡ true
    → is_input e ≡ true
    → dispatch p e d ≡ (d, false)
unfolding dispatch safe_on_close on_submit pipe_handlers
input-ignored p dismiss d l h = rw l refl
input-ignored p submit d l h = rw l refl
input-ignored p (click o) d l h = rw l refl
input-ignored p e d l h = ground arith

inputs-ignored :
    (d : Dialog) (es : List Event)
    → d.loading ≡ true
    → All (λ e. is_input e ≡ true) es
    → run d es ≡ (d, map (λ e. false) es)
unfolding run step
inputs-ignored d [] l h = refl
inputs-ignored d (e ∷ es) l h = rw (input-ignored d.pending e d l h.0, inputs-ignored d es l h.1)

-- After any events, while a dialog waits for the promise of a handler or of a form, clicks on its
-- buttons, submissions and attempts to dismiss it change nothing and do not call `onClose`.
pub run-locked :
    (before inputs : List Event)
    → is_waiting (run mounted before).0.pending ≡ true
    → All (λ e. is_input e ≡ true) inputs
    → run (run mounted before).0 inputs ≡ ((run mounted before).0, map (λ e. false) inputs)
run-locked before inputs w h =
    inputs-ignored (run mounted before).0 inputs (run-Inv mounted before refl ∙ w) h
