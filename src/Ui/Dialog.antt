-- ===== src/Ui/Dialog.antt =====
-- `AlertDialog` (components/mui/dialog/alert-dialog.tsx) under the hook `useAlertDialog`
-- (use-dialog.tsx). `handleSubmit` is the form library's: it calls one of its two handlers.
pub mod Laws
pub mod View
use toolkit_inference_mesh.Common.{
  Bool, true, false, Option, none, some, List, [], ◌∷◌, if◌then◌else◌,
}

-- What a handler returns: an object has a `closeDialog` or not; other values are texts, numbers
-- and functions.
pub data HandlerResult : Type 0 where
  undefined_result null_result other_result : HandlerResult
  bool_result : Bool → HandlerResult
  object_result : (close_dialog : Option Bool) → HandlerResult

-- What the call of a handler comes to at once, and what a promise comes to.
pub data Outcome : Type 0 where
  returns : HandlerResult → Outcome
  throws : Outcome
  promise : Outcome

pub data Settled : Type 0 where
  fulfilled : HandlerResult → Settled
  rejected : Settled

-- Which promise the dialog waits for.
pub data Pending : Type 0 where
  nothing action submission : Pending

pub record Dialog : Type 0 where
  pub is_open : Bool
  pub loading : Bool
  pub pending : Pending

-- `open_dialog` and `close_dialog` are the hook's actions; `dismiss` is a click on the backdrop or
-- on the cross; `click` is one on the cancel or the confirm button.
pub data Event : Type 0 where
  open_dialog close_dialog dismiss submit : Event
  click : Outcome → Event
  settled : Settled → Event
  invalid_settled : Settled → Event

-- `result === false || (typeof result === 'object' && result.closeDialog === false)`, negated;
-- `none` where it throws, since the type of `null` is 'object'.
unfoldable pub handle_action_result : HandlerResult → Option Bool
handle_action_result (bool_result b) = some b
handle_action_result (object_result (some b)) = some b
handle_action_result (object_result none) = some true
handle_action_result null_result = none
handle_action_result undefined_result = some true
handle_action_result other_result = some true

-- The state, and whether the property `onClose` was called.
unfoldable pub on_close : Dialog → Dialog × Bool
on_close d = (record d { is_open = false }, true)

-- The handler of `catch`.
unfoldable pub stay : Dialog → Dialog × Bool
stay d = (record d { loading = false }, false)

abbrev pub close_if : Option Bool → Dialog → Dialog × Bool
close_if none d = stay d
close_if (some false) d = (d, false)
close_if (some true) d = on_close d

unfoldable pub finish : HandlerResult → Dialog → Dialog × Bool
unfolding handle_action_result on_close stay
finish r d = close_if (handle_action_result r) d

abbrev pub on_outcome : Outcome → Dialog → Dialog × Bool
on_outcome (returns r) d = finish r d
on_outcome throws d = stay d
on_outcome promise d = (record d { loading = true; pending = action }, false)

-- `pipeHandlers`
unfoldable pub pipe_handlers : Outcome → Dialog → Dialog × Bool
unfolding finish stay
pipe_handlers o d = if d.loading then (d, false) else on_outcome o d

unfoldable pub on_submit : Dialog → Dialog × Bool
on_submit d =
    if d.loading then (d, false) else (record d { loading = true; pending = submission }, false)

unfoldable pub on_settled : Settled → Dialog → Dialog × Bool
unfolding finish stay
on_settled (fulfilled r) d = finish r (record d { loading = false; pending = nothing })
on_settled rejected d = stay (record d { pending = nothing })

-- The handler that `handleSubmit` gets for a valid form.
unfoldable pub on_valid_settled : Settled → Dialog → Dialog × Bool
unfolding finish stay
on_valid_settled (fulfilled r) d = finish r (record d { loading = false; pending = nothing })
on_valid_settled rejected d = stay (record d { pending = nothing })

-- An invalid form keeps the dialog open.
unfoldable pub on_invalid_settled : Settled → Dialog → Dialog × Bool
on_invalid_settled _ d = (record d { loading = false; pending = nothing }, false)

unfoldable pub safe_on_close : Dialog → Dialog × Bool
unfolding on_close
safe_on_close d = if d.loading then (d, false) else on_close d

-- A promise that nothing waits for does not settle.
unfoldable pub dispatch : Pending → Event → Dialog → Dialog × Bool
unfolding pipe_handlers on_submit on_settled on_valid_settled on_invalid_settled safe_on_close
dispatch _ open_dialog d = (record d { is_open = true }, false)
dispatch _ close_dialog d = (record d { is_open = false }, false)
dispatch _ dismiss d = safe_on_close d
dispatch _ submit d = on_submit d
dispatch _ (click o) d = pipe_handlers o d
dispatch action (settled s) d = on_settled s d
dispatch submission (settled s) d = on_valid_settled s d
dispatch submission (invalid_settled s) d = on_invalid_settled s d
dispatch _ _ d = (d, false)

unfoldable pub step : Dialog → Event → Dialog × Bool
unfolding dispatch
step d e = dispatch d.pending e d

-- The last state, and for each event whether it called `onClose`.
unfoldable pub run : Dialog → List Event → Dialog × List Bool
unfolding step
run d [] = (d, [])
run d (e ∷ es) =
    let (d', called) = step d e in let (last, more) = run d' es in (last, called ∷ more)

-- The dialog that the hook mounts.
abbrev pub mounted : Dialog
mounted = record { is_open = false; loading = false; pending = nothing }
