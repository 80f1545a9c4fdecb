-- ===== src/Ui/JoinCommand/Laws.antt =====
-- How long the mark stays.
use toolkit_inference_mesh.Common.{
  ◌≡◌, false, none, List, [], ◌∷◌, All, arith, refl, ap, Bool, true, Option, some,
}
use toolkit_inference_mesh.Ui.JoinCommand.{
  Copied, Event, initial, run, step, written, not_written, timeout, entries, on_written, on_timeout,
}
use toolkit_inference_mesh.Js.Text.{Text, is_empty, is_some}

-- A key that is copied is not empty.
abbrev pub HasKey : Event → Type 0
HasKey (written key) = is_empty key ≡ false
HasKey not_written = Unit
HasKey timeout = Unit

-- A timer is pending exactly while there is a mark.
abbrev pub Inv : Copied → Type 0
Inv c = c.timer ≡ is_some c.copied_key

step-Inv : (e : Event) (c : Copied) → HasKey e → Inv c → Inv (step e c)
unfolding step on_written on_timeout
step-Inv (written key) c h v = ground arith
step-Inv not_written c h v = v
step-Inv timeout c h v = ground arith

run-Inv : (es : List Event) (c : Copied) → All HasKey es → Inv c → Inv (run es c)
unfolding run
run-Inv [] c h v = v
run-Inv (e ∷ es) c h v = run-Inv es (step e c) h.1 (step-Inv e c h.0 v)

timeout_initial :
    (key : Option Text) (timer : Bool)
    → timer ≡ is_some key
    → step timeout (record { copied_key = key; timer = timer }) ≡ initial
unfolding step on_timeout
timeout_initial none true v = ground arith
timeout_initial none false v = refl
timeout_initial (some k) true v = refl
timeout_initial (some k) false v = ground arith

-- Whatever keys were copied before, none of them empty, once the timeout has fired no command is
-- marked as copied any more.
pub run-entries :
    (es : List Event)
    → All HasKey es
    → (label_of : Text → Text) (commands : List (Text × Text))
    → entries label_of (step timeout (run es initial)) commands ≡ entries label_of initial commands
run-entries es h label_of commands =
    let c = run es initial in
    ap (λ c'. entries label_of c' commands)
      (timeout_initial c.copied_key c.timer (run-Inv es initial h refl))
