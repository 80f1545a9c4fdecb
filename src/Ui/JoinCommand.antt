-- ===== src/Ui/JoinCommand.antt =====
-- `JoinCommand` (components/inputs/join-command.tsx): the commands that are listed, and the mark of
-- the one that was copied last, which goes away after two seconds.
pub mod Laws
use toolkit_inference_mesh.Common.{
  Bool, false, Option, some, none, List, [], ◌∷◌, map, ltb, length, if◌then◌else◌, not,
}
use toolkit_inference_mesh.Js.Text.{Text, text_eq, is_empty}

-- `timer` tells whether the timeout of the effect is pending.
pub record Copied : Type 0 where
  pub copied_key : Option Text
  pub timer : Bool

abbrev pub initial : Copied
initial = record { copied_key = none; timer = false }

abbrev pub same_key : Option Text → Text → Bool
same_key none key = false
same_key (some k) key = text_eq k key

-- The clipboard's promise is fulfilled or rejected, or the timeout fires.
pub data Event : Type 0 where
  written : (key : Text) → Event
  not_written : Event
  timeout : Event

-- `setCopiedKey(key)` and the effect, which runs only where the key has changed; an empty key sets
-- no timer.
unfoldable pub on_written : Text → Copied → Copied
unfolding text_eq
on_written key c =
    if same_key c.copied_key key
    then c
    else record { copied_key = some key; timer = not (is_empty key) }

unfoldable pub on_timeout : Copied → Copied
on_timeout c = if c.timer then record { copied_key = none; timer = false } else c

unfoldable pub step : Event → Copied → Copied
unfolding on_written on_timeout
step (written key) c = on_written key c
step not_written c = c
step timeout c = on_timeout c

unfoldable pub run : List Event → Copied → Copied
unfolding step
run [] c = c
run (e ∷ es) c = run es (step e c)

-- An entry of the list: its label if there are more than one, its command, and its mark.
pub record Entry : Type 0 where
  pub label : Option Text
  pub command : Text
  pub is_copied : Bool

unfoldable pub entries : (Text → Text) → Copied → List (Text × Text) → List Entry
unfolding text_eq
entries label_of c commands =
    map
      (λ kv. record {
        label = if ltb 1 (length commands) then some (label_of kv.0) else none;
        command = kv.1;
        is_copied = same_key c.copied_key kv.0;
      })
      commands
