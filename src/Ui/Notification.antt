-- ===== src/Ui/Notification.antt =====
-- `Notification` of components/mui/alert/notification.tsx: what it shows, and the progress of its
-- countdown. A node of React is a text here, `none` where the source finds nothing to show; times
-- are whole milliseconds that do not go back, the division is exact, and a duration of 0 is a
-- missing one.
pub mod Laws
use Prim.Native.Nat.{◌/◌}
use toolkit_inference_mesh.Common.{
  ℕ, ◌+◌, ◌-◌, ◌*◌, min, Bool, Option, some, none, List, [], ◌∷◌, ◌++◌, if◌then◌else◌, ltb, ◌==◌,
}
use toolkit_inference_mesh.Js.Text.{Text}

pub data Variant : Type 0 where
  notification other_variant : Variant

pub record Props : Type 0 where
  pub variant : Variant
  pub title : Option Text
  pub children : Option Text
  pub action : Option Text
  pub has_on_dismiss : Bool
  pub dismiss_label : Text
  pub auto_hide_duration : ℕ

-- The parts of the alert, in order; the last two have the actions at the bottom and at the side.
pub data Part : Type 0 where
  title_part children_part : Text → Part
  countdown_part : ℕ → Part
  bottom_actions side_actions : List Text → Part

-- The title and the children: children with no title stand in its place.
abbrev pub heading : Option Text → Option Text → Option Text × Option Text
heading none (some c) = (some c, none)
heading none none = (none, none)
heading (some t) children = (some t, children)

abbrev pub part_of : (Text → Part) → Option Text → List Part
part_of part none = []
part_of part (some t) = part t ∷ []

abbrev pub option_list : Option Text → List Text
option_list none = []
option_list (some t) = t ∷ []

-- `nodeDismiss` and `action`
unfoldable pub node_actions : Props → List Text
node_actions p = (if p.has_on_dismiss then p.dismiss_label ∷ [] else []) ++ option_list p.action

abbrev pub actions_part : (List Text → Part) → List Text → List Part
actions_part part [] = []
actions_part part (a ∷ actions) = part (a ∷ actions) ∷ []

abbrev pub shown_heading : Option Text × Option Text → List Part
shown_heading (title, children) = part_of title_part title ++ part_of children_part children

abbrev pub render_as : Variant → Props → List Part
render_as notification p =
    shown_heading (heading p.title p.children)
    ++ (actions_part bottom_actions (node_actions p)
        ++ (if ltb 0 p.auto_hide_duration then countdown_part p.auto_hide_duration ∷ [] else []))
render_as other_variant p =
    actions_part side_actions (node_actions p) ++ shown_heading (heading p.title p.children)

unfoldable pub render : Props → List Part
unfolding node_actions
render p = render_as p.variant p

abbrev pub compensation : ℕ
compensation = 150

-- `Math.min(100, Math.ceil((currentTime + Compensation - startTime) / (duration / 100)))`
unfoldable pub progress : ℕ → ℕ → ℕ → ℕ
progress duration start_time now =
    min 100 ((100 * (now + compensation - start_time) + (duration - 1)) / duration)

-- `if (!startTime) startTime = currentTime`: 0 stands for a time that is not set.
abbrev pub start_at : ℕ → ℕ → ℕ
start_at start_time now = if start_time == 0 then now else start_time

-- The progress that is set in each frame; `animate` asks for no frame once it is 100.
unfoldable pub animate : ℕ → ℕ → List ℕ → List ℕ
unfolding progress
animate duration start_time [] = []
animate duration start_time (now ∷ times) =
    let start = start_at start_time now in
    let rest = animate duration start times in
    progress duration start now ∷ (if ltb (progress duration start now) 100 then rest else [])

-- The effect of `Countdown`, over the times of the frames that the browser offers.
unfoldable pub countdown : ℕ → List ℕ → List ℕ
unfolding animate
countdown duration times = if ltb 0 duration then animate duration 0 times else []
