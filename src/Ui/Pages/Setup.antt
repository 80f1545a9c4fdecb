-- ===== src/Ui/Pages/Setup.antt =====
-- The setup page over time (pages/setup.tsx): the state `loading` of its button, and the promises
-- that its clicks have started. A button that is loading is disabled by the component library.
pub mod Laws
use toolkit_inference_mesh.Common.{Bool, true, false, List, [], ◌∷◌, ◌++◌, if◌then◌else◌}
use toolkit_inference_mesh.Cluster.Status.{ClusterStatus}
use toolkit_inference_mesh.Cluster.Config.{
  ClusterConfig, InitResult, no_nodes, no_model, sends, init_scheduler,
}
use toolkit_inference_mesh.Ui.Pages.{
  Action, set_loading, request, navigate_join, log_error, needs_init,
}

-- `waits` are the calls of `init` whose promises have not settled.
pub record Setup : Type 0 where
  pub loading : Bool
  pub waits : List InitResult

-- A click, with what the page knows of the cluster at the time; the oldest promise settles, and the
-- scheduler accepts the parameters or not.
pub data Event : Type 0 where
  clicked : ClusterStatus → ClusterConfig → Event
  settled : (accepted : Bool) → Event

-- `init` throws, or calls the scheduler.
abbrev pub requests : InitResult → List Action
requests no_nodes = []
requests no_model = []
requests (sends p) = request p ∷ []

-- `then` and `catch`
abbrev pub follow_up : Bool → InitResult → Action
follow_up true (sends p) = navigate_join
follow_up false (sends p) = log_error
follow_up _ no_nodes = log_error
follow_up _ no_model = log_error

unfoldable pub on_click : ClusterStatus → ClusterConfig → Setup → Setup × List Action
unfolding init_scheduler
on_click status config s =
    let r = init_scheduler config in
    if needs_init status
    then (record { loading = true; waits = s.waits ++ r ∷ [] }, set_loading true ∷ requests r)
    else (s, navigate_join ∷ [])

-- The button while it is disabled, and else.
abbrev pub click_when : Bool → ClusterStatus → ClusterConfig → Setup → Setup × List Action
click_when true status config s = (s, [])
click_when false status config s = on_click status config s

unfoldable pub on_settled : Bool → List InitResult → Setup → Setup × List Action
on_settled accepted [] s = (s, [])
on_settled accepted (r ∷ rs) s =
    (record { loading = false; waits = rs }, follow_up accepted r ∷ set_loading false ∷ [])

unfoldable pub step : Setup → Event → Setup × List Action
unfolding on_click on_settled
step s (clicked status config) = click_when s.loading status config s
step s (settled accepted) = on_settled accepted s.waits s

unfoldable pub run : Setup → List Event → Setup × List Action
unfolding step
run s [] = (s, [])
run s (e ∷ es) =
    let (s', actions) = step s e in let (last, more) = run s' es in (last, actions ++ more)

abbrev pub mounted : Setup
mounted = record { loading = false; waits = [] }
