-- ===== src/Ui/Router/Steps.antt =====
-- `MainRouter` (router/main.tsx) over time: its effect runs again when the path or the status of the
-- cluster has changed, takes back the timer of the redirection that it had planned, and plans the
-- one that fits now.
pub mod Laws
use toolkit_inference_mesh.Common.{Option, none, some, List, [], ◌∷◌}
use toolkit_inference_mesh.Js.Text.{Text}
use toolkit_inference_mesh.Cluster.Status.{ClusterStatus}
use toolkit_inference_mesh.Ui.Router.{main_redirect}

-- Where the page is, and where its timer will lead, if one runs.
pub record Page : Type 0 where
  pub pathname : Text
  pub status : ClusterStatus
  pub target : Option Text

pub data Event : Type 0 where
  -- a link, or an action of a page
  navigated : Text → Event
  status_changed : ClusterStatus → Event
  timer : Event

-- The effect.
unfoldable pub plan : Page → Page
unfolding main_redirect
plan p = record p { target = main_redirect p.pathname p.status }

unfoldable pub on_timer : Option Text → Page → Page
unfolding plan
on_timer none p = p
on_timer (some t) p = plan (record p { pathname = t })

unfoldable pub step : Page → Event → Page
unfolding plan on_timer
step p (navigated t) = plan (record p { pathname = t })
step p (status_changed s) = plan (record p { status = s })
step p timer = on_timer p.target p

unfoldable pub run : Page → List Event → Page
unfolding step
run p [] = p
run p (e ∷ es) = run (step p e) es

-- The first rendering.
abbrev pub mounted : Text → ClusterStatus → Page
mounted pathname status = plan (record { pathname = pathname; status = status; target = none })
