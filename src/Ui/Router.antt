-- ===== src/Ui/Router.antt =====
-- The two routers (router/main.tsx, router/chat.tsx): what is shown at a path, and the redirections:
-- where the page goes after the delay, if anywhere. `matches` is how react-router compares the path of
-- a route with that of the page.
pub mod Laws
pub mod Steps
use toolkit_inference_mesh.Common.{Bool, true, false, Option, none, some, if◌then◌else◌, not, ◌&&◌}
use toolkit_inference_mesh.Js.Text.{Text, lit, text_eq, starts_with}
use toolkit_inference_mesh.Cluster.Status.{is_idle, is_available, ClusterStatus}

abbrev pub path_setup : Text
path_setup = lit "/setup"

abbrev path_join : Text
path_join = lit "/join"

abbrev pub path_chat : Text
path_chat = lit "/chat"

-- The effect of `MainRouter`.
unfoldable pub main_redirect : Text → ClusterStatus → Option Text
unfolding text_eq starts_with
main_redirect pathname status =
    if text_eq pathname (lit "/")
    then some path_setup
    else if is_idle status && starts_with path_chat pathname
    then some path_setup
    else if is_available status && not (starts_with path_chat pathname)
    then some path_chat
    else none

-- The effect of `ChatRouter`.
unfoldable pub chat_redirect : Text → Option Text
unfolding starts_with
chat_redirect pathname = if starts_with path_chat pathname then none else some path_chat

-- The path after the timer has fired.
abbrev pub navigate : Text → Option Text → Text
navigate pathname none = pathname
navigate pathname (some target) = target

-- The element of a route.
pub data Screen : Type 0 where
  setup_screen join_screen chat_screen not_found : Screen

-- The routes of `MainRouter`: the first that fits, and the message of an unknown page at last.
unfoldable pub main_routes : (Text → Text → Bool) → Text → Screen
main_routes matches pathname =
    if matches path_setup pathname
    then setup_screen
    else if matches path_join pathname
    then join_screen
    else if matches path_chat pathname
    then chat_screen
    else not_found

-- The routes of `ChatRouter`.
unfoldable pub chat_routes : (Text → Text → Bool) → Text → Screen
chat_routes matches pathname = if matches path_chat pathname then chat_screen else not_found

abbrev pub is_chat_screen : Screen → Bool
is_chat_screen chat_screen = true
is_chat_screen _ = false
