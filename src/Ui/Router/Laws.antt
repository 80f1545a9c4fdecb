-- ===== src/Ui/Router/Laws.antt =====
-- Where the redirections lead.
use toolkit_inference_mesh.Common.{◌≡◌, none, some, refl, ◌⊎◌, inl, inr, arith}
use toolkit_inference_mesh.Ui.Router.{main_redirect, navigate, path_setup, path_chat}
use toolkit_inference_mesh.Cluster.Status.{
  ClusterStatus, offline, idle, waiting, available, rebalancing, failed,
}
use toolkit_inference_mesh.Js.Text.{Text}

-- One redirection, or none.
abbrev pub follow : ClusterStatus → Text → Text
follow status pathname = navigate pathname (main_redirect pathname status)

-- The only paths that a redirection leads to, and where they lead.
setup_rests : (status : ClusterStatus) → main_redirect (follow status path_setup) status ≡ none
unfolding main_redirect
setup_rests offline = refl
setup_rests idle = refl
setup_rests waiting = refl
setup_rests available = refl
setup_rests rebalancing = refl
setup_rests failed = refl

chat_rests : (status : ClusterStatus) → main_redirect (follow status path_chat) status ≡ none
unfolding main_redirect
chat_rests offline = refl
chat_rests idle = refl
chat_rests waiting = refl
chat_rests available = refl
chat_rests rebalancing = refl
chat_rests failed = refl

redirect_targets :
    (pathname : Text) (status : ClusterStatus)
    → (main_redirect pathname status ≡ none)
      ⊎ ((main_redirect pathname status ≡ some path_setup)
          ⊎ (main_redirect pathname status ≡ some path_chat))
unfolding main_redirect
redirect_targets pathname status = ground arith

-- In every state of the cluster, the main page comes to rest after at most two redirections, so
-- the router does not send it in circles.
pub main_redirect-rests :
    (status : ClusterStatus) (pathname : Text)
    → main_redirect (follow status (follow status pathname)) status ≡ none
main_redirect-rests status pathname = elim (redirect_targets pathname status) [
  | inl n ↦ rw (n, n) n
  | inr t ↦ elim t [ inl a ↦ rw a (setup_rests status) | inr b ↦ rw b (chat_rests status) ]
]
