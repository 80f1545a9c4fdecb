-- ===== src/Ui/Router/Steps/Laws.antt =====
-- Where the page comes to rest.
use toolkit_inference_mesh.Common.{
  ◌&&◌, not, ◌≡◌, refl, false, Option, none, some, List, [], ◌∷◌, Option-cases, inl, inr, ◌∙◌,
  arith,
}
use toolkit_inference_mesh.Js.Text.{Text, starts_with}
use toolkit_inference_mesh.Cluster.Status.{ClusterStatus, is_idle, is_available}
use toolkit_inference_mesh.Ui.Router.{main_redirect, path_chat}
use toolkit_inference_mesh.Ui.Router.Laws.{follow, main_redirect-rests}
use toolkit_inference_mesh.Ui.Router.Steps.{
  Page, Event, navigated, status_changed, timer, plan, on_timer, step, run, mounted,
}

-- The timer leads where the path and the status of now ask for.
abbrev pub IsPlanned : Page → Type 0
IsPlanned p = p.target ≡ main_redirect p.pathname p.status

pub plan-IsPlanned : (p : Page) → IsPlanned (plan p)
unfolding plan
plan-IsPlanned p = refl

on_timer-IsPlanned : (o : Option Text) (p : Page) → IsPlanned p → IsPlanned (on_timer o p)
unfolding on_timer plan
on_timer-IsPlanned none p h = h
on_timer-IsPlanned (some t) p h = refl

run-IsPlanned : (es : List Event) (p : Page) → IsPlanned p → IsPlanned (run p es)
unfolding run step
run-IsPlanned [] p h = h
run-IsPlanned (navigated t ∷ es) p h =
    run-IsPlanned es (plan (record p { pathname = t })) (plan-IsPlanned (record p { pathname = t }))
run-IsPlanned (status_changed s ∷ es) p h =
    run-IsPlanned es (plan (record p { status = s })) (plan-IsPlanned (record p { status = s }))
run-IsPlanned (timer ∷ es) p h =
    run-IsPlanned es (on_timer p.target p) (on_timer-IsPlanned p.target p h)

-- The timer follows one redirection.
on_timer-follow :
    (p : Page)
    → IsPlanned p
    → ((on_timer p.target p).pathname ≡ follow p.status p.pathname)
      × ((on_timer p.target p).status ≡ p.status)
unfolding on_timer plan
on_timer-follow p h = elim (Option-cases (main_redirect p.pathname p.status)) [
  | inl n ↦ rw (h, n) (refl, refl)
  | inr (t, e) ↦ rw (h, e) (refl, refl)
]

-- A page that is at rest: no redirection is planned, and the chat is shown where the cluster is
-- available and is not shown where it is idle.
pub record IsRested (p : Page) : Type 0 where
  pub unplanned : p.target ≡ none
  pub on_chat : is_available p.status && not (starts_with path_chat p.pathname) ≡ false
  pub off_chat : is_idle p.status && starts_with path_chat p.pathname ≡ false

no_redirect :
    (pathname : Text) (status : ClusterStatus)
    → main_redirect pathname status ≡ none
    → (is_available status && not (starts_with path_chat pathname) ≡ false)
      × (is_idle status && starts_with path_chat pathname ≡ false)
unfolding main_redirect
no_redirect pathname status h = (ground arith, ground arith)

pub timers-IsRested :
    (p : Page)
    → IsPlanned p
    → IsRested (step (step p timer) timer) × ((step (step p timer) timer).status ≡ p.status)
unfolding step
timers-IsRested p planned =
    let p' = on_timer p.target p in
    let planned' = on_timer-IsPlanned p.target p planned in
    let q = on_timer p'.target p' in
    let (path, same) = on_timer-follow p planned in
    let (path', same') = on_timer-follow p' planned' in
    let none_left : main_redirect q.pathname q.status ≡ none =
      rw (path', same', same, path) (main_redirect-rests p.status p.pathname) in
    let (on_chat, off_chat) = no_redirect q.pathname q.status none_left in
    (
      record {
        unplanned = on_timer-IsPlanned p'.target p' planned' ∙ none_left;
        on_chat = on_chat;
        off_chat = off_chat;
      },
      same' ∙ same,
    )

-- Whatever the user and the cluster have done, once the timer has fired twice with nothing between,
-- the page is at rest: no redirection is planned any more, and the page is that of the chat if the
-- cluster is available, and is not that of the chat if it is idle. The status is still that of
-- before.
pub run-IsRested :
    (pathname : Text) (status : ClusterStatus) (es : List Event)
    → IsRested (step (step (run (mounted pathname status) es) timer) timer)
      × ((step (step (run (mounted pathname status) es) timer) timer).status
          ≡ (run (mounted pathname status) es).status)
run-IsRested pathname status es =
    let first : Page = record { pathname = pathname; status = status; target = none } in
    timers-IsRested (run (mounted pathname status) es)
      (run-IsPlanned es (mounted pathname status) (plan-IsPlanned first))
