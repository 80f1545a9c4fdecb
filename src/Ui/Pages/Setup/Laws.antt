-- ===== src/Ui/Pages/Setup/Laws.antt =====
-- How the setup page calls the scheduler.
use toolkit_inference_mesh.Common.{
  Bool, true, false, List, [], ◌∷◌, Bool-cases, ◌≡◌, refl, inl, inr, arith,
}
use toolkit_inference_mesh.Cluster.Config.{InitResult, ClusterConfig, init_scheduler}
use toolkit_inference_mesh.Ui.Pages.Setup.{
  on_settled, run, Event, step, on_click, Setup, clicked, settled, mounted, click_when,
}
use toolkit_inference_mesh.Cluster.Status.{ClusterStatus}
use toolkit_inference_mesh.Ui.Pages.{on_continue, needs_init}

-- One promise while the button is loading, and none else.
pub data IsSingle : Bool → List InitResult → Type 0 where
  idle : IsSingle false []
  busy : (r : InitResult) → IsSingle true (r ∷ [])

single_idle : (b : Bool) (rs : List InitResult) → IsSingle b rs → b ≡ false → rs ≡ []
single_idle b rs idle e = refl
single_idle b rs (busy r) e = absurd (ground arith)

settled_by :
    (accepted : Bool) (s : Setup) (b : Bool) (rs : List InitResult)
    → IsSingle b rs
    → s.loading ≡ b
    → s.waits ≡ rs
    → IsSingle (on_settled accepted rs s).0.loading (on_settled accepted rs s).0.waits
unfolding on_settled
settled_by accepted s b rs idle e f = rw (e, f) idle
settled_by accepted s b rs (busy r) e f = idle

on_click-IsSingle :
    (status : ClusterStatus) (config : ClusterConfig) (s : Setup)
    → s.loading ≡ false
    → IsSingle s.loading s.waits
    → IsSingle (on_click status config s).0.loading (on_click status config s).0.waits
unfolding on_click
on_click-IsSingle status config s l h = elim (Bool-cases (needs_init status)) [
  | inl y ↦ rw (y, single_idle s.loading s.waits h l) (busy (init_scheduler config))
  | inr n ↦ rw n h
]

clicked_by :
    (status : ClusterStatus) (config : ClusterConfig) (s : Setup) (b : Bool)
    → s.loading ≡ b
    → IsSingle s.loading s.waits
    → IsSingle (click_when b status config s).0.loading (click_when b status config s).0.waits
clicked_by status config s true e h = h
clicked_by status config s false e h = on_click-IsSingle status config s e h

on_settled-IsSingle :
    (accepted : Bool) (s : Setup)
    → IsSingle s.loading s.waits
    → IsSingle (on_settled accepted s.waits s).0.loading (on_settled accepted s.waits s).0.waits
on_settled-IsSingle accepted s h = settled_by accepted s s.loading s.waits h refl refl

step-IsSingle :
    (s : Setup) (e : Event)
    → IsSingle s.loading s.waits
    → IsSingle (step s e).0.loading (step s e).0.waits
unfolding step
step-IsSingle s (clicked status config) h = clicked_by status config s s.loading refl h
step-IsSingle s (settled accepted) h = on_settled-IsSingle accepted s h

run-IsSingle' :
    (es : List Event) (s : Setup)
    → IsSingle s.loading s.waits
    → IsSingle (run s es).0.loading (run s es).0.waits
unfolding run
run-IsSingle' [] s h = h
run-IsSingle' (e ∷ es) s h = run-IsSingle' es (step s e).0 (step-IsSingle s e h)

-- However often the user clicks on the button to continue, and whatever the cluster and the
-- configuration are at each click, at most one call of `init` is on its way at any time, and the
-- button is loading exactly while one is.
pub run-IsSingle : (es : List Event) → IsSingle (run mounted es).0.loading (run mounted es).0.waits
run-IsSingle es = run-IsSingle' es mounted idle

-- A click whose promise settles before the next does what `onContinue` says as a whole.
pub run-on_continue :
    (status : ClusterStatus) (config : ClusterConfig) (accepted : Bool)
    → (run mounted (clicked status config ∷ settled accepted ∷ [])).1
      ≡ on_continue status config accepted
unfolding run step on_click on_settled on_continue
run-on_continue status config accepted = ground arith
