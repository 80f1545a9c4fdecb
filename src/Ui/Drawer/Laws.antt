-- ===== src/Ui/Drawer/Laws.antt =====
-- When the dialog on a lost scheduler opens.
use toolkit_inference_mesh.Common.{
  ◌≡◌, refl, Bool, All, List, ◌∷◌, true, false, not, ◌&&◌, arith, [],
}
use toolkit_inference_mesh.Ui.Drawer.{
  Dialogs, Event, status_changed, need_more_nodes_changed, second_passed, closed, waiting_kind,
  rebalancing_kind, need_more_nodes_kind, failed_kind, run, step, is_failed, on_status,
  on_need_more_nodes, on_timer,
}
use toolkit_inference_mesh.Cluster.Status.{ClusterStatus, HostType, is_idle}

-- A change to a status that is neither failed nor idle, or to anything else.
abbrev pub is_healthy : Event → Bool
is_healthy (status_changed s) = not (is_failed s) && not (is_idle s)
is_healthy second_passed = true
is_healthy (need_more_nodes_changed n) = true
is_healthy (closed k) = true

abbrev pub IsQuiet : Dialogs → Type 0
IsQuiet d = (d.failed_open ≡ false) × (d.timer ≡ false)

step-IsQuiet :
    (host : HostType) (e : Event) (d : Dialogs)
    → is_healthy e ≡ true
    → IsQuiet d
    → IsQuiet (step host e d)
unfolding step on_status on_timer on_need_more_nodes
step-IsQuiet host (status_changed s) d h q = ground arith
step-IsQuiet host (need_more_nodes_changed n) d h q = q
step-IsQuiet host second_passed d h q = rw q.1 (q.0, refl)
step-IsQuiet host (closed waiting_kind) d h q = q
step-IsQuiet host (closed rebalancing_kind) d h q = q
step-IsQuiet host (closed need_more_nodes_kind) d h q = q
step-IsQuiet host (closed failed_kind) d h q = (refl, q.1)

run-IsQuiet' :
    (host : HostType) (es : List Event) (d : Dialogs)
    → All (λ e. is_healthy e ≡ true) es
    → IsQuiet d
    → IsQuiet (run host es d)
unfolding run
run-IsQuiet' host [] d h q = q
run-IsQuiet' host (e ∷ es) d h q =
    run-IsQuiet' host es (step host e d) h.1 (step-IsQuiet host e d h.0 q)

idle_over :
    (host : HostType) (s : ClusterStatus) (d : Dialogs)
    → d.failed_open ≡ false
    → is_healthy (status_changed s) ≡ true
    → IsQuiet (step host (status_changed s) d)
unfolding step on_status
idle_over host s d f h = ground arith

-- A cluster that comes back in time: if the dialog on a lost scheduler is closed and the status
-- changes to one that is neither failed nor idle, then, whether or not the timer of an idle status
-- was running, the dialog stays closed, and no timer runs, as long as no failed or idle status
-- follows, however much time passes.
pub run-IsQuiet :
    (host : HostType) (s : ClusterStatus) (es : List Event) (d : Dialogs)
    → d.failed_open ≡ false
    → is_healthy (status_changed s) ≡ true
    → All (λ e. is_healthy e ≡ true) es
    → IsQuiet (run host (status_changed s ∷ es) d)
unfolding run
run-IsQuiet host s es d f h hs =
    run-IsQuiet' host es (step host (status_changed s) d) hs (idle_over host s d f h)
