-- ===== src/Tests/Router.antt =====
-- The main router: the cluster becomes idle.
use toolkit_inference_mesh.Common.{◌≡◌, [], ◌∷◌}
use toolkit_inference_mesh.Js.Text.{lit}
use toolkit_inference_mesh.Cluster.Status.{available, idle}
use toolkit_inference_mesh.Ui.Router.Steps.{run, mounted, step, status_changed, timer}
use toolkit_inference_mesh.Ui.Router.Steps.Laws.{IsRested, run-IsRested}

run-IsRested_example :
    IsRested
      (step (step (run (mounted (lit "/") available) (status_changed idle ∷ [])) timer) timer)
    × ((step
          (step (run (mounted (lit "/") available) (status_changed idle ∷ [])) timer)
          timer).status
        ≡ idle)
unfolding run step
run-IsRested_example = run-IsRested (lit "/") available (status_changed idle ∷ [])
