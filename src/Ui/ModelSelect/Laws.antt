-- ===== src/Ui/ModelSelect/Laws.antt =====
-- When a choice starts the scheduler.
use toolkit_inference_mesh.Common.{◌≡◌, true, false, ◌∷◌, [], arith}
use toolkit_inference_mesh.Js.Text.{Text, text_eq}
use toolkit_inference_mesh.Js.Text.Laws.{text_eq_refl}
use toolkit_inference_mesh.Ui.ModelSelect.{Select, choose}

-- With automatic commit, the choice of a model that the cluster does not run and that is not the
-- configured one calls `init` exactly once, leaves the model configured, and leaves nothing to
-- commit; the choice of the model that the cluster runs calls it not at all.
pub choose-commits :
    (cluster_model value : Text) (s : Select)
    → text_eq s.config_model_name value ≡ false
    → (text_eq value cluster_model ≡ false
        → choose true cluster_model value s
          ≡ (record { config_model_name = value; can_auto_commit = false }, true ∷ false ∷ []))
      × (text_eq value cluster_model ≡ true
          → (choose true cluster_model value s).1 ≡ false ∷ false ∷ [])
unfolding choose
choose-commits cluster_model value s d = ground (arith, text_eq_refl value)
