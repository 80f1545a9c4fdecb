-- ===== src/Ui/Hooks/Laws.antt =====
-- What is kept over the renderings of a component.
use toolkit_inference_mesh.Common.{
  ℕ, suc, ◌≡◌, refl, ap, Option, none, some, List, [], ◌∷◌, ◌++◌, map, false,
}
use toolkit_inference_mesh.Ui.Hooks.{
  Initial, initial_value, const_renders, function_calls, calls_function, unmounted, ref_renders,
  call_invoke,
}

module _ {ℓ} {A : Type ℓ} where
  const_renders_kept : (a : A) (is : List (Initial A)) → const_renders (some a) is ≡ map (λ i. a) is
  unfolding const_renders
  const_renders_kept a [] = refl
  const_renders_kept a (i ∷ is) = ap (λ l. a ∷ l) (const_renders_kept a is)

  function_calls_kept :
      (a : A) (is : List (Initial A)) → function_calls (some a) is ≡ map (λ i. false) is
  unfolding function_calls
  function_calls_kept a [] = refl
  function_calls_kept a (i ∷ is) = ap (λ l. false ∷ l) (function_calls_kept a is)

  -- All renderings of a component get from `useConst` the value of the first one, whatever the
  -- later ones hand over, and none but the first calls the function.
  pub const_renders_first :
      (i : Initial A) (is : List (Initial A))
      → (const_renders none (i ∷ is) ≡ map (λ j. initial_value i) (i ∷ is))
        × (function_calls none (i ∷ is) ≡ calls_function none i ∷ map (λ j. false) is)
  unfolding const_renders function_calls
  const_renders_first i is = (
    ap (λ l. initial_value i ∷ l) (const_renders_kept (initial_value i) is),
    ap (λ l. calls_function none i ∷ l) (function_calls_kept (initial_value i) is),
  )

module _ {ℓ} {F : Type ℓ} where
  ref_renders_kept :
      (n k : ℕ) (current : Option F) (fs : List F) (f : F)
      → ref_renders n (record { current = current; invoke = some k }) (fs ++ f ∷ [])
        ≡ (record { current = some f; invoke = some k }, map (λ g. k) (fs ++ f ∷ []))
  unfolding ref_renders
  ref_renders_kept n k current [] f = refl
  ref_renders_kept n k current (g ∷ fs) f = rw (ref_renders_kept (suc n) k (some g) fs f) refl

  -- The references after some renderings, and what they returned.
  ref_renders_last :
      (n : ℕ) (fs : List F) (f : F)
      → ref_renders n (unmounted F) (fs ++ f ∷ [])
        ≡ (record { current = some f; invoke = some n }, map (λ g. n) (fs ++ f ∷ []))
  unfolding ref_renders
  ref_renders_last n [] f = refl
  ref_renders_last n (g ∷ fs) f = rw (ref_renders_kept (suc n) n (some g) fs f) refl

module _ {ℓ κ} {A : Type ℓ} {B : Type κ} where
  -- All renderings of a component get from `useRefCallback` the function that the first one made,
  -- so it can stand in a list of dependencies, and a call of it runs the callback of the last
  -- rendering.
  pub ref_renders-call_invoke :
      (n : ℕ) (fs : List (A → B)) (f : A → B) (a : A)
      → ((ref_renders n (unmounted (A → B)) (fs ++ f ∷ [])).1 ≡ map (λ g. n) (fs ++ f ∷ []))
        × (call_invoke (ref_renders n (unmounted (A → B)) (fs ++ f ∷ [])).0 a ≡ some (f a))
  ref_renders-call_invoke n fs f a = rw (ref_renders_last n fs f) (refl, refl)
