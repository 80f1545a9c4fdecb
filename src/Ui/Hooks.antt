-- ===== src/Ui/Hooks.antt =====
-- The hooks of hooks/use-const.ts and hooks/use-callback.ts, over the renderings of a component. A
-- value that `useRef` keeps is an `Option`, none before the first rendering.
pub mod Laws
use toolkit_inference_mesh.Common.{ℕ, suc, Option, none, some, List, [], ◌∷◌, Bool, true, false}

-- The argument of `useConst`: a value, or a function, with the value that it returns.
pub data Initial {ℓ} (A : Type ℓ) : Type ℓ where
  value : A → Initial A
  function : A → Initial A

module _ {ℓ} {A : Type ℓ} where
  -- `typeof value === 'function' ? value() : value`
  abbrev pub initial_value : Initial A → A
  initial_value (value a) = a
  initial_value (function a) = a

  -- What the reference holds after a rendering, which is what `useConst` returns.
  abbrev pub use_const : Option A → Initial A → A
  use_const none i = initial_value i
  use_const (some a) i = a

  -- Whether a rendering calls the function.
  abbrev pub calls_function : Option A → Initial A → Bool
  calls_function none (function a) = true
  calls_function none (value a) = false
  calls_function (some a) i = false

  -- What each of some renderings returns.
  unfoldable pub const_renders : Option A → List (Initial A) → List A
  const_renders ref [] = []
  const_renders ref (i ∷ is) = use_const ref i ∷ const_renders (some (use_const ref i)) is

  unfoldable pub function_calls : Option A → List (Initial A) → List Bool
  function_calls ref [] = []
  function_calls ref (i ∷ is) = calls_function ref i ∷ function_calls (some (use_const ref i)) is

  abbrev pub use_const_callback : Option A → A → A
  use_const_callback none callback = callback
  use_const_callback (some kept) callback = kept

-- The references of `useRefCallback`: the callback of the last rendering, and the arrow function
-- that `useConstCallback` keeps, named by the number of the rendering that made it.
pub record RefCallback {ℓ} (F : Type ℓ) : Type ℓ where
  pub current : Option F
  pub invoke : Option ℕ

abbrev pub unmounted {ℓ} : (F : Type ℓ) → RefCallback F
unmounted F = record { current = none; invoke = none }

module _ {ℓ} {F : Type ℓ} where
  -- The rendering with a number: the references after it, and the function that it returns.
  abbrev pub use_ref_callback : ℕ → F → RefCallback F → RefCallback F × ℕ
  use_ref_callback n callback r = (
    record { current = some callback; invoke = some (use_const_callback r.invoke n) },
    use_const_callback r.invoke n,
  )

  unfoldable pub ref_renders : ℕ → RefCallback F → List F → RefCallback F × List ℕ
  ref_renders n r [] = (r, [])
  ref_renders n r (f ∷ fs) =
      let (r', invoke) = use_ref_callback n f r in
      let (last, invokes) = ref_renders (suc n) r' fs in (last, invoke ∷ invokes)

-- A call of the function that is returned: `ref.current?.(...args)`.
abbrev pub call_invoke {ℓ κ} : {A : Type ℓ} → {B : Type κ} → RefCallback (A → B) → A → Option B
call_invoke r a = elim r.current [ none ↦ none | some f ↦ some (f a) ]
