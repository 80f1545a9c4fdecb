-- ===== src/Js/Result.antt =====
-- What a function of the source comes to that may throw.
use toolkit_inference_mesh.Common.{◌≡◌, refl}

pub data Result {ℓ} (A : Type ℓ) : Type ℓ where
  throws : Result A
  ok : A → Result A

infixl 5 ◌>>=◌
abbrev pub ◌>>=◌ {ℓ κ} : {B : Type κ} {A : Type ℓ} → Result A → (A → Result B) → Result B
throws >>= continue = throws
ok value >>= continue = continue value

pub ok-injective {ℓ} : {A : Type ℓ} {a b : A} → ok a ≡ ok b → a ≡ b
ok-injective h = cc

-- What a chain of steps that returns has gone through.
pub >>=-eq-ok {ℓ κ} :
    {B : Type κ} {A : Type ℓ} {last : B} (first : Result A) (continue : A → Result B)
    → (first >>= continue) ≡ ok last
    → (value : A) × (first ≡ ok value) × (continue value ≡ ok last)
>>=-eq-ok throws continue returned = cc
>>=-eq-ok (ok value) continue returned = (value, refl, returned)
