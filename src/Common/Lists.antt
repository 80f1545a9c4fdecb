-- ===== src/Common/Lists.antt =====
-- Lists measured and indexed by native numbers, and predicates on lists.
use mathlib.Core.Logic.{◌≢◌}
use Prim.Native.Nat.{ℕ, zero, suc, ◌+◌, ◌-◌, min, ◌≤◌}
use mathlib.Core.Path.{◌≡◌, refl, ap}
use mathlib.Core.Bool.{Bool, true, false, ◌&&◌, ◌||◌}
use mathlib.Core.List.{List, [], ◌∷◌, ◌++◌}
use mathlib.Core.Option.{Option, none, some}
use native.Mathlib.Omega.{arith}
use toolkit_inference_mesh.Common.Tests.{if◌then◌else◌}

module _ {ℓ} {A : Type ℓ} where
  abbrev pub length : List A → ℕ
  length [] = 0
  length (x ∷ xs) = suc (length xs)

  abbrev pub take : ℕ → List A → List A
  take zero xs = []
  take (suc n) [] = []
  take (suc n) (x ∷ xs) = x ∷ take n xs

  abbrev pub drop : ℕ → List A → List A
  drop zero xs = xs
  drop (suc n) [] = []
  drop (suc n) (x ∷ xs) = drop n xs

  -- `xs.slice(0, -1)`
  abbrev pub init : List A → List A
  init [] = []
  init (x ∷ []) = []
  init (x ∷ y ∷ xs) = x ∷ init (y ∷ xs)

  -- `xs[xs.length - 1]`
  abbrev pub get_last? : List A → Option A
  get_last? [] = none
  get_last? (x ∷ []) = some x
  get_last? (x ∷ y ∷ xs) = get_last? (y ∷ xs)

  abbrev pub All {κ} : (A → Type κ) → List A → Type κ
  All P [] = Unit
  All P (x ∷ xs) = P x × All P xs

  abbrev pub any : (A → Bool) → List A → Bool
  any p [] = false
  any p (x ∷ xs) = p x || any p xs

  abbrev pub every : (A → Bool) → List A → Bool
  every p [] = true
  every p (x ∷ xs) = p x && every p xs

  -- `filter` and `find` with a Boolean test, as the source has them.
  abbrev pub filter : (A → Bool) → List A → List A
  filter p [] = []
  filter p (x ∷ xs) = let rest = filter p xs in if p x then x ∷ rest else rest

  abbrev pub find : (A → Bool) → List A → Option A
  find p [] = none
  find p (x ∷ xs) = if p x then some x else find p xs

module _ {ℓ} {A : Type ℓ} where
  abbrev pub concat : List (List A) → List A
  concat [] = []
  concat (xs ∷ xss) = xs ++ concat xss

  pub length-append : (xs ys : List A) → length (xs ++ ys) ≡ length xs + length ys
  length-append [] ys = omega arith
  length-append (x ∷ xs) ys = omega (arith, length-append xs ys)

  pub length-drop : (n : ℕ) (xs : List A) → length (drop n xs) ≡ length xs - n
  length-drop zero xs = omega arith
  length-drop (suc n) [] = omega arith
  length-drop (suc n) (x ∷ xs) = omega (arith, length-drop n xs)

  pub length-take : (n : ℕ) (xs : List A) → length (take n xs) ≡ min n (length xs)
  length-take zero xs = omega arith
  length-take (suc n) [] = omega arith
  length-take (suc n) (x ∷ xs) = omega (arith, length-take n xs)

  pub take-append-drop : (n : ℕ) (xs : List A) → take n xs ++ drop n xs ≡ xs
  take-append-drop zero xs = refl
  take-append-drop (suc n) [] = refl
  take-append-drop (suc n) (x ∷ xs) = rw (take-append-drop n xs)

  pub init-snoc : (xs : List A) (x : A) → init (xs ++ x ∷ []) ≡ xs
  init-snoc [] x = refl
  init-snoc (y ∷ []) x = refl
  init-snoc (y ∷ z ∷ xs) x = ap (λ t. y ∷ t) (init-snoc (z ∷ xs) x)

  pub get_last?-snoc : (xs : List A) (x : A) → get_last? (xs ++ x ∷ []) ≡ some x
  get_last?-snoc [] x = refl
  get_last?-snoc (y ∷ []) x = refl
  get_last?-snoc (y ∷ z ∷ xs) x = get_last?-snoc (z ∷ xs) x

  pub All-append {κ} : (Q : A → Type κ) (us vs : List A) → All Q us → All Q vs → All Q (us ++ vs)
  All-append Q [] vs tested more = more
  All-append Q (u ∷ us) vs (first, tested) more = (first, All-append Q us vs tested more)

  pub All-split {κ} : (P : A → Type κ) (xs ys : List A) → All P (xs ++ ys) → All P xs × All P ys
  All-split P [] ys h = (tt, h)
  All-split P (x ∷ xs) ys h = let (a, b) = All-split P xs ys h.1 in ((h.0, a), b)

module _ {ℓ} {A : Type ℓ} where
  -- The number is given by an equation, so that it may be written in any way.
  pub drop-append : (n k : ℕ) (u w : List A) → n ≡ length u + k → drop n (u ++ w) ≡ drop k w
  drop-append n k [] w e = ap (λ m. drop m w) (omega (arith, e))
  drop-append zero k (x ∷ u) w e = absurd (omega arith)
  drop-append (suc n) k (x ∷ u) w e = drop-append n k u w (omega arith)

  pub take-append : (n k : ℕ) (u w : List A) → n ≡ length u + k → take n (u ++ w) ≡ u ++ take k w
  take-append n k [] w e = ap (λ m. take m w) (omega (arith, e))
  take-append zero k (x ∷ u) w e = absurd (omega arith)
  take-append (suc n) k (x ∷ u) w e = ap (λ t. x ∷ t) (take-append n k u w (omega arith))

  pub take_all : (n : ℕ) (xs : List A) → length xs ≤ n → take n xs ≡ xs
  take_all zero [] h = refl
  take_all (suc n) [] h = refl
  take_all zero (x ∷ xs) h = absurd (omega arith)
  take_all (suc n) (x ∷ xs) h = ap (λ t. x ∷ t) (take_all n xs (omega arith))

module _ {ℓ} {A : Type ℓ} where
  abbrev pub replicate : ℕ → A → List A
  replicate zero a = []
  replicate (suc n) a = a ∷ replicate n a

module _ {ℓ} {A : Type ℓ} where
  abbrev pub get_elem? : List A → ℕ → Option A
  get_elem? [] n = none
  get_elem? (x ∷ xs) zero = some x
  get_elem? (x ∷ xs) (suc n) = get_elem? xs n

  -- The element at a place, replaced; a place behind the end changes nothing.
  abbrev pub set : List A → ℕ → A → List A
  set [] n y = []
  set (x ∷ xs) zero y = y ∷ xs
  set (x ∷ xs) (suc n) y = x ∷ set xs n y

  pub get_elem?-set_other :
      (xs : List A) (n m : ℕ) (y : A) → n ≢ m → get_elem? (set xs n y) m ≡ get_elem? xs m
  get_elem?-set_other [] n m y h = refl
  get_elem?-set_other (x ∷ xs) zero zero y h = absurd (h refl)
  get_elem?-set_other (x ∷ xs) zero (suc m) y h = refl
  get_elem?-set_other (x ∷ xs) (suc n) zero y h = refl
  get_elem?-set_other (x ∷ xs) (suc n) (suc m) y h =
      get_elem?-set_other xs n m y (λ e. h (ap suc e))

  pub get_elem?-set_self :
      (xs : List A) (n : ℕ) (x y : A) → get_elem? xs n ≡ some x → get_elem? (set xs n y) n ≡ some y
  get_elem?-set_self [] n x y h = absurd (ground arith)
  get_elem?-set_self (z ∷ xs) zero x y h = refl
  get_elem?-set_self (z ∷ xs) (suc n) x y h = get_elem?-set_self xs n x y h

module _ {ℓ} {A : Type ℓ} (f : A → ℕ) where
  abbrev pub sum_of : List A → ℕ
  sum_of [] = 0
  sum_of (x ∷ xs) = f x + sum_of xs

  pub sum_of-snoc : (xs : List A) (x : A) → sum_of (xs ++ x ∷ []) ≡ sum_of xs + f x
  sum_of-snoc [] x = omega arith
  sum_of-snoc (y ∷ xs) x = omega (arith, sum_of-snoc xs x)

  pub sum_of-set :
      (xs : List A) (n : ℕ) (x y : A)
      → get_elem? xs n ≡ some x
      → sum_of (set xs n y) + f x ≡ sum_of xs + f y
  sum_of-set [] n x y h = ground arith
  sum_of-set (z ∷ xs) zero x y h = ground arith
  sum_of-set (z ∷ xs) (suc n) x y h = omega (arith, sum_of-set xs n x y h)

module _ {ℓ} {A : Type ℓ} where
  pub get_elem?-snoc_last : (xs : List A) (x : A) → get_elem? (xs ++ x ∷ []) (length xs) ≡ some x
  get_elem?-snoc_last [] x = refl
  get_elem?-snoc_last (y ∷ xs) x = rw (get_elem?-snoc_last xs x) refl

  pub get_elem?-append :
      (xs ys : List A) (n : ℕ) (x : A)
      → get_elem? xs n ≡ some x
      → (get_elem? (xs ++ ys) n ≡ some x) × (n ≢ length xs)
  get_elem?-append [] ys n x h = absurd (ground arith)
  get_elem?-append (y ∷ xs) ys zero x h = (h, omega arith)
  get_elem?-append (y ∷ xs) ys (suc n) x h =
      let (found, before) = get_elem?-append xs ys n x h in (found, λ e. before (omega (arith, e)))
