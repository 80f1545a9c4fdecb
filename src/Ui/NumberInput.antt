-- ===== src/Ui/NumberInput.antt =====
-- `NumberInput` (components/inputs/number-input.tsx). `parseInt` is the parameter `parse_int`; the
-- value of the input, which the browser keeps a finite number, is a number, 0 for an empty input.
-- Numbers are doubles: a sum or a difference is rounded.
pub mod Laws
pub mod View
use toolkit_inference_mesh.Common.{
  ℕ, zero, suc, ◌+◌, ◌-◌, ◌*◌, ◌/◌, ◌%◌, ◌^◌, ltb, true, false, if◌then◌else◌, max, List, [], ◌∷◌,
}
use toolkit_inference_mesh.Js.Text.{Text}

-- What `parseInt` returns.
pub data Parsed : Type 0 where
  nan : Parsed
  positive : ℕ → Parsed
  negative : ℕ → Parsed

-- `Math.max(1, parsed || 1)`
abbrev pub at_least_one : Parsed → ℕ
at_least_one nan = 1
at_least_one (positive n) = max 1 n
at_least_one (negative n) = 1

unfoldable pub on_change : (Text → Parsed) → Text → ℕ
on_change parse_int value = at_least_one (parse_int value)

-- From here on the doubles do not hold every whole number.
abbrev pub safe_bound : ℕ
safe_bound = 2 ^ 53

-- The distance of the doubles at a whole number, from `unit` on. (971 rounds, since no double reaches
-- 2 ^ 1024.)
unfoldable pub double_unit : ℕ → ℕ → ℕ → ℕ
double_unit zero unit n = unit
double_unit (suc rounds) unit n = elim (ltb n (safe_bound * unit)) [
  | true ↦ unit
  | false ↦ double_unit rounds (2 * unit) n
]

-- The nearest multiple of `unit`, of two the one with an even factor.
unfoldable pub nearest : ℕ → ℕ → ℕ
nearest unit n =
    let factor = n / unit in
    let rest = n % unit in
    if ltb (2 * rest) unit
    then factor * unit
    else if ltb unit (2 * rest)
    then (factor + 1) * unit
    else (factor + factor % 2) * unit

-- The double that a whole number is rounded to.
unfoldable pub to_double : ℕ → ℕ
unfolding double_unit nearest
to_double n = nearest (double_unit 971 1 n) n

-- A `prev - 1` below 0 is below 1 like the 0 that the subtraction gives for it.
unfoldable pub on_minus : ℕ → ℕ
unfolding to_double
on_minus prev = max 1 (to_double (prev - 1))

unfoldable pub on_plus : ℕ → ℕ
unfolding to_double
on_plus prev = max 1 (to_double (prev + 1))

pub data Edit : Type 0 where
  type_text : Text → Edit
  minus plus : Edit

-- The value of the input after an edit, which is also the value of the change event.
unfoldable pub edit : (Text → Parsed) → Edit → ℕ → ℕ
unfolding on_change on_minus on_plus
edit parse_int (type_text t) n = on_change parse_int t
edit parse_int minus n = on_minus n
edit parse_int plus n = on_plus n

unfoldable pub edits : (Text → Parsed) → List Edit → ℕ → ℕ
unfolding edit
edits parse_int [] n = n
edits parse_int (e ∷ es) n = edits parse_int es (edit parse_int e n)
