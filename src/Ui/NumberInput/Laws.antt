-- ===== src/Ui/NumberInput/Laws.antt =====
-- The bounds of the number of nodes.
use toolkit_inference_mesh.Common.{
  ℕ, ◌≡◌, ◌≤◌, ◌<◌, ◌+◌, ◌-◌, ◌⊎◌, inl, inr, refl, true, suc, ltb, ◌*◌, dec_lt, arith, List, [],
  ◌∷◌,
}
use toolkit_inference_mesh.Ui.NumberInput.{
  Parsed, Edit, safe_bound, to_double, double_unit, nearest, type_text, minus, plus, edit, edits,
  on_plus, on_minus, nan, positive, negative, at_least_one, on_change,
}
use toolkit_inference_mesh.Js.Text.{Text}

double_unit_of_small : (n rounds : ℕ) → n < safe_bound → double_unit (suc rounds) 1 n ≡ 1
unfolding double_unit
double_unit_of_small n rounds h =
    let small : ltb n (safe_bound * 1) ≡ true = ground (arith, h) in rw (small, double_unit) refl

nearest_one : (n : ℕ) → nearest 1 n ≡ n
unfolding nearest
nearest_one n = ground arith

-- Up to 2 ^ 53 a whole number is a double.
to_double_of_small : (n : ℕ) → n ≤ safe_bound → to_double n ≡ n
unfolding to_double
to_double_of_small n h = elim (dec_lt n safe_bound) [
  | yes small ↦ rw (double_unit_of_small n 970 small) (nearest_one n)
  | no large ↦
      let e : n ≡ safe_bound = omega (arith, h, large) in rw e (unfold nearest double_unit in refl)
]

module _ (parse_int : Text → Parsed) where
  one_≤-parsed : (p : Parsed) → 1 ≤ at_least_one p
  one_≤-parsed nan = omega arith
  one_≤-parsed (positive n) = omega arith
  one_≤-parsed (negative n) = omega arith

  one_≤-edit : (e : Edit) (n : ℕ) → 1 ≤ edit parse_int e n
  unfolding edit on_change on_minus on_plus
  one_≤-edit (type_text t) n = one_≤-parsed (parse_int t)
  one_≤-edit minus n = omega arith
  one_≤-edit plus n = omega arith

  one_more : (n : ℕ) → n < safe_bound → edit parse_int plus n ≡ n + 1
  unfolding edit on_plus
  one_more n h = rw (to_double_of_small (n + 1) (omega (arith, h))) (omega arith)

  back : (n : ℕ) → 1 ≤ n → n < safe_bound → edit parse_int minus (edit parse_int plus n) ≡ n
  unfolding edit on_minus
  back n k h =
      rw (one_more n h) (rw (to_double_of_small (n + 1 - 1) (omega (arith, h))) (omega (arith, k)))

  -- A number that is at least 1 stays so under any edits, whatever is typed and however often the
  -- buttons are clicked; and where it is then below 2 ^ 53, a click on plus makes it one more, and
  -- one on minus after that leads back. (From there on, doubles are rounded.)
  pub edits-bounds :
      (es : List Edit) (n : ℕ)
      → 1 ≤ n
      → (1 ≤ edits parse_int es n)
        × (((edits parse_int (plus ∷ []) (edits parse_int es n) ≡ edits parse_int es n + 1)
              × (edits parse_int (plus ∷ minus ∷ []) (edits parse_int es n) ≡ edits parse_int es n))
            ⊎ (safe_bound ≤ edits parse_int es n))
  unfolding edits
  edits-bounds [] n h = elim (dec_lt n safe_bound) [
    | yes small ↦ (h, inl (one_more n small, back n h small))
    | no large ↦ (h, inr (omega (arith, large)))
  ]
  edits-bounds (e ∷ es) n h = edits-bounds es (edit parse_int e n) (one_≤-edit e n)
