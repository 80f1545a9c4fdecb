-- ===== src/Js/Text/Laws.antt =====
-- Laws of the string operations.
use mathlib.Core.Option
use toolkit_inference_mesh.Common.{
  ◌↔◌, refl, ==_iff, Bool-cases, length, All, ℕ, suc, ◌≡◌, sym, ap, ◌∙◌, ◌≢◌, inl, inr, true, some,
  [], ◌∷◌, ◌++◌, arith, drop, length-append, length-drop, drop-append, take-append, ◌+◌, false,
  none,
}
use toolkit_inference_mesh.Js.Text.{Text, text_eq, starts_with, index_of, replace_first}

pub text_eq_iff : (s t : Text) → (text_eq s t ≡ true) ↔ (s ≡ t)
unfolding text_eq
text_eq_iff [] [] = ground arith
text_eq_iff [] (b ∷ t) = ground arith
text_eq_iff (a ∷ s) [] = ground arith
text_eq_iff (a ∷ s) (b ∷ t) = ground (arith, ==_iff a b, text_eq_iff s t)

pub text_eq_refl : (s : Text) → text_eq s s ≡ true
text_eq_refl s = (text_eq_iff s s).1 refl

pub starts_with-append : (p s : Text) → starts_with p (p ++ s) ≡ true
unfolding starts_with
starts_with-append [] s = refl
starts_with-append (a ∷ p) s = ground (arith, starts_with-append p s)

pub split_of_starts_with : (p s : Text) → starts_with p s ≡ true → (v : Text) × (s ≡ p ++ v)
unfolding starts_with
split_of_starts_with [] s h = (s, refl)
split_of_starts_with (a ∷ p) [] h = cc
split_of_starts_with (a ∷ p) (b ∷ s) h =
    let (v, e) = split_of_starts_with p s (ground arith) in
    let same : a ≡ b = ground arith in (v, λ i. sym same i ∷ e i)

-- An index that is found is that of an occurrence.
pub index_of-some :
    (p s : Text) (i : ℕ)
    → index_of p s ≡ some i
    → (u : Text) × (v : Text) × (s ≡ u ++ (p ++ v)) × (length u ≡ i)
unfolding index_of
index_of-some p [] i h = elim (Bool-cases (starts_with p [])) [
  | inl y ↦ let (v, e) = split_of_starts_with p [] y in ([], v, e, ground arith)
  | inr n ↦ absurd (ground arith)
]
index_of-some p (c ∷ s) i h = elim (Bool-cases (starts_with p (c ∷ s))) [
  | inl y ↦ let (v, e) = split_of_starts_with p (c ∷ s) y in ([], v, e, ground arith)
  | inr n ↦
      let (j, at, e) = (Option.map-eq-some_iff suc (index_of p s)).0 (rw n at h) in
      let (u, v, same, len) = index_of-some p s j at in
      (c ∷ u, v, ap (λ t. c ∷ t) same, ap suc len ∙ e)
]

-- What occurs is found.
pub index_of-occurs : (p u v : Text) → (i : ℕ) × (index_of p (u ++ (p ++ v)) ≡ some i)
unfolding index_of
index_of-occurs [] [] [] = (0, refl)
index_of-occurs [] [] (c ∷ v) = (0, refl)
index_of-occurs (a ∷ p) [] v = (0, rw (starts_with-append (a ∷ p) v))
index_of-occurs p (c ∷ u) v =
    let (i, e) = index_of-occurs p u v in
    elim (Bool-cases (starts_with p (c ∷ (u ++ (p ++ v))))) [
      | inl y ↦ (0, rw y)
      | inr n ↦ (suc i, rw (n, e))
    ]

-- The text holds no `c`.
abbrev pub Lacks : ℕ → Text → Type 0
Lacks c s = All (λ d. d ≢ c) s

pub index_of_lacking : (a : ℕ) (p s : Text) → Lacks a s → index_of (a ∷ p) s ≡ none
unfolding index_of starts_with
index_of_lacking a p [] h = refl
index_of_lacking a p (c ∷ s) (h, hs) = ground (arith, index_of_lacking a p s hs)

pub index_of-append :
    (a : ℕ) (p u v : Text) → Lacks a u → index_of (a ∷ p) (u ++ (a ∷ p ++ v)) ≡ some (length u)
unfolding index_of
index_of-append a p [] v h = rw (starts_with-append (a ∷ p) v)
index_of-append a p (c ∷ u) v (h, hs) =
    let skip : starts_with (a ∷ p) (c ∷ (u ++ (a ∷ p ++ v))) ≡ false =
      unfold starts_with in ground arith in
    rw (skip, index_of-append a p u v hs)

-- Replacing an occurrence by nothing takes its length away.
pub length-replace_first :
    (p s : Text) (i : ℕ)
    → index_of p s ≡ some i
    → length (replace_first p [] s) + length p ≡ length s
unfolding replace_first
length-replace_first p s i h =
    let (u, v, e, len) = index_of-some p s i h in
    rw h (
      rw e (
        rw
          (
            take-append i 0 u (p ++ v) (omega arith),
            drop-append (i + length p) (length p) u (p ++ v) (omega arith),
          )
          (omega (
            arith,
            length-append (u ++ []) (drop (length p) (p ++ v)),
            length-append u (p ++ v),
            length-append p v,
            length-append {0} u [],
            length-drop (length p) (p ++ v),
          ))))

pub index_of-prefix : (p v : Text) → index_of p (p ++ v) ≡ some 0
unfolding index_of
index_of-prefix [] [] = refl
index_of-prefix [] (c ∷ v) = refl
index_of-prefix (a ∷ p) v = rw (starts_with-append (a ∷ p) v)

pub replace_first-prefix : (p r v : Text) → replace_first p r (p ++ v) ≡ r ++ v
unfolding replace_first
replace_first-prefix p r v =
    rw (index_of-prefix p v) (ap (λ t. r ++ t) (drop-append (0 + length p) 0 p v (omega arith)))
