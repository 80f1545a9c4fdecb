-- ===== src/Js/Text.antt =====
-- JavaScript strings as lists of code units, with the methods of String that the services call.
-- `to_lower_case` maps the ASCII letters; the other operations are exact.
pub mod Laws
use Prim.Native.Char.{code}
use Prim.Native.String.{String}
use toolkit_inference_mesh.Common.{
  ℕ, suc, ◌+◌, Bool, true, false, ◌&&◌, ◌||◌, Option, none, some, List, [], ◌∷◌, if◌then◌else◌, leb,
  ◌==◌, length, take, drop, ◌++◌,
}
use mathlib.Core.Option
use mathlib.Core.List.{reverse}
use Prim.Native.Nat.{min, max}

abbrev pub Text : Type 0
Text = List ℕ

-- A string literal of the source.
abbrev pub lit : String → Text
lit String.[] = []
lit (String.◌∷◌ c s) = code c ∷ lit s

unfoldable pub text_eq : Text → Text → Bool
text_eq [] [] = true
text_eq (a ∷ s) (b ∷ t) = a == b && text_eq s t
text_eq _ _ = false

abbrev pub is_empty : Text → Bool
is_empty [] = true
is_empty _ = false

-- White space and line terminators, as `trim` reads them.
unfoldable pub is_space : ℕ → Bool
is_space c =
    leb 9 c && leb c 13
    || c == 32
    || c == 160
    || c == 5760
    || leb 8192 c && leb c 8202
    || c == 8232
    || c == 8233
    || c == 8239
    || c == 8287
    || c == 12288
    || c == 65279

unfoldable pub trim_start : Text → Text
trim_start [] = []
trim_start (c ∷ s) = let rest = trim_start s in if is_space c then rest else c ∷ s

unfoldable pub trim : Text → Text
unfolding trim_start is_space
trim s = reverse (trim_start (reverse (trim_start s)))

unfoldable pub starts_with : Text → Text → Bool
starts_with [] s = true
starts_with (p ∷ ps) [] = false
starts_with (p ∷ ps) (c ∷ s) = p == c && starts_with ps s

-- `s.indexOf(p)`, with `none` for -1.
unfoldable pub index_of : Text → Text → Option ℕ
unfolding starts_with
index_of p [] = if starts_with p [] then some 0 else none
index_of p (c ∷ s) =
    let rest = Option.map suc (index_of p s) in if starts_with p (c ∷ s) then some 0 else rest

abbrev pub is_some {ℓ} : {A : Type ℓ} → Option A → Bool
is_some none = false
is_some (some _) = true

unfoldable pub includes : Text → Text → Bool
unfolding index_of
includes p s = is_some (index_of p s)

unfoldable pub to_lower_case : Text → Text
to_lower_case [] = []
to_lower_case (c ∷ s) = (if leb 65 c && leb c 90 then c + 32 else c) ∷ to_lower_case s

abbrev pub push_head : ℕ → List Text → List Text
push_head c [] = (c ∷ []) ∷ []
push_head c (l ∷ ls) = (c ∷ l) ∷ ls

-- `s.split(sep)` at one code unit.
unfoldable pub split : (ℕ → Bool) → Text → List Text
split sep [] = [] ∷ []
split sep (c ∷ s) = let rest = split sep s in if sep c then [] ∷ rest else push_head c rest

-- `s.substring(a, b)`: the bounds are cut to the length and put in order.
unfoldable pub substring : ℕ → ℕ → Text → Text
substring a b s =
    let a' = min a (length s) in let b' = min b (length s) in drop (min a' b') (take (max a' b') s)

-- `s.replace(p, r)` for a text `p`, and an `r` without `$`: the first occurrence.
abbrev replace_at : Text → Text → Text → Option ℕ → Text
replace_at p r s none = s
replace_at p r s (some i) = take i s ++ (r ++ drop (i + length p) s)

unfoldable pub replace_first : Text → Text → Text → Text
unfolding index_of
replace_first p r s = replace_at p r s (index_of p s)
