-- ===== src/Js/Json.antt =====
-- JSON values.
use toolkit_inference_mesh.Common.{
  ℕ, Bool, if◌then◌else◌, true, false, Option, none, some, ◌==◌, not,
}
use toolkit_inference_mesh.Js.Text.{Text, text_eq, is_empty}

-- `undef` is the `undefined` that the source writes into arrays.
mutual
  pub data Json : Type 0 where
    undef : Json
    null : Json
    bool : Bool → Json
    num : ℕ → Json
    str : Text → Json
    arr : Items → Json
    obj : Fields → Json

  pub data Items : Type 0 where
    nil : Items
    cons : Json → Items → Items

  pub data Fields : Type 0 where
    end : Fields
    field : Text → Json → Fields → Fields

abbrev pub is_null : Json → Bool
is_null null = true
is_null _ = false

-- `v.key` on an object; `none` is `undefined`.
unfoldable pub get : Text → Fields → Option Json
get k end = none
get k (field j v fs) = let rest = get k fs in if text_eq j k then some v else rest

-- `undefined` as a value of its own.
abbrev pub or_undef : Option Json → Json
or_undef none = undef
or_undef (some v) = v

unfoldable pub truthy : Json → Bool
truthy undef = false
truthy null = false
truthy (bool b) = b
truthy (num n) = not (n == 0)
truthy (str s) = not (is_empty s)
truthy (arr xs) = true
truthy (obj fs) = true
