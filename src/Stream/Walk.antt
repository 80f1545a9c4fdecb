-- ===== src/Stream/Walk.antt =====
-- `walk` of services/chat.tsx: the nulls of a parsed event are taken out before it is handed on.
use toolkit_inference_mesh.Common.{if◌then◌else◌, ◌≡◌, refl, ap, false, arith}
use toolkit_inference_mesh.Js.Json.{
  Json, undef, null, bool, num, str, arr, obj, Items, nil, cons, Fields, end, field, is_null,
}

-- `delete data[key]` on a null of an object, `data[i] = undefined` on a null of an array.
unfoldable mutual
  pub walk : Json → Json
  walk (arr xs) = arr (walk_items xs)
  walk (obj fs) = obj (walk_fields fs)
  walk undef = undef
  walk null = null
  walk (bool b) = bool b
  walk (num n) = num n
  walk (str s) = str s

  pub walk_items : Items → Items
  walk_items nil = nil
  walk_items (cons x xs) =
      let x' = walk x in let xs' = walk_items xs in cons (if is_null x then undef else x') xs'

  pub walk_fields : Fields → Fields
  walk_fields end = end
  walk_fields (field k x fs) =
      let x' = walk x in let fs' = walk_fields fs in if is_null x then fs' else field k x' fs'

-- No null stands inside a value; the value itself may be null.
mutual
  pub NoNulls : Json → Type 0
  NoNulls (arr xs) = NoNullItems xs
  NoNulls (obj fs) = NoNullFields fs
  NoNulls undef = Unit
  NoNulls null = Unit
  NoNulls (bool b) = Unit
  NoNulls (num n) = Unit
  NoNulls (str s) = Unit

  pub NoNullItems : Items → Type 0
  NoNullItems nil = Unit
  NoNullItems (cons x xs) = (is_null x ≡ false) × NoNulls x × NoNullItems xs

  pub NoNullFields : Fields → Type 0
  NoNullFields end = Unit
  NoNullFields (field k x fs) = (is_null x ≡ false) × NoNulls x × NoNullFields fs

is_null-walk : (v : Json) → is_null (walk v) ≡ is_null v
unfolding walk
is_null-walk null = refl
is_null-walk _ = refl

mutual
  unfolding walk walk_items walk_fields NoNulls NoNullItems NoNullFields

  walk-NoNulls' : (v : Json) → NoNulls (walk v)
  walk-NoNulls' (arr xs) = walk_items-NoNulls xs
  walk-NoNulls' (obj fs) = walk_fields-NoNulls fs
  walk-NoNulls' undef = tt
  walk-NoNulls' null = tt
  walk-NoNulls' (bool b) = tt
  walk-NoNulls' (num n) = tt
  walk-NoNulls' (str s) = tt

  walk_items-NoNulls : (xs : Items) → NoNullItems (walk_items xs)
  walk_items-NoNulls nil = tt
  walk_items-NoNulls (cons x xs) =
      ground (arith, is_null-walk x, walk-NoNulls' x, walk_items-NoNulls xs)

  walk_fields-NoNulls : (fs : Fields) → NoNullFields (walk_fields fs)
  walk_fields-NoNulls end = tt
  walk_fields-NoNulls (field k x fs) =
      ground (arith, is_null-walk x, walk-NoNulls' x, walk_fields-NoNulls fs)

mutual
  unfolding walk walk_items walk_fields NoNulls NoNullItems NoNullFields

  walk_of_NoNulls : (v : Json) → NoNulls v → walk v ≡ v
  walk_of_NoNulls (arr xs) h = ap arr (walk_items_of_NoNulls xs h)
  walk_of_NoNulls (obj fs) h = ap obj (walk_fields_of_NoNulls fs h)
  walk_of_NoNulls undef h = refl
  walk_of_NoNulls null h = refl
  walk_of_NoNulls (bool b) h = refl
  walk_of_NoNulls (num n) h = refl
  walk_of_NoNulls (str s) h = refl

  walk_items_of_NoNulls : (xs : Items) → NoNullItems xs → walk_items xs ≡ xs
  walk_items_of_NoNulls nil h = refl
  walk_items_of_NoNulls (cons x xs) (n, h, hs) =
      rw (n, walk_of_NoNulls x h, walk_items_of_NoNulls xs hs)

  walk_fields_of_NoNulls : (fs : Fields) → NoNullFields fs → walk_fields fs ≡ fs
  walk_fields_of_NoNulls end h = refl
  walk_fields_of_NoNulls (field k x fs) (n, h, hs) =
      rw (n, walk_of_NoNulls x h, walk_fields_of_NoNulls fs hs)

-- After `walk` no null is left inside a value, at any depth, and a second `walk` changes nothing.
pub walk-NoNulls : (v : Json) → NoNulls (walk v) × (walk (walk v) ≡ walk v)
walk-NoNulls v = (walk-NoNulls' v, walk_of_NoNulls (walk v) (walk-NoNulls' v))
