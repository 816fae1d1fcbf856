-- ===== src/Object/Build.antt =====
-- Objects made of arrays, and entries put into objects.
use nson.Json.Brackets.{flat}
use nson.Object.{obj_push, obj_put, obj_from_arr, c_string}
use nson.Prelude.{
  ◌%◌, ◌≡◌, refl, ap, Bool, true, false, none, some, Bytes, arith, ◌==◌, ◌⊎◌, inl, inr, Bool-cases,
}
use nson.Util.Number.{Double}
use nson.Value.{
  Nson, Items, Fields, no_items, item, no_fields, field, arr_len, obj_entries, arr_concat,
}

flat-obj_entries : (xs : Items) → arr_len xs % 2 ≡ 0 → flat (obj_entries xs) ≡ xs
unfolding flat obj_entries arr_len
flat-obj_entries no_items h = refl
flat-obj_entries (item k no_items) h = absurd (omega arith)
flat-obj_entries (item k (item v xs)) h =
    ap (λ t. item k (item v t)) (flat-obj_entries xs (omega arith))

-- The conversion accepts exactly the arrays of even length, and the object holds the elements in
-- their order, as keys and values by turns, marked as unsorted.
pub obj_from_arr_lem :
    (xs : Items)
    → ((arr_len xs % 2 ≡ 1) × (obj_from_arr xs ≡ none))
      ⊎ ((fs : Fields) × (obj_from_arr xs ≡ some (Nson.obj true fs)) × (flat fs ≡ xs))
unfolding obj_from_arr
obj_from_arr_lem xs = elim (Bool-cases (arr_len xs % 2 == 0)) [
  | inl even ↦ inr (obj_entries xs, rw even, flat-obj_entries xs (ground arith))
  | inr odd ↦ inl (ground arith, rw odd)
]

flat-obj_push :
    (fs : Fields) (k v : Nson)
    → flat (obj_push fs k v) ≡ arr_concat (flat fs) (item k (item v no_items))
unfolding flat obj_push arr_concat
flat-obj_push no_fields k v = refl
flat-obj_push (field k' v' fs) k v = ap (λ t. item k' (item v' t)) (flat-obj_push fs k v)

-- A put appends the entry, whatever keys are there, and never changes the mark: an object that was
-- not marked as unsorted stays so when a smaller key is put behind a larger one.
pub obj_put_lem :
    (d : Double) (messy : Bool) (fs : Fields) (key : Bytes) (v : Nson)
    → ((obj_put d messy fs key v).0 ≡ messy)
      × (flat (obj_put d messy fs key v).1
          ≡ arr_concat (flat fs) (item (Nson.str (c_string key)) (item v no_items)))
unfolding obj_put
obj_put_lem d true fs key v = (ground arith, flat-obj_push fs _ v)
obj_put_lem d false fs key v = (refl, flat-obj_push fs _ v)
