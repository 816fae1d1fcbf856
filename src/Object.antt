-- ===== src/Object.antt =====
-- src/object.c: building objects. The lookup is in Lookup.
pub mod Build
pub mod Lookup
use Prim.Native.Nat.{Ordering, lt, eq, gt}
use nson.Buf.{buf_cmp}
use nson.Cmp.{nson_cmp}
use nson.Prelude.{
  ℕ, zero, suc, ◌+◌, ◌-◌, ◌<◌, ◌%◌, Bool, true, false, ◌&&◌, Option, none, some, Bytes, [], ◌∷◌,
  ltb, ◌==◌, if◌then◌else◌,
}
use nson.Util.Number.{Double}
use nson.Value.{
  Nson, Items, Fields, str, no_items, item, no_fields, field, arr_len, obj_size, obj_entries,
}

-- A C string: the bytes up to the first NUL.
unfoldable pub c_string : Bytes → Bytes
c_string [] = []
c_string (c ∷ cs) = let more = c ∷ c_string cs in if c == 0 then [] else more

unfoldable pub obj_push : Fields → Nson → Nson → Fields
obj_push no_fields k v = field k v no_fields
obj_push (field k' v' fs) k v = field k' v' (obj_push fs k v)

-- `&obj_last(object)->key`
unfoldable pub last_key : Fields → Option Nson
last_key no_fields = none
last_key (field k v no_fields) = some k
last_key (field k v (field k' v' fs)) = last_key (field k' v' fs)

module _ (d : Double) where
  -- `nson_cmp(last, key) > 0`
  unfoldable pub after_key : Option Nson → Nson → Bool
  after_key none key = false
  after_key (some last) key = elim (nson_cmp d last key) [ gt ↦ true | eq ↦ false | lt ↦ false ]

  -- `nson_obj_put`: the mark and the entries. The key is copied as a string.
  unfoldable pub obj_put : Bool → Fields → Bytes → Nson → Bool × Fields
  obj_put messy fs key v =
      let obj_key = Nson.str (c_string key) in
      let messy' =
        if messy && (ltb 0 (obj_size fs) && after_key (last_key fs) obj_key) then true else messy in
      (messy', obj_push fs obj_key v)

-- `nson_obj_from_arr`; `none` is the return of -1, where the array stays as it was.
unfoldable pub obj_from_arr : Items → Option Nson
obj_from_arr xs = if arr_len xs % 2 == 0 then some (Nson.obj true (obj_entries xs)) else none
