-- ===== src/Json/Plain.antt =====
-- The values whose JSON print is read back as it was.
use nson.Prelude.{Bytes, true}
use nson.Prelude.Int.{ℤ, pos}
use nson.Json.Text.Written.{IsWritable}
use nson.Util.Decimal.RoundTrip.{IsParsable}
use nson.Value.{Nson, Items, Fields, bool, int, arr, obj, str, no_items, item, no_fields, field}

-- Strings that are written in full, the integers that the reader takes, and the truth values.
pub data IsPlainScalar : Nson → Type 0 where
  scalar_str : {s : Bytes} → IsWritable s → IsPlainScalar (str s)
  scalar_int : {z : ℤ} → IsParsable z → IsPlainScalar (int z)
  scalar_false : IsPlainScalar (bool (pos 0))
  scalar_true : IsPlainScalar (bool (pos 1))

-- Such scalars, and arrays and objects of plain values, the objects with the mark that the parser
-- sets.
mutual
  pub data IsPlain : Nson → Type 0 where
    scalar_plain : {v : Nson} → IsPlainScalar v → IsPlain v
    arr_plain : {xs : Items} → AllPlain xs → IsPlain (arr xs)
    obj_plain : {fs : Fields} → FieldsPlain fs → IsPlain (obj true fs)

  pub data AllPlain : Items → Type 0 where
    none_plain : AllPlain no_items
    more_plain : {x : Nson} {xs : Items} → IsPlain x → AllPlain xs → AllPlain (item x xs)

  pub data FieldsPlain : Fields → Type 0 where
    end_plain : FieldsPlain no_fields
    field_plain :
        {k v : Nson} {fs : Fields}
        → IsPlain k
        → IsPlain v
        → FieldsPlain fs
        → FieldsPlain (field k v fs)
