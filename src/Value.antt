-- ===== src/Value.antt =====
-- The data of src/nson.h: an element (`union Nson`) as the tree that it owns. A buffer is the list
-- of its bytes, an array its elements, and an object its entries with the mark `messy`. A `double`
-- is its bit pattern.
use nson.Prelude.{ℕ, zero, suc, Bool, Bytes, Option, none, some}
use nson.Prelude.Int.{ℤ}

-- `enum NsonType`
pub data NsonType : Type 0 where
  nil bool int real pointer arr obj blob str : NsonType

-- The value of the enumerator.
abbrev pub type_code : NsonType → ℕ
type_code nil = 0
type_code bool = 1
type_code int = 2
type_code real = 3
type_code pointer = 4
type_code arr = 5
type_code obj = 6
type_code blob = 7
type_code str = 8

-- `bool` and `int` hold the member `i.i`, `pointer` the address of the reference.
mutual
  pub data Nson : Type 0 where
    nil : Nson
    bool : ℤ → Nson
    int : ℤ → Nson
    real : ℕ → Nson
    pointer : ℕ → Nson
    arr : Items → Nson
    obj : Bool → Fields → Nson
    blob : Bytes → Nson
    str : Bytes → Nson

  pub data Items : Type 0 where
    no_items : Items
    item : Nson → Items → Items

  pub data Fields : Type 0 where
    no_fields : Fields
    field : Nson → Nson → Fields → Fields

-- `nson_type`
abbrev pub nson_type : Nson → NsonType
nson_type nil = nil
nson_type (bool i) = bool
nson_type (int i) = int
nson_type (real r) = real
nson_type (pointer p) = pointer
nson_type (arr xs) = arr
nson_type (obj messy fs) = obj
nson_type (blob b) = blob
nson_type (str b) = str

-- `nson_arr_len` and `nson_obj_size`
unfoldable pub arr_len : Items → ℕ
arr_len no_items = 0
arr_len (item x xs) = suc (arr_len xs)

unfoldable pub obj_size : Fields → ℕ
obj_size no_fields = 0
obj_size (field k v fs) = suc (obj_size fs)

-- `nson_arr_push`, whose reallocation succeeds: the value is moved behind the last element.
unfoldable pub arr_push : Items → Nson → Items
arr_push no_items v = item v no_items
arr_push (item x xs) v = item x (arr_push xs v)

-- `nson_arr_get`; `none` is an index that its assertion refuses.
unfoldable pub arr_get : Items → ℕ → Option Nson
arr_get no_items i = none
arr_get (item x xs) zero = some x
arr_get (item x xs) (suc i) = arr_get xs i

-- The cast of `nson_obj_from_arr`: the array seen as one of key-value pairs.
unfoldable pub obj_entries : Items → Fields
obj_entries (item k (item v xs)) = field k v (obj_entries xs)
obj_entries _ = no_fields

-- `nson_arr_concat`: the elements of the second array are copied behind those of the first.
unfoldable pub arr_concat : Items → Items → Items
arr_concat no_items ys = ys
arr_concat (item x xs) ys = item x (arr_concat xs ys)
