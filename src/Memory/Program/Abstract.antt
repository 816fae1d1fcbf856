-- ===== src/Memory/Program/Abstract.antt =====
-- What the calls of src/nson.h do to the values of a program's variables.
use nson.Array.{arr_pop}
use nson.Memory.{Cell, Heap}
use nson.Memory.Build.{DataType, blob_data, str_data}
use nson.Memory.Program.{
  Store, Step, exchanges, declares, leaves_scope, makes_data, shares_buffer, wraps_pointer, clones,
  cleans, pushes, pops, concats, makes_object, puts,
}
use nson.Memory.View.{value, view}
use nson.Object.{obj_put, obj_from_arr}
use nson.Prelude.{
  ℕ, ◌≡◌, Bool, true, false, Option, some, Bytes, List, [], ◌∷◌, ◌++◌, ◌>>=◌, length, take,
}
use nson.Util.Number.{Double}
use nson.Value.{Nson, Items, Fields, arr_push, arr_concat, no_fields, no_items}

-- The value that a constructor of data makes.
abbrev pub data_value : DataType → Bytes → Nson
data_value blob_data b = Nson.blob b
data_value str_data b = Nson.str b

-- An element that owns nothing, as a value.
unfoldable pub is_plain_value : Nson → Bool
is_plain_value Nson.nil = true
is_plain_value (Nson.bool i) = true
is_plain_value (Nson.int i) = true
is_plain_value (Nson.real r) = true
is_plain_value (Nson.arr no_items) = true
is_plain_value (Nson.obj messy no_fields) = true
is_plain_value _ = false

-- The calls, with their arguments that are no variables: the place of an exchange, the value
-- declared, the type and the text of a string or a blob, the address of a reference, and a key.
pub data Call : Type 0 where
  exchange_call : ℕ → Call
  declare_call : Nson → Call
  leave_call : Call
  data_call : DataType → Bytes → Call
  pointer_call : ℕ → Call
  clone_call clean_call push_call pop_call concat_call object_call : Call
  put_call : Bytes → Call

-- The call of a step. `__nson_init_buf` makes an element with the text of the buffer passed.
unfoldable pub call_of : {s t : Store} → Step s t → Call
call_of (exchanges us x y vs h) = exchange_call (length us)
call_of (declares x vs h e) = declare_call (value x h.bytes)
call_of (leaves_scope x vs h e) = leave_call
call_of (makes_data val len info vs h fits) = data_call info (take len val)
call_of (shares_buffer b info x vs h h' room run) = data_call info (h.bytes b)
call_of (wraps_pointer ptr dtor vs h) = pointer_call h.next
call_of (clones x y vs h h' room run) = clone_call
call_of (cleans x vs h h' run) = clean_call
call_of (pushes x v x' vs h h' run) = push_call
call_of (pops x x' v vs h run) = pop_call
call_of (concats x y x' vs h h' run) = concat_call
call_of (makes_object x x' vs h run) = object_call
call_of (puts x key v x' vs h h' fits run) = put_call key

-- What a call does to the values of the variables.
pub data Changes (d : Double) : Call → List Nson → List Nson → Type 0 where
  exchanged :
      (us : List Nson) (x y : Nson) (vs : List Nson)
      → Changes d (exchange_call (length us)) (us ++ (x ∷ y ∷ vs)) (us ++ (y ∷ x ∷ vs))
  declared :
      (x : Nson) (vs : List Nson) → is_plain_value x ≡ true → Changes d (declare_call x) vs (x ∷ vs)
  left_scope :
      (x : Nson) (vs : List Nson) → is_plain_value x ≡ true → Changes d leave_call (x ∷ vs) vs
  made_data :
      (info : DataType) (b : Bytes) (vs : List Nson)
      → Changes d (data_call info b) vs (data_value info b ∷ vs)
  made_pointer : (p : ℕ) (vs : List Nson) → Changes d (pointer_call p) vs (Nson.pointer p ∷ vs)
  cloned : (x : Nson) (vs : List Nson) → Changes d clone_call (x ∷ vs) (x ∷ x ∷ vs)
  cleaned : (x : Nson) (vs : List Nson) → Changes d clean_call (x ∷ vs) (Nson.nil ∷ vs)
  pushed :
      (xs : Items) (v : Nson) (vs : List Nson)
      → Changes d push_call (Nson.arr xs ∷ v ∷ vs) (Nson.arr (arr_push xs v) ∷ Nson.nil ∷ vs)
  popped :
      (xs rest : Items) (v : Nson) (vs : List Nson)
      → arr_pop xs ≡ some (v, rest)
      → Changes d pop_call (Nson.arr xs ∷ vs) (v ∷ Nson.arr rest ∷ vs)
  joined :
      (xs ys : Items) (vs : List Nson)
      → Changes d concat_call
          (Nson.arr xs ∷ Nson.arr ys ∷ vs)
          (Nson.arr (arr_concat xs ys) ∷ Nson.nil ∷ vs)
  made_object :
      (xs : Items) (x : Nson) (vs : List Nson)
      → obj_from_arr xs ≡ some x
      → Changes d object_call (Nson.arr xs ∷ vs) (x ∷ vs)
  put :
      (messy messy' : Bool) (fs fs' : Fields) (key : Bytes) (v : Nson) (vs : List Nson)
      → obj_put d messy fs key v ≡ (messy', fs')
      → Changes d (put_call key) (Nson.obj messy fs ∷ v ∷ vs) (Nson.obj messy' fs' ∷ Nson.nil ∷ vs)

-- The values of all variables; `none` is a read of freed memory.
unfoldable pub views_in : List Cell → Heap → Option (List Nson)
views_in [] h = some []
views_in (x ∷ vs) h = do u ← view x h; us ← views_in vs h; some (u ∷ us)

abbrev pub views : Store → Option (List Nson)
views t = views_in t.vars t.heap
