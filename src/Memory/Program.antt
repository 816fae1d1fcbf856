-- ===== src/Memory/Program.antt =====
-- The programs that use src/nson.h: their variables of type Nson, the heap, and one call after the
-- other.
pub mod Pieces
pub mod Balance
pub mod Calls
pub mod Reached
pub mod Values
pub mod Abstract
pub mod Changed
pub mod Refines
use nson.Buf.{size_max, sizeof_buf}
use nson.Prelude.{
  ℕ, zero, ◌+◌, ◌-◌, ◌<◌, ◌≤◌, ◌^◌, ◌≡◌, Bool, true, false, Option, some, [], ◌∷◌, ◌++◌, List,
  Bytes, length,
}
use nson.Object.{c_string}
use nson.Memory.{
  Cell, Cells, nil, bool, int, real, arr, obj, no_cells, no_entries, Resource, buffer, Heap,
  nson_clone, nson_clean,
}
use nson.Memory.Resources.{is_counted}
use nson.Memory.Release.{uses}
use nson.Memory.Build.{
  DataType, nson_init_data, nson_init_str, nson_init_buf, nson_ptr_wrap, nson_arr_push,
  nson_arr_pop, nson_arr_concat, nson_obj_from_arr, nson_obj_put,
}

pub record Store : Type 0 where
  pub vars : List Cell
  pub heap : Heap

-- What `{0}`, `nson_init`, `nson_int_wrap` and the like leave: nothing allocated.
unfoldable pub is_plain : Cell → Bool
is_plain nil = true
is_plain (bool i) = true
is_plain (int i) = true
is_plain (real r) = true
is_plain (arr zero no_cells) = true
is_plain (obj zero messy no_entries) = true
is_plain _ = false

abbrev pub store : List Cell → Heap → Store
store vs h = record { vars = vs; heap = h }

-- One call, whose operands are the first variables. The calls that use a counter do not make it
-- wrap, and the texts fit into a buffer.
pub data Step : Store → Store → Type 0 where
  exchanges :
      (us : List Cell) (x y : Cell) (vs : List Cell) (h : Heap)
      → Step (store (us ++ (x ∷ y ∷ vs)) h) (store (us ++ (y ∷ x ∷ vs)) h)
  declares :
      (x : Cell) (vs : List Cell) (h : Heap)
      → is_plain x ≡ true
      → Step (store vs h) (store (x ∷ vs) h)
  leaves_scope :
      (x : Cell) (vs : List Cell) (h : Heap)
      → is_plain x ≡ true
      → Step (store (x ∷ vs) h) (store vs h)
  makes_data :
      (val : Bytes) (len : ℕ) (info : DataType) (vs : List Cell) (h : Heap)
      → len ≤ size_max - sizeof_buf
      → Step
          (store vs h)
          (store ((nson_init_data val len info h).0 ∷ vs) (nson_init_data val len info h).1)
  shares_buffer :
      (b : ℕ) (info : DataType) (x : Cell) (vs : List Cell) (h h' : Heap)
      → h.count (buffer b) + 1 < 2 ^ 32
      → nson_init_buf b info h ≡ some (x, h')
      → Step (store vs h) (store (x ∷ vs) h')
  wraps_pointer :
      (ptr : ℕ) (dtor : Option ℕ) (vs : List Cell) (h : Heap)
      → Step (store vs h) (store ((nson_ptr_wrap ptr dtor h).0 ∷ vs) (nson_ptr_wrap ptr dtor h).1)
  clones :
      (x y : Cell) (vs : List Cell) (h h' : Heap)
      → ((s : Resource) → is_counted s ≡ true → h.count s + uses x s < 2 ^ 32)
      → nson_clone x h ≡ some (y, h')
      → Step (store (x ∷ vs) h) (store (y ∷ x ∷ vs) h')
  cleans :
      (x : Cell) (vs : List Cell) (h h' : Heap)
      → nson_clean x h ≡ some h'
      → Step (store (x ∷ vs) h) (store (nil ∷ vs) h')
  pushes :
      (x v x' : Cell) (vs : List Cell) (h h' : Heap)
      → nson_arr_push x v h ≡ some (x', h')
      → Step (store (x ∷ v ∷ vs) h) (store (x' ∷ nil ∷ vs) h')
  pops :
      (x x' v : Cell) (vs : List Cell) (h : Heap)
      → nson_arr_pop x ≡ some (v, x')
      → Step (store (x ∷ vs) h) (store (v ∷ x' ∷ vs) h)
  concats :
      (x y x' : Cell) (vs : List Cell) (h h' : Heap)
      → nson_arr_concat x y h ≡ some (x', h')
      → Step (store (x ∷ y ∷ vs) h) (store (x' ∷ nil ∷ vs) h')
  makes_object :
      (x x' : Cell) (vs : List Cell) (h : Heap)
      → nson_obj_from_arr x ≡ some x'
      → Step (store (x ∷ vs) h) (store (x' ∷ vs) h)
  puts :
      (x : Cell) (key : Bytes) (v x' : Cell) (vs : List Cell) (h h' : Heap)
      → length (c_string key) ≤ size_max - sizeof_buf
      → nson_obj_put x key v h ≡ some (x', h')
      → Step (store (x ∷ v ∷ vs) h) (store (x' ∷ nil ∷ vs) h')

-- A heap with nothing allocated.
abbrev pub IsEmpty : Heap → Type 0
IsEmpty h = ((s : Resource) → h.count s ≡ 0) × ((p : ℕ) → h.dtor_calls p ≡ 0) × (0 < h.next)

-- What a program reaches that starts with no variable.
pub data Reach : Store → Type 0 where
  started : (h : Heap) → IsEmpty h → Reach (store [] h)
  later : {s t : Store} → Reach s → Step s t → Reach t
