-- ===== src/Memory/Build.antt =====
-- The elements that src/data.c, src/pointer.c, src/array.c and src/object.c make and change, in
-- memory. A block that changes its size is moved.
use nson.Buf.{size_max, sizeof_buf}
use nson.Prelude.{
  ℕ, zero, suc, ◌-◌, ◌%◌, true, false, Option, none, some, Bytes, ltb, ◌==◌, ◌>>=◌, take, length,
  if◌then◌else◌,
}
use nson.Memory.{
  Cell, Cells, Entries, bool, int, real, arr, obj, blob, str, pointer, no_cells, cell, no_entries,
  entry, buffer, reference, block, Heap, allocate, free_block, retain, nson_clean, cells_len,
}
use nson.Memory.Resources.{NsonPointerRef, noop_dtor, given, put_at}
use nson.Object.{c_string}
use nson.Prelude.Int.{ℤ, pos}
use nson.Value.{NsonType}

-- The two types that `nson_init_data` is called with.
pub data DataType : Type 0 where
  blob_data str_data : DataType

abbrev pub data_cell : DataType → ℕ → Cell
data_cell blob_data b = blob b
data_cell str_data b = str b

-- `__nson_buf_wrap`: the address of the buffer, which is NULL for a size that does not fit.
unfoldable pub buf_wrap : Bytes → ℕ → Heap → ℕ × Heap
buf_wrap val len h =
    if ltb (size_max - sizeof_buf) len
    then (0, h)
    else (h.next, record (allocate buffer h) { bytes = put_at h.next (take len val) h.bytes })

unfoldable pub nson_init_data : Bytes → ℕ → DataType → Heap → Cell × Heap
nson_init_data val len info h = let (b, after) = buf_wrap val len h in (data_cell info b, after)

-- The text ends at its first NUL.
unfoldable pub nson_init_str : Bytes → Heap → Cell × Heap
nson_init_str val h = nson_init_data val (length (c_string val)) str_data h

-- `__nson_init_buf`
unfoldable pub nson_init_buf : ℕ → DataType → Heap → Option (Cell × Heap)
nson_init_buf val info h = do after ← retain (buffer val) h; some (data_cell info val, after)

-- `nson_init`: an element with all bytes 0 but its type; `none` is the assertion.
abbrev pub nson_init : NsonType → Option Cell
nson_init NsonType.nil = none
nson_init NsonType.bool = some (bool (pos 0))
nson_init NsonType.int = some (int (pos 0))
nson_init NsonType.real = some (real 0)
nson_init NsonType.pointer = some (pointer 0)
nson_init NsonType.arr = some (arr 0 no_cells)
nson_init NsonType.obj = some (obj 0 false no_entries)
nson_init NsonType.blob = some (blob 0)
nson_init NsonType.str = some (str 0)

abbrev pub nson_init_arr : Cell
nson_init_arr = arr 0 no_cells

-- `nson_data`, and `nson_data_len`; `none` is the assertion, or a read of freed memory.
unfoldable pub nson_data : Cell → Heap → Option Bytes
nson_data (str b) h = if h.count (buffer b) == 0 then none else some (h.bytes b)
nson_data (blob b) h = if h.count (buffer b) == 0 then none else some (h.bytes b)
nson_data _ h = none

unfoldable pub nson_data_len : Cell → Heap → Option ℕ
nson_data_len x h = do val ← nson_data x h; some (length val)

-- `nson_ptr_wrap`, where `none` is a destructor that is NULL.
unfoldable pub nson_ptr_wrap : ℕ → Option ℕ → Heap → Cell × Heap
nson_ptr_wrap ptr dtor h =
    let ref : NsonPointerRef = record {
      dtor = elim dtor [ none ↦ noop_dtor | some f ↦ given f ];
      ptr = ptr;
    } in
    (pointer h.next, record (allocate reference h) { refs = put_at h.next ref h.refs })

-- `nson_ptr`; `none` is a read of freed memory.
unfoldable pub nson_ptr : ℕ → Heap → Option ℕ
nson_ptr p h = if h.count (reference p) == 0 then none else some ((h.refs p).ptr)

-- `reallocarray` of the block of an array or object that grows.
unfoldable pub move_block : ℕ → Heap → Option (ℕ × Heap)
move_block a h = do freed ← free_block a h; some (freed.next, allocate block freed)

unfoldable pub push_cell : Cells → Cell → Cells
push_cell no_cells v = cell v no_cells
push_cell (cell x xs) v = cell x (push_cell xs v)

unfoldable pub concat_cells : Cells → Cells → Cells
concat_cells no_cells ys = ys
concat_cells (cell x xs) ys = cell x (concat_cells xs ys)

unfoldable pub push_entry : Entries → Cell → Cell → Entries
push_entry no_entries k v = entry k v no_entries
push_entry (entry k' v' fs) k v = entry k' v' (push_entry fs k v)

-- `nson_arr_push`; the value is moved, so that its source is left nil. `none` is the assertion.
unfoldable pub nson_arr_push : Cell → Cell → Heap → Option (Cell × Heap)
nson_arr_push (arr a xs) v h = do
  (a', after) ← move_block a h
  some (arr a' (push_cell xs v), after)
nson_arr_push _ v h = none

unfoldable pub nson_arr_push_int : Cell → ℤ → Heap → Option (Cell × Heap)
nson_arr_push_int x value h = nson_arr_push x (int value) h

unfoldable pub nson_arr_push_real : Cell → ℕ → Heap → Option (Cell × Heap)
nson_arr_push_real x value h = nson_arr_push x (real value) h

unfoldable pub nson_arr_push_str : Cell → Bytes → Heap → Option (Cell × Heap)
nson_arr_push_str x value h = let (v, made) = nson_init_str value h in nson_arr_push x v made

-- The last element, and those before it.
unfoldable pub split_last : Cells → Option (Cell × Cells)
split_last no_cells = none
split_last (cell x no_cells) = some (x, no_cells)
split_last (cell x (cell y ys)) = do (z, zs) ← split_last (cell y ys); some (z, cell x zs)

-- `nson_arr_pop`: the element moved out, and the array, which keeps its block; `none` is -1 or the
-- assertion.
unfoldable pub nson_arr_pop : Cell → Option (Cell × Cell)
nson_arr_pop (arr a xs) = do (x, rest) ← split_last xs; some (x, arr a rest)
nson_arr_pop _ = none

-- `nson_arr_concat`: the first array; the second is cleaned with its length set to 0.
unfoldable pub nson_arr_concat : Cell → Cell → Heap → Option (Cell × Heap)
nson_arr_concat (arr a xs) (arr b ys) h = do
  (a', grown) ← if cells_len ys == 0 then some (a, h) else move_block a h
  after ← nson_clean (arr b no_cells) grown
  some (arr a' (concat_cells xs ys), after)
nson_arr_concat _ _ h = none

unfoldable pub pair_cells : Cells → Entries
pair_cells (cell k (cell v xs)) = entry k v (pair_cells xs)
pair_cells _ = no_entries

-- `nson_obj_from_arr`; `none` is -1 or the assertion.
unfoldable pub nson_obj_from_arr : Cell → Option Cell
nson_obj_from_arr (arr a xs) =
    if cells_len xs % 2 == 0 then some (obj a true (pair_cells xs)) else none
nson_obj_from_arr _ = none

-- `nson_obj_put`, less the mark, which it does not change.
unfoldable pub nson_obj_put : Cell → Bytes → Cell → Heap → Option (Cell × Heap)
nson_obj_put (obj a messy fs) key v h = do
  let (k, keyed) = nson_init_str key h
  (a', after) ← move_block a keyed
  some (obj a' messy (push_entry fs k v), after)
nson_obj_put _ key v h = none

-- `nson_obj_to_arr`, which takes an array as well, and does not look at its length.
unfoldable pub nson_obj_to_arr : Cell → Option Cell
nson_obj_to_arr (arr a xs) = some (obj a true (pair_cells xs))
nson_obj_to_arr _ = none

-- `__nson_obj_get_entry`, where `none` is NULL.
unfoldable pub obj_get_entry : Entries → ℕ → Option (Cell × Cell)
obj_get_entry no_entries i = none
obj_get_entry (entry k v fs) zero = some (k, v)
obj_get_entry (entry k v fs) (suc i) = obj_get_entry fs i

-- `nson_obj_get_key`: `none` is an assertion that fails, and inside it NULL.
unfoldable pub nson_obj_get_key : Cell → ℕ → Heap → Option (Option Bytes)
nson_obj_get_key (obj a messy fs) i h = elim (obj_get_entry fs i) [
  | none ↦ some none
  | some (k, v) ↦ do text ← nson_data k h; some (some text)
]
nson_obj_get_key _ i h = none
