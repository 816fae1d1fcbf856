-- ===== src/Memory.antt =====
-- The ownership of src/data.c, src/nson.c, src/pointer.c, src/array.c and src/object.c: an element
-- in memory with the addresses of what it holds, and the counters of these in a heap. Addresses
-- are numbered as they are allocated, and 0 is NULL; an allocation that is tried succeeds.
pub mod Resources
pub mod Allocate
pub mod View
pub mod Release
pub mod Clone
pub mod Copy
pub mod Build
pub mod Program
use nson.Prelude.{
  ℕ, zero, suc, ◌+◌, ◌-◌, ◌%◌, ◌^◌, Bool, true, false, Option, none, some, Bytes, ◌==◌, ◌>>=◌,
  if◌then◌else◌,
}
use nson.Prelude.Int.{ℤ}
use nson.Value.{Nson, Items, Fields, no_items, item, no_fields, field}
pub use nson.Memory.Resources.{Resource, buffer, reference, block, set, add_one, Heap}

-- `union Nson`: a string or a blob has the address of its buffer, a pointer that of its reference,
-- an array and an object that of their block, whose elements stand beside it.
mutual
  pub data Cell : Type 0 where
    nil : Cell
    bool : ℤ → Cell
    int : ℤ → Cell
    real : ℕ → Cell
    pointer : ℕ → Cell
    arr : ℕ → Cells → Cell
    obj : ℕ → Bool → Entries → Cell
    blob : ℕ → Cell
    str : ℕ → Cell

  pub data Cells : Type 0 where
    no_cells : Cells
    cell : Cell → Cells → Cells

  pub data Entries : Type 0 where
    no_entries : Entries
    entry : Cell → Cell → Entries → Entries

-- The accesses to a counter, where `none` is one to memory that has been freed.
unfoldable pub retain : Resource → Heap → Option Heap
retain r h =
    let n = h.count r in
    if n == 0 then none else some (record h { count = set r ((n + 1) % 2 ^ 32) h.count })

-- `__nson_buf_release`: a counter of 0 stands for the freed buffer.
unfoldable pub release : Resource → Heap → Option Heap
release r h =
    let n = h.count r in
    if n == 0 then none else some (record h { count = set r ((n + 2 ^ 32 - 1) % 2 ^ 32) h.count })

-- `__nson_ptr_release`: the release that ends at 0 calls the destructor.
unfoldable pub ptr_release : ℕ → Heap → Option Heap
ptr_release p h = do
  after ← release (reference p) h
  some (
      if after.count (reference p) == 0
      then record after { dtor_calls = add_one p after.dtor_calls }
      else after)

-- `free` of the block of an array or an object; that of NULL does nothing.
unfoldable pub free_block : ℕ → Heap → Option Heap
free_block zero h = some h
free_block (suc n) h =
    if h.count (block (suc n)) == 0
    then none
    else some (record h { count = set (block (suc n)) 0 h.count })

-- `nson_clean` with the loops of `__nson_arr_clean` and `__nson_obj_clean`: the heap that is left.
unfoldable mutual
  pub nson_clean : Cell → Heap → Option Heap
  nson_clean (blob b) h = release (buffer b) h
  nson_clean (str b) h = release (buffer b) h
  nson_clean (pointer p) h = ptr_release p h
  nson_clean (arr a xs) h = do cleaned ← arr_clean xs h; free_block a cleaned
  nson_clean (obj a messy fs) h = do cleaned ← obj_clean fs h; free_block a cleaned
  nson_clean _ h = some h

  pub arr_clean : Cells → Heap → Option Heap
  arr_clean no_cells h = some h
  arr_clean (cell x xs) h = do after ← nson_clean x h; arr_clean xs after

  pub obj_clean : Entries → Heap → Option Heap
  obj_clean no_entries h = some h
  obj_clean (entry k v fs) h = do
    no_key ← nson_clean k h
    no_value ← nson_clean v no_key
    obj_clean fs no_value

-- `nson_arr_len` and `nson_obj_size` of an element; `none` is the assertion that fails.
unfoldable pub cells_len : Cells → ℕ
cells_len no_cells = 0
cells_len (cell x xs) = suc (cells_len xs)

unfoldable pub nson_arr_len : Cell → Option ℕ
nson_arr_len (arr a xs) = some (cells_len xs)
nson_arr_len _ = none

-- What `malloc`, `calloc` and `reallocarray` of NULL return is at the address `next`.
unfoldable pub allocate : (ℕ → Resource) → Heap → Heap
allocate kind h = record h { count = set (kind h.next) 1 h.count; next = h.next + 1 }

-- `mem_capacity` on an array whose length and block have been set to 0.
unfoldable pub new_block : ℕ → Heap → ℕ × Heap
new_block len h = if len == 0 then (0, h) else (h.next, allocate block h)

-- `__nson_arr_clone`, which copies the elements into a block of their own.
unfoldable pub arr_clone_block : Cell → Heap → Option (ℕ × Heap)
arr_clone_block x h = do len ← nson_arr_len x; some (new_block len h)

-- `__nson_obj_clone`, which asks for the length of an array.
unfoldable pub obj_clone_block : Cell → Heap → Option (ℕ × Heap)
obj_clone_block x h = do len ← nson_arr_len x; some (new_block len h)

-- The retain of a key in an object.
unfoldable pub retain_key : Cell → Heap → Option Heap
retain_key (str b) h = retain (buffer b) h
retain_key (blob b) h = retain (buffer b) h
retain_key _ h = none

-- `nson_mapper_clone`: the element that it leaves, and the heap.
unfoldable mutual
  pub nson_mapper_clone : Cell → Heap → Option (Cell × Heap)
  nson_mapper_clone (arr a xs) h = do
    (a', allocated) ← arr_clone_block (arr a xs) h
    (xs', after) ← arr_clone xs allocated
    some (arr a' xs', after)
  nson_mapper_clone (obj a messy fs) h = do
    (a', allocated) ← obj_clone_block (obj a messy fs) h
    (fs', after) ← obj_clone fs allocated
    some (obj a' messy fs', after)
  nson_mapper_clone (str b) h = do after ← retain (buffer b) h; some (str b, after)
  nson_mapper_clone (blob b) h = do after ← retain (buffer b) h; some (blob b, after)
  nson_mapper_clone (pointer p) h = do after ← retain (reference p) h; some (pointer p, after)
  nson_mapper_clone x h = some (x, h)

  -- `nson_map` with `nson_mapper_clone`, which returns 0 for every element.
  pub arr_clone : Cells → Heap → Option (Cells × Heap)
  arr_clone no_cells h = some (no_cells, h)
  arr_clone (cell x xs) h = do
    (x', after_one) ← nson_mapper_clone x h
    (xs', after) ← arr_clone xs after_one
    some (cell x' xs', after)

  pub obj_clone : Entries → Heap → Option (Entries × Heap)
  obj_clone no_entries h = some (no_entries, h)
  obj_clone (entry k v fs) h = do
    with_key ← retain_key k h
    (v', with_value) ← nson_mapper_clone v with_key
    (fs', after) ← obj_clone fs with_value
    some (entry k v' fs', after)

-- `nson_clone`, whose `memcpy` copies the element alone.
unfoldable pub nson_clone : Cell → Heap → Option (Cell × Heap)
nson_clone src h = nson_mapper_clone src h

-- `nson_move`: the destination and what is left of the source.
abbrev pub nson_move : Cell → Cell × Cell
nson_move src = (src, nil)
