-- ===== src/Memory/View.antt =====
-- The value of src/nson.h that an element in memory stands for.
use nson.Prelude.{
  ℕ, zero, suc, ◌≤◌, ◌≡◌, refl, false, Option, none, some, Bytes, ◌==◌, ◌>>=◌, if◌then◌else◌, arith,
}
use nson.Value.{Nson, Items, Fields, no_items, item, no_fields, field}
use nson.Memory.{
  Cell, Cells, Entries, nil, bool, int, real, pointer, arr, obj, blob, str, no_cells, cell,
  no_entries, entry, Resource, buffer, reference, block, Heap,
}
use nson.Memory.Resources.{one_self}
use nson.Memory.Release.{uses, uses_cells, uses_entries, block_use}

-- What a reader finds behind an element; `none` is a read of freed memory.
unfoldable pub if_live : Resource → Heap → Nson → Option Nson
if_live r h v = if h.count r == 0 then none else some v

unfoldable pub if_block : ℕ → Heap → Nson → Option Nson
if_block zero h v = some v
if_block (suc n) h v = if_live (block (suc n)) h v

unfoldable mutual
  pub view : Cell → Heap → Option Nson
  view nil h = some Nson.nil
  view (bool i) h = some (Nson.bool i)
  view (int i) h = some (Nson.int i)
  view (real r) h = some (Nson.real r)
  view (pointer p) h = if_live (reference p) h (Nson.pointer p)
  view (blob b) h = if_live (buffer b) h (Nson.blob (h.bytes b))
  view (str b) h = if_live (buffer b) h (Nson.str (h.bytes b))
  view (arr a xs) h = do vs ← view_cells xs h; if_block a h (Nson.arr vs)
  view (obj a messy fs) h = do vs ← view_entries fs h; if_block a h (Nson.obj messy vs)

  pub view_cells : Cells → Heap → Option Items
  view_cells no_cells h = some no_items
  view_cells (cell x xs) h = do v ← view x h; vs ← view_cells xs h; some (item v vs)

  pub view_entries : Entries → Heap → Option Fields
  view_entries no_entries h = some no_fields
  view_entries (entry k v fs) h = do
    k' ← view k h
    v' ← view v h
    fs' ← view_entries fs h
    some (field k' v' fs')

-- The value where nothing has been freed.
unfoldable mutual
  pub value : Cell → (ℕ → Bytes) → Nson
  value nil g = Nson.nil
  value (bool i) g = Nson.bool i
  value (int i) g = Nson.int i
  value (real r) g = Nson.real r
  value (pointer p) g = Nson.pointer p
  value (blob b) g = Nson.blob (g b)
  value (str b) g = Nson.str (g b)
  value (arr a xs) g = Nson.arr (values xs g)
  value (obj a messy fs) g = Nson.obj messy (entry_values fs g)

  pub values : Cells → (ℕ → Bytes) → Items
  values no_cells g = no_items
  values (cell x xs) g = item (value x g) (values xs g)

  pub entry_values : Entries → (ℕ → Bytes) → Fields
  entry_values no_entries g = no_fields
  entry_values (entry k v fs) g = field (value k g) (value v g) (entry_values fs g)

if_live_lem : (r : Resource) (h : Heap) (v : Nson) → 1 ≤ h.count r → if_live r h v ≡ some v
unfolding if_live
if_live_lem r h v live = let e : (h.count r == 0) ≡ false = ground arith in rw e refl

if_block_lem :
    (a : ℕ) (h : Heap) (v : Nson)
    → ((s : Resource) → block_use a s ≤ h.count s)
    → if_block a h v ≡ some v
unfolding if_block block_use
if_block_lem zero h v live = refl
if_block_lem (suc n) h v live =
    if_live_lem (block (suc n)) h v (omega (arith, live (block (suc n)), one_self (block (suc n))))

-- An element that the heap holds is read without a use of freed memory.
mutual
  unfolding view value uses

  pub view_held :
      (x : Cell) (h : Heap)
      → ((s : Resource) → uses x s ≤ h.count s)
      → view x h ≡ some (value x h.bytes)
  view_held nil h ok = refl
  view_held (bool i) h ok = refl
  view_held (int i) h ok = refl
  view_held (real r) h ok = refl
  view_held (pointer p) h ok =
      if_live_lem _ h _ (omega (arith, ok (reference p), one_self (reference p)))
  view_held (blob b) h ok = if_live_lem _ h _ (omega (arith, ok (buffer b), one_self (buffer b)))
  view_held (str b) h ok = if_live_lem _ h _ (omega (arith, ok (buffer b), one_self (buffer b)))
  view_held (arr a xs) h ok =
      rw (view_cells_held xs h (λ s. omega (arith, ok s)))
        (if_block_lem a h _ (λ s. omega (arith, ok s)))
  view_held (obj a messy fs) h ok =
      rw (view_entries_held fs h (λ s. omega (arith, ok s)))
        (if_block_lem a h _ (λ s. omega (arith, ok s)))

  view_cells_held :
      (xs : Cells) (h : Heap)
      → ((s : Resource) → uses_cells xs s ≤ h.count s)
      → view_cells xs h ≡ some (values xs h.bytes)
  view_cells_held no_cells h ok = refl
  view_cells_held (cell x xs) h ok =
      rw (view_held x h (λ s. omega (arith, ok s)))
        (rw (view_cells_held xs h (λ s. omega (arith, ok s))) refl)

  view_entries_held :
      (fs : Entries) (h : Heap)
      → ((s : Resource) → uses_entries fs s ≤ h.count s)
      → view_entries fs h ≡ some (entry_values fs h.bytes)
  view_entries_held no_entries h ok = refl
  view_entries_held (entry k v fs) h ok = rw (view_held k h (λ s. omega (arith, ok s))) (
      rw (view_held v h (λ s. omega (arith, ok s)))
        (rw (view_entries_held fs h (λ s. omega (arith, ok s))) refl))
