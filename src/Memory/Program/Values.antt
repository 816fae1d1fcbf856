-- ===== src/Memory/Program/Values.antt =====
-- The values of elements that src/array.c and src/object.c change are what Value, Array and Object
-- say of them.
use nson.Array.{arr_pop, arr_take}
use nson.Memory.{
  Cell, Cells, Entries, nil, bool, int, real, arr, obj, pointer, blob, str, no_cells, cell,
  no_entries, entry, buffer, block, Heap, cells_len, free_block, allocate,
}
use nson.Memory.Build.{push_cell, concat_cells, push_entry, split_last, pair_cells, move_block}
use nson.Memory.Program.Calls.{same_run, refused}
use nson.Memory.Release.{uses, uses_cells, uses_entries}
use nson.Memory.Resources.{one, put_at, set}
use nson.Memory.View.{value, values, entry_values}
use nson.Object.{c_string, obj_push}
use nson.Prelude.{
  ℕ, zero, suc, ◌-◌, ◌≡◌, refl, true, false, some, Bytes, [], ◌∷◌, ◌==◌, length, take, arith, ap,
  Bool-cases, inl, inr,
}
use nson.Value.{Nson, Items, item, field, arr_len, arr_get, arr_push, arr_concat, obj_entries}

pub values-push_cell :
    (xs : Cells) (v : Cell) (g : ℕ → Bytes)
    → values (push_cell xs v) g ≡ arr_push (values xs g) (value v g)
unfolding value push_cell arr_push
values-push_cell no_cells v g = refl
values-push_cell (cell x xs) v g = ap (item (value x g)) (values-push_cell xs v g)

pub values-concat_cells :
    (xs ys : Cells) (g : ℕ → Bytes)
    → values (concat_cells xs ys) g ≡ arr_concat (values xs g) (values ys g)
unfolding value concat_cells arr_concat
values-concat_cells no_cells ys g = refl
values-concat_cells (cell x xs) ys g = ap (item (value x g)) (values-concat_cells xs ys g)

pub entry_values-push_entry :
    (fs : Entries) (k v : Cell) (g : ℕ → Bytes)
    → entry_values (push_entry fs k v) g ≡ obj_push (entry_values fs g) (value k g) (value v g)
unfolding value push_entry obj_push
entry_values-push_entry no_entries k v g = refl
entry_values-push_entry (entry k' v' fs) k v g =
    ap (field (value k' g) (value v' g)) (entry_values-push_entry fs k v g)

pub entry_values-pair_cells :
    (xs : Cells) (g : ℕ → Bytes) → entry_values (pair_cells xs) g ≡ obj_entries (values xs g)
unfolding value pair_cells obj_entries
entry_values-pair_cells no_cells g = refl
entry_values-pair_cells (cell k no_cells) g = refl
entry_values-pair_cells (cell k (cell v xs)) g =
    ap (field (value k g) (value v g)) (entry_values-pair_cells xs g)

pub arr_len-values : (xs : Cells) (g : ℕ → Bytes) → arr_len (values xs g) ≡ cells_len xs
unfolding value arr_len cells_len
arr_len-values no_cells g = refl
arr_len-values (cell x xs) g = ap suc (arr_len-values xs g)

-- The last element is the one at the end, and the others are those before it.
pub split_last-values :
    (x : Cell) (xs : Cells) (g : ℕ → Bytes)
    → (y : Cell) × (ys : Cells) × (split_last (cell x xs) ≡ some (y, ys))
      × (arr_get (values (cell x xs) g) (cells_len xs) ≡ some (value y g))
      × (arr_take (cells_len xs) (values (cell x xs) g) ≡ values ys g)
unfolding value split_last arr_get arr_take cells_len
split_last-values x no_cells g = (x, no_cells, refl, refl, refl)
split_last-values x (cell y ys) g =
    let (z, zs, run, last, rest) = split_last-values y ys g in
    (z, cell x zs, rw run refl, last, ap (item (value x g)) rest)

pub arr_pop_last :
    (xs rest : Items) (n : ℕ) (v : Nson)
    → arr_len xs ≡ suc n
    → arr_get xs n ≡ some v
    → arr_take n xs ≡ rest
    → arr_pop xs ≡ some (v, rest)
unfolding arr_pop
arr_pop_last xs rest n v len last before =
    let nonempty : (arr_len xs == 0) ≡ false = ground arith in
    let index : arr_len xs - 1 ≡ n = omega arith in
    rw nonempty (rw index (rw last (rw index (rw before refl))))

put_at_other :
    (m n : ℕ) (b : Bytes) (g : ℕ → Bytes) → one (buffer m) (buffer n) ≡ 0 → put_at n b g m ≡ g m
unfolding one put_at
put_at_other m n b g h = let apart : (n == m) ≡ false = ground arith in rw apart refl

pub put_at_self : (n : ℕ) (b : Bytes) (g : ℕ → Bytes) → put_at n b g n ≡ b
unfolding put_at
put_at_self n b g = let here : (n == n) ≡ true = ground arith in rw here refl

-- A buffer that an element does not hold may change.
mutual
  unfolding value uses

  pub value-put_at :
      (x : Cell) (n : ℕ) (b : Bytes) (g : ℕ → Bytes)
      → uses x (buffer n) ≡ 0
      → value x (put_at n b g) ≡ value x g
  value-put_at nil n b g h = refl
  value-put_at (bool i) n b g h = refl
  value-put_at (int i) n b g h = refl
  value-put_at (real r) n b g h = refl
  value-put_at (pointer p) n b g h = refl
  value-put_at (blob m) n b g h = ap Nson.blob (put_at_other m n b g h)
  value-put_at (str m) n b g h = ap Nson.str (put_at_other m n b g h)
  value-put_at (arr a xs) n b g h = ap Nson.arr (values-put_at xs n b g (omega (arith, h)))
  value-put_at (obj a messy fs) n b g h =
      ap (Nson.obj messy) (entry_values-put_at fs n b g (omega (arith, h)))

  values-put_at :
      (xs : Cells) (n : ℕ) (b : Bytes) (g : ℕ → Bytes)
      → uses_cells xs (buffer n) ≡ 0
      → values xs (put_at n b g) ≡ values xs g
  values-put_at no_cells n b g h = refl
  values-put_at (cell x xs) n b g h =
      rw (value-put_at x n b g (omega (arith, h)))
        (ap (item (value x g)) (values-put_at xs n b g (omega (arith, h))))

  pub entry_values-put_at :
      (fs : Entries) (n : ℕ) (b : Bytes) (g : ℕ → Bytes)
      → uses_entries fs (buffer n) ≡ 0
      → entry_values fs (put_at n b g) ≡ entry_values fs g
  entry_values-put_at no_entries n b g h = refl
  entry_values-put_at (entry k v fs) n b g h = rw (value-put_at k n b g (omega (arith, h))) (
      rw (value-put_at v n b g (omega (arith, h)))
        (ap (field (value k g) (value v g)) (entry_values-put_at fs n b g (omega (arith, h)))))

pub take-c_string : (key : Bytes) → take (length (c_string key)) key ≡ c_string key
unfolding c_string
take-c_string [] = refl
take-c_string (c ∷ cs) = elim (Bool-cases (c == 0)) [
  | inl e ↦ rw e refl
  | inr e ↦ rw e (ap (λ t. c ∷ t) (take-c_string cs))
]

-- A block that is moved leaves the buffers as they are.
pub move_block-bytes :
    (a a' : ℕ) (h after : Heap) → move_block a h ≡ some (a', after) → after.bytes ≡ h.bytes
unfolding move_block free_block allocate
move_block-bytes zero a' h after run =
    same_run (λ t. t.1.bytes ≡ h.bytes) (move_block 0 h) (h.next, allocate block h) (a', after) refl
      run refl
move_block-bytes (suc n) a' h after run = elim (Bool-cases (h.count (block (suc n)) == 0)) [
  | inl e ↦ absurd (refused (move_block (suc n) h) (rw e refl) run)
  | inr e ↦
      let freed = record h { count = set (block (suc n)) 0 h.count } in
      same_run (λ t. t.1.bytes ≡ h.bytes) (move_block (suc n) h) (h.next, allocate block freed)
        (a', after) (rw e refl) run refl
]
