-- ===== src/Memory/Program/Pieces.antt =====
-- What the parts of an element hold, where src/array.c and src/object.c move them.
use nson.Prelude.{ℕ, zero, suc, ◌+◌, ◌%◌, ◌≡◌, refl, true, some, List, [], ◌∷◌, ◌++◌, arith}
use nson.Memory.{
  Cell, Cells, Entries, no_cells, cell, no_entries, entry, Resource, cells_len, nil, bool, int,
  real, arr, obj, pointer, blob, str,
}
use nson.Memory.Build.{push_cell, concat_cells, push_entry, split_last, pair_cells}
use nson.Memory.Program.{is_plain}
use nson.Memory.Release.{uses, uses_cells, uses_entries, block_use}

unfoldable pub total : List Cell → Resource → ℕ
total [] s = 0
total (x ∷ vs) s = uses x s + total vs s

pub total_exchange :
    (us : List Cell) (x y : Cell) (vs : List Cell) (s : Resource)
    → total (us ++ (x ∷ y ∷ vs)) s ≡ total (us ++ (y ∷ x ∷ vs)) s
unfolding total
total_exchange [] x y vs s = omega arith
total_exchange (u ∷ us) x y vs s = omega (arith, total_exchange us x y vs s)

pub uses_plain : (x : Cell) (s : Resource) → is_plain x ≡ true → uses x s ≡ 0
unfolding is_plain uses block_use
uses_plain nil s h = refl
uses_plain (bool i) s h = refl
uses_plain (int i) s h = refl
uses_plain (real r) s h = refl
uses_plain (arr zero no_cells) s h = refl
uses_plain (arr zero (cell x xs)) s h = absurd (ground arith)
uses_plain (arr (suc a) xs) s h = absurd (ground arith)
uses_plain (obj zero messy no_entries) s h = refl
uses_plain (obj zero messy (entry k v fs)) s h = absurd (ground arith)
uses_plain (obj (suc a) messy fs) s h = absurd (ground arith)
uses_plain (pointer p) s h = absurd (ground arith)
uses_plain (blob b) s h = absurd (ground arith)
uses_plain (str b) s h = absurd (ground arith)

pub uses-push_cell :
    (xs : Cells) (v : Cell) (s : Resource)
    → uses_cells (push_cell xs v) s ≡ uses_cells xs s + uses v s
unfolding uses push_cell
uses-push_cell no_cells v s = omega arith
uses-push_cell (cell x xs) v s = omega (arith, uses-push_cell xs v s)

pub uses-concat_cells :
    (xs ys : Cells) (s : Resource)
    → uses_cells (concat_cells xs ys) s ≡ uses_cells xs s + uses_cells ys s
unfolding uses concat_cells
uses-concat_cells no_cells ys s = omega arith
uses-concat_cells (cell x xs) ys s = omega (arith, uses-concat_cells xs ys s)

pub uses-push_entry :
    (fs : Entries) (k v : Cell) (s : Resource)
    → uses_entries (push_entry fs k v) s ≡ uses_entries fs s + (uses k s + uses v s)
unfolding uses push_entry
uses-push_entry no_entries k v s = omega arith
uses-push_entry (entry k' v' fs) k v s = omega (arith, uses-push_entry fs k v s)

pub uses-pair_cells :
    (xs : Cells) (s : Resource)
    → cells_len xs % 2 ≡ 0
    → uses_entries (pair_cells xs) s ≡ uses_cells xs s
unfolding uses pair_cells cells_len
uses-pair_cells no_cells s even = refl
uses-pair_cells (cell k no_cells) s even = absurd (omega arith)
uses-pair_cells (cell k (cell v xs)) s even = omega (arith, uses-pair_cells xs s (omega arith))

-- The last element and the others, where there is one.
pub split_last_lem :
    (x : Cell) (xs : Cells)
    → (y : Cell) × (ys : Cells) × (split_last (cell x xs) ≡ some (y, ys))
      × ((s : Resource) → uses x s + uses_cells xs s ≡ uses y s + uses_cells ys s)
unfolding uses split_last
split_last_lem x no_cells = (x, no_cells, refl, λ s. refl)
split_last_lem x (cell y ys) =
    let (z, zs, run, held) = split_last_lem y ys in
    (z, cell x zs, rw run refl, λ s. omega (arith, held s))
