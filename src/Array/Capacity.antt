-- ===== src/Array/Capacity.antt =====
-- `mem_capacity` of src/array.c, with the allocator as a parameter.
use nson.Buf.{size_max}
use nson.Prelude.{
  ℕ, zero, suc, ◌/◌, ◌<◌, ◌≤◌, ◌≡◌, ◌⊎◌, ◌≢◌, sym, ◌∙◌, inl, inr, refl, Bool-cases, Option-cases,
  ◌&&◌, Option, none, some, ltb, ◌==◌, if◌then◌else◌, arith,
}
use nson.Value.{nil, Items, no_items, item, arr_len, arr_get}

-- sizeof(Nson)
abbrev pub sizeof_nson : ℕ
sizeof_nson = 32

-- An array with its memory: the cells allocated, and the member `a.len`.
pub record Block : Type 0 where
  pub cells : Items
  pub len : ℕ

-- `reallocarray`, for the number of elements and the cells that there are; `none` is NULL.
abbrev pub Reallocarray : Type 0
Reallocarray = ℕ → Items → Option Items

-- What POSIX says of it: the memory has the size asked for, and its contents are kept up to the
-- lesser of both sizes.
pub record Reallocates (reallocarray : Reallocarray) : Type 0 where
  pub sized : (n : ℕ) (xs ys : Items) → reallocarray n xs ≡ some ys → arr_len ys ≡ n
  pub kept :
      (n : ℕ) (xs ys : Items)
      → reallocarray n xs ≡ some ys
      → (i : ℕ) → i < n
      → i < arr_len xs
      → arr_get ys i ≡ arr_get xs i

-- `memset` from the cell `old` on.
unfoldable pub clear_from : ℕ → Items → Items
clear_from old no_items = no_items
clear_from zero (item x xs) = item nil (clear_from zero xs)
clear_from (suc old) (item x xs) = item x (clear_from old xs)

-- The block, and the value returned; `none` is -1.
unfoldable pub mem_capacity : Reallocarray → Block → ℕ → Block × Option ℕ
mem_capacity reallocarray b size =
    if size == b.len
    then (b, some size)
    else if ltb 0 size && ltb (size_max / sizeof_nson) size
    then (record b { len = size }, none)
    else elim (reallocarray size b.cells) [
      | none ↦ (record b { len = b.len }, none)
      | some arr ↦
          let cells = if ltb b.len size then clear_from b.len arr else arr in
          (record { cells = cells; len = size }, some size)
    ]

-- The length is that of the memory.
abbrev pub IsBacked : Block → Type 0
IsBacked b = b.len ≡ arr_len b.cells

arr_len-clear_from : (old : ℕ) (xs : Items) → arr_len (clear_from old xs) ≡ arr_len xs
unfolding arr_len clear_from
arr_len-clear_from old no_items = refl
arr_len-clear_from zero (item x xs) = omega (arith, arr_len-clear_from zero xs)
arr_len-clear_from (suc old) (item x xs) = omega (arith, arr_len-clear_from old xs)

-- The cells in front stay, and those behind are nil.
arr_get-clear_from :
    (old : ℕ) (xs : Items) (i : ℕ)
    → i < arr_len xs
    → (i < old → arr_get (clear_from old xs) i ≡ arr_get xs i)
      × (old ≤ i → arr_get (clear_from old xs) i ≡ some nil)
unfolding arr_len arr_get clear_from
arr_get-clear_from old no_items i h = absurd (omega arith)
arr_get-clear_from zero (item x xs) zero h = ((λ le. absurd (omega arith)), λ le. refl)
arr_get-clear_from zero (item x xs) (suc i) h = (
  (λ le. absurd (omega arith)),
  λ le. (arr_get-clear_from zero xs i (omega arith)).1 (omega arith),
)
arr_get-clear_from (suc old) (item x xs) zero h = ((λ le. refl), λ le. absurd (omega arith))
arr_get-clear_from (suc old) (item x xs) (suc i) h =
    let rest = arr_get-clear_from old xs i (omega arith) in
    ((λ le. rest.0 (omega arith)), λ le. rest.1 (omega arith))

-- A block that has the size asked for, with the elements that there were and nil behind them.
pub record Resized (b : Block) (size : ℕ) (after : Block) : Type 0 where
  pub len : after.len ≡ size
  pub backed : IsBacked after
  pub elements : (i : ℕ) → i < size → i < b.len → arr_get after.cells i ≡ arr_get b.cells i
  pub cleared : (i : ℕ) → i < size → b.len ≤ i → arr_get after.cells i ≡ some nil

resized :
    (reallocarray : Reallocarray) (b : Block) (size : ℕ) (arr : Items)
    → Reallocates reallocarray
    → IsBacked b
    → reallocarray size b.cells ≡ some arr
    → Resized b size
        (record { cells = if ltb b.len size then clear_from b.len arr else arr; len = size })
resized reallocarray b size arr laws backed found =
    let sized = laws.sized size b.cells arr found in
    let kept = laws.kept size b.cells arr found in
    elim (Bool-cases (ltb b.len size)) [
      | inl grows ↦
          let cells = arr_get-clear_from b.len arr in
          rw grows (record {
            len = refl;
            backed = omega (arith, arr_len-clear_from b.len arr);
            elements = λ i below inside.
                (cells i (omega arith)).0 inside ∙ kept i below (omega (arith, backed));
            cleared = λ i below behind. (cells i (omega arith)).1 behind;
          })
      | inr shrinks ↦ rw shrinks (record {
        len = refl;
        backed = sym sized;
        elements = λ i below inside. kept i below (omega (arith, backed));
        cleared = λ i below behind. absurd (ground arith);
      })
    ]

-- Where `reallocarray` does what POSIX says, a call for some elements on an array with as many cells
-- as its length returns the size, and the array then has that length and as many cells, of which those
-- within both lengths are kept and the new ones are nil. Otherwise it returns -1: because
-- `reallocarray` fails, and the array is as it was, or because the bytes cannot be counted, and the
-- array has the new length with the cells that it had.
pub mem_capacity-Resized :
    (reallocarray : Reallocarray) (b : Block) (size : ℕ)
    → Reallocates reallocarray
    → IsBacked b
    → 0 < size
    → (((mem_capacity reallocarray b size).1 ≡ some size)
        × Resized b size (mem_capacity reallocarray b size).0)
      ⊎ ((reallocarray size b.cells ≡ none) × (mem_capacity reallocarray b size ≡ (b, none)))
      ⊎ ((size_max / sizeof_nson < size)
          × (size ≢ b.len)
          × (mem_capacity reallocarray b size ≡ (record b { len = size }, none)))
unfolding mem_capacity
mem_capacity-Resized reallocarray b size laws backed some_size = elim (Bool-cases (size == b.len)) [
  | inl same ↦
      let e : size ≡ b.len = ground arith in
      inl (
        rw (same, mem_capacity)
          (
            refl,
            record {
              len = sym e;
              backed = backed;
              elements = λ i below inside. refl;
              cleared = λ i below behind. absurd (omega arith);
            },
          ))
  | inr other ↦ elim (Bool-cases (ltb 0 size && ltb (size_max / sizeof_nson) size)) [
    | inl much ↦ inr (inr (ground arith, ground arith, rw (other, mem_capacity, much) refl))
    | inr fits ↦ elim (Option-cases (reallocarray size b.cells)) [
      | inl failed ↦ inr (inl (failed, rw (other, mem_capacity, fits, failed) refl))
      | inr (arr, found) ↦ inl (
          rw (other, mem_capacity, fits, found)
            (refl, resized reallocarray b size arr laws backed found))
    ]
  ]
]
