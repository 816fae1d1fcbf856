-- ===== src/Array.antt =====
-- src/array.c: the operations on an array. `nson_arr_len`, `nson_arr_get`, `nson_arr_push` and
-- `nson_arr_concat` stand in Value, since the parsers build on them.
pub mod Laws
pub mod Capacity
pub mod Sort
use nson.Prelude.{ℕ, zero, suc, ◌-◌, Option, none, some, ◌==◌, if◌then◌else◌}
use nson.Value.{Nson, Items, no_items, item, arr_len, arr_get}

-- The first `n` elements: the array with its length set to `n`.
unfoldable pub arr_take : ℕ → Items → Items
arr_take zero xs = no_items
arr_take (suc n) no_items = no_items
arr_take (suc n) (item x xs) = item x (arr_take n xs)

-- The element moved out with the array that is left; `none` is the return of -1.
unfoldable pub arr_pop : Items → Option (Nson × Items)
arr_pop xs =
    let len = arr_len xs in
    if len == 0
    then none
    else elim (arr_get xs (len - 1)) [ none ↦ none | some v ↦ some (v, arr_take (len - 1) xs) ]

-- `none` is the return of NULL.
unfoldable pub arr_last : Items → Option Nson
arr_last xs = let len = arr_len xs in if len == 0 then none else arr_get xs (len - 1)
