-- ===== src/Walk.antt =====
-- src/stack.c: the walk through a value, with the containers it is in on a stack of its own.
pub mod Order
use nson.Prelude.{
  ℕ, zero, suc, ◌-◌, ◌^◌, Bool, true, false, Option, none, some, List, [], ◌∷◌, ltb, if◌then◌else◌,
}
use nson.Prelude.Int.{ℤ, pos, negsuc}
use nson.Value.{Nson, Items, nil, bool, int, real, pointer, arr, obj, blob, str, arr_len, arr_get}

-- `struct NsonStackElement`
pub record NsonStackElement : Type 0 where
  pub element : Nson
  pub index : ℤ

-- The stack, with the last element first, and what `*nson` and `*index` hold; `none` is NULL.
pub record Walk : Type 0 where
  pub stack : List NsonStackElement
  pub nson : Option Nson
  pub index : ℤ

unfoldable pub stack_push : List NsonStackElement → Nson → ℤ → List NsonStackElement
stack_push stack x i = record { element = x; index = i } ∷ stack

-- `none` is the return of 0.
unfoldable pub stack_pop : List NsonStackElement → Option (NsonStackElement × List NsonStackElement)
stack_pop [] = none
stack_pop (last ∷ stack) = some (last, stack)

unfoldable pub is_container : Nson → Bool
is_container (arr xs) = true
is_container (obj messy fs) = true
is_container _ = false

-- `(*index)++`, for an index that is -1 at least.
unfoldable pub increment : ℤ → ℤ
increment (pos n) = pos (suc n)
increment (negsuc zero) = pos 0
increment (negsuc (suc n)) = negsuc n

-- The conversion of `off_t` to `size_t` in the comparison with the length.
unfoldable pub as_size : ℤ → ℕ
as_size (pos n) = n
as_size (negsuc n) = 2 ^ 64 - suc n

-- The element returned, and what the call leaves: an element of an array is entered when it is a
-- container. `none` is an assertion that fails.
unfoldable pub enter : Walk → Nson → ℤ → Option Nson → Option (Option Nson × Walk)
enter w x i none = none
enter w x i (some y) = some (
  some y,
  if is_container y
      then record { stack = stack_push w.stack x i; nson = some y; index = negsuc 0 }
      else record w { index = i },
)

unfoldable pub leave : Walk → Nson → Option Nson × Walk
leave w x = elim (stack_pop w.stack) [
  | none ↦ (some x, record { stack = []; nson = none; index = pos 0 })
  | some (last, stack) ↦
      (some x, record { stack = stack; nson = some last.element; index = last.index })
]

-- `nson_arr_len` asserts that it is given an array.
unfoldable pub walk_in : Walk → Nson → Option (Option Nson × Walk)
walk_in w (arr xs) =
    let i = increment w.index in
    if ltb (as_size i) (arr_len xs)
    then enter w (arr xs) i (arr_get xs (as_size i))
    else some (leave w (arr xs))
walk_in w (obj messy fs) = none
walk_in w _ = some (none, w)

unfoldable pub stack_walk : Walk → Option (Option Nson × Walk)
stack_walk w = elim w.nson [ none ↦ some (none, w) | some x ↦ walk_in w x ]

-- What a caller sees that calls until NULL is returned.
pub data Trace : Type 0 where
  yields : Nson → Trace → Trace
  ended aborted unfinished : Trace

unfoldable pub follow : (Walk → Trace) → Option (Option Nson × Walk) → Trace
follow more none = aborted
follow more (some (none, w)) = ended
follow more (some (some y, w)) = yields y (more w)

unfoldable pub walk : ℕ → Walk → Trace
walk zero w = unfinished
walk (suc fuel) w = follow (walk fuel) (stack_walk w)

-- The walk as src/test/data.c begins it.
unfoldable pub walk_start : Nson → Walk
walk_start x = record { stack = []; nson = some x; index = negsuc 0 }
