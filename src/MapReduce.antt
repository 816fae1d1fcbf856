-- ===== src/MapReduce.antt =====
-- `nson_map`, `nson_reduce` and `nson_filter` of src/map_reduce.c, on arrays. A function passed in
-- takes the index, what it may change, and the state behind `user_data`, and returns these with an
-- `int`; a negative one ends the loop.
pub mod Laws
use nson.Prelude.{Bool, ℕ, ◌+◌, true, false, ◌==◌, if◌then◌else◌}
use nson.Prelude.Int.{ℤ, pos, negsuc}
use nson.Util.Number.{is_negative}
use nson.Value.{Nson, Items, no_items, item, arr_push}

-- What a loop leaves: the elements, the state, and `rv`.
pub record Result {ℓ} (S : Type ℓ) : Type ℓ where
  pub items : Items
  pub state : S
  pub rv : ℤ

-- Mappers and filters: the element, the state and the return value.
abbrev pub Mapper {ℓ} : Type ℓ → Type ℓ
Mapper S = ℕ → Nson → S → Nson × S × ℤ

-- The loop of `nson_map` over the elements from the index `i`.
unfoldable pub map_from {ℓ} : {S : Type ℓ} → Mapper S → Items → ℕ → S → ℤ → Result S
map_from f no_items i s rv = record { items = no_items; state = s; rv = rv }
map_from f (item x xs) i s rv =
    let (y, s', rv') = f i x s in
    let more = map_from f xs (i + 1) s' rv' in
    if is_negative rv
    then record { items = item x xs; state = s; rv = rv }
    else record more { items = item y more.items }

unfoldable pub nson_map {ℓ} : {S : Type ℓ} → Mapper S → Items → S → Result S
nson_map f xs s = map_from f xs 0 s (pos 0)

-- `nson_reduce`, where the state holds `dest`.
unfoldable pub reduce_from {ℓ} : {S : Type ℓ} → (ℕ → S → Nson → S × ℤ) → Items → ℕ → S → ℤ → S × ℤ
reduce_from f no_items i s rv = (s, rv)
reduce_from f (item x xs) i s rv =
    let (s', rv') = f i s x in
    let more = reduce_from f xs (i + 1) s' rv' in if is_negative rv then (s, rv) else more

unfoldable pub nson_reduce {ℓ} : {S : Type ℓ} → (ℕ → S → Nson → S × ℤ) → Items → S → S × ℤ
nson_reduce f xs s = reduce_from f xs 0 s (pos 0)

-- `rv != 0`
abbrev pub is_nonzero : ℤ → Bool
is_nonzero (pos n) = if n == 0 then false else true
is_nonzero (negsuc n) = true

-- The loop of `nson_filter`; `dest` is the array built, which replaces the first one.
unfoldable pub filter_from {ℓ} : {S : Type ℓ} → Mapper S → Items → ℕ → Items → S → ℤ → Result S
filter_from f no_items i dest s rv = record { items = dest; state = s; rv = rv }
filter_from f (item x xs) i dest s rv =
    let (y, s', rv') = f i x s in
    let more = filter_from f xs (i + 1) (if is_nonzero rv' then arr_push dest y else dest) s' rv' in
    if is_negative rv then record { items = dest; state = s; rv = rv } else more

unfoldable pub nson_filter {ℓ} : {S : Type ℓ} → Mapper S → Items → S → Result S
nson_filter f xs s = filter_from f xs 0 no_items s (pos 0)
