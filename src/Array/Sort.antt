-- ===== src/Array/Sort.antt =====
-- `nson_arr_sort` of src/array.c, with `qsort` of the C library as a parameter.
use Prim.Native.Nat.{Ordering, gt}
use nson.Buf.Order.{swap}
use nson.Cmp.{nson_cmp}
use nson.Cmp.Order.{IsStrictOrder, nson_cmp-swap, nson_cmp_trans}
use nson.Prelude.{◌≡◌, ◌≢◌, ◌↔◌}
use nson.Util.Number.{Double}
use nson.Value.{Nson, Items, no_items, item}

-- `qsort` on the elements, by the sign of a comparison.
abbrev pub Qsort : Type 0
Qsort = (Nson → Nson → Ordering) → Items → Items

-- The order of two elements that compare equal is left to `qsort`: `cmp_stable` takes it from their
-- addresses, which change as they are sorted.
unfoldable pub arr_sort : Double → Qsort → Items → Items
arr_sort d qsort xs = qsort (nson_cmp d) xs

-- A comparison that `qsort` is defined for.
pub record IsConsistent (f : Nson → Nson → Ordering) : Type 0 where
  pub swaps : (a b : Nson) → f b a ≡ swap (f a b)
  pub trans : (a b c : Nson) → f a b ≢ gt → f b c ≢ gt → f a c ≢ gt

-- No element of the array is less than the value.
abbrev pub Below : (Nson → Nson → Ordering) → Nson → Items → Type 0
Below f x no_items = Unit
Below f x (item y ys) = (f x y ≢ gt) × Below f x ys

abbrev pub Ascending : (Nson → Nson → Ordering) → Items → Type 0
Ascending f no_items = Unit
Ascending f (item x xs) = Below f x xs × Ascending f xs

pub data Inside (x : Nson) : Items → Type 0 where
  first : {xs : Items} → Inside x (item x xs)
  behind : {y : Nson} {xs : Items} → Inside x xs → Inside x (item y xs)

-- What the C standard says of `qsort`.
pub record Sorts (qsort : Qsort) : Type 0 where
  pub ascends :
      (f : Nson → Nson → Ordering) (xs : Items) → IsConsistent f → Ascending f (qsort f xs)
  pub keeps :
      (f : Nson → Nson → Ordering) (xs : Items) (x : Nson)
      → IsConsistent f
      → Inside x (qsort f xs) ↔ Inside x xs

-- Where `<` on doubles is a strict weak order, the comparison of values is one that `qsort` is
-- defined for: the array is left in ascending order, with the elements that it had.
pub arr_sort_lem :
    (d : Double) (qsort : Qsort) (xs : Items)
    → IsStrictOrder d.less
    → Sorts qsort
    → Ascending (nson_cmp d) (arr_sort d qsort xs)
      × ((x : Nson) → Inside x (arr_sort d qsort xs) ↔ Inside x xs)
unfolding arr_sort
arr_sort_lem d qsort xs order sorts =
    let consistent : IsConsistent (nson_cmp d) = record {
      swaps = nson_cmp-swap d order;
      trans = nson_cmp_trans d order;
    } in
    (sorts.ascends (nson_cmp d) xs consistent, λ x. sorts.keeps (nson_cmp d) xs x consistent)
