-- ===== src/Array/Laws.antt =====
-- Arrays as sequences: what is pushed is found, and popped last in, first out.
use nson.Array.{arr_take, arr_pop, arr_last}
use nson.Prelude.{ℕ, zero, suc, ◌-◌, ◌≡◌, refl, ap, ◌∙◌, some, arith, ◌==◌, if◌then◌else◌, ltb}
use nson.Value.{Nson, Items, no_items, item, arr_len, arr_get, arr_push, arr_concat}

pub arr_len-arr_push : (xs : Items) (v : Nson) → arr_len (arr_push xs v) ≡ suc (arr_len xs)
unfolding arr_len arr_push
arr_len-arr_push no_items v = refl
arr_len-arr_push (item x xs) v = ap suc (arr_len-arr_push xs v)

arr_get_pushed : (xs : Items) (v : Nson) → arr_get (arr_push xs v) (arr_len xs) ≡ some v
unfolding arr_len arr_push arr_get
arr_get_pushed no_items v = refl
arr_get_pushed (item x xs) v = arr_get_pushed xs v

arr_take-arr_push : (xs : Items) (v : Nson) → arr_take (arr_len xs) (arr_push xs v) ≡ xs
unfolding arr_len arr_push arr_take
arr_take-arr_push no_items v = refl
arr_take-arr_push (item x xs) v = ap (item x) (arr_take-arr_push xs v)

-- The element pushed is the last one, and popping it gives it back with the array as it was.
pub arr_pop-arr_push :
    (xs : Items) (v : Nson)
    → (arr_last (arr_push xs v) ≡ some v) × (arr_pop (arr_push xs v) ≡ some (v, xs))
unfolding arr_last arr_pop
arr_pop-arr_push xs v =
    let back : arr_len (arr_push xs v) - 1 ≡ arr_len xs = omega (arith, arr_len-arr_push xs v) in
    rw (back, arr_get_pushed xs v, back, arr_take-arr_push xs v)
      (ground (arith, arr_len-arr_push xs v))

-- A push puts the element at the old length, and changes no other.
pub arr_get-arr_push :
    (xs : Items) (v : Nson) (i : ℕ)
    → arr_get (arr_push xs v) i ≡ (if i == arr_len xs then some v else arr_get xs i)
unfolding arr_get arr_push arr_len
arr_get-arr_push no_items v zero = refl
arr_get-arr_push no_items v (suc i) = ground arith
arr_get-arr_push (item x xs) v zero = ground arith
arr_get-arr_push (item x xs) v (suc i) = arr_get-arr_push xs v i ∙ ground arith

-- The elements of the second array stand behind those of the first.
pub arr_get-arr_concat :
    (xs ys : Items) (i : ℕ)
    → arr_get (arr_concat xs ys) i
      ≡ (if ltb i (arr_len xs) then arr_get xs i else arr_get ys (i - arr_len xs))
unfolding arr_get arr_concat arr_len
arr_get-arr_concat no_items ys i = ground arith
arr_get-arr_concat (item x xs) ys zero = ground arith
arr_get-arr_concat (item x xs) ys (suc i) = arr_get-arr_concat xs ys i ∙ ground arith
