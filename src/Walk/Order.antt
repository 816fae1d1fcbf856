-- ===== src/Walk/Order.antt =====
-- src/stack.c: the walk with a stack is the recursive traversal.
use mathlib.Core.Path.{subst}
use nson.Prelude.{
  ℕ, zero, suc, ◌+◌, ◌*◌, ◌<◌, ◌≤◌, ◌≡◌, refl, true, false, some, List, [], ◌∷◌, map, ltb, arith,
  ◌⊎◌, inl, inr, ap, sym, ◌∙◌,
}
use nson.Prelude.Int.{ℤ, pos, negsuc}
use nson.Value.{
  Nson, Items, nil, bool, int, real, pointer, arr, obj, blob, str, no_items, item, arr_len, arr_get,
}
use nson.Walk.{
  NsonStackElement, Walk, stack_push, stack_pop, is_container, increment, as_size, enter, leave,
  walk_in, stack_walk, Trace, yields, ended, aborted, unfinished, follow, walk, walk_start,
}

-- The traversal of the elements of an array, with what follows it: a scalar is met once, and an
-- array before and behind its elements. An object ends the program at the call after it is met.
unfoldable pub visits : Items → Trace → Trace
visits no_items next = next
visits (item (arr xs) ys) next = yields (arr xs) (visits xs (yields (arr xs) (visits ys next)))
visits (item (obj messy fs) ys) next = yields (obj messy fs) aborted
visits (item x ys) next = yields x (visits ys next)

-- The root is met behind its elements only.
unfoldable pub traversal : Nson → Trace
traversal (arr xs) = visits xs (yields (arr xs) ended)
traversal (obj messy fs) = aborted
traversal _ = ended

-- The values in a value, those in objects left out.
unfoldable pub count_items : Items → ℕ
count_items no_items = 0
count_items (item (arr xs) ys) = suc (count_items xs + count_items ys)
count_items (item x ys) = suc (count_items ys)

unfoldable pub count_values : Nson → ℕ
count_values (arr xs) = suc (count_items xs)
count_values _ = 1

-- The calls that a trace stands for.
unfoldable calls : Trace → ℕ
calls (yields x t) = suc (calls t)
calls _ = 1

calls-visits :
    (xs : Items) (next : Trace) → calls (visits xs next) ≤ 2 * count_items xs + calls next
unfolding visits calls count_items
calls-visits no_items next = omega arith
calls-visits (item (arr xs) ys) next =
    omega (arith, calls-visits xs (yields (arr xs) (visits ys next)), calls-visits ys next)
calls-visits (item (obj messy fs) ys) next = omega arith
calls-visits (item nil ys) next = omega (arith, calls-visits ys next)
calls-visits (item (bool i) ys) next = omega (arith, calls-visits ys next)
calls-visits (item (int i) ys) next = omega (arith, calls-visits ys next)
calls-visits (item (real r) ys) next = omega (arith, calls-visits ys next)
calls-visits (item (pointer p) ys) next = omega (arith, calls-visits ys next)
calls-visits (item (blob b) ys) next = omega (arith, calls-visits ys next)
calls-visits (item (str b) ys) next = omega (arith, calls-visits ys next)

-- The elements from an index on, and the index before it.
unfoldable items_from : ℕ → Items → Items
items_from zero xs = xs
items_from (suc n) no_items = no_items
items_from (suc n) (item x xs) = items_from n xs

unfoldable before : ℕ → ℤ
before zero = negsuc 0
before (suc n) = pos n

increment-before : (n : ℕ) → increment (before n) ≡ pos n
unfolding increment before
increment-before zero = refl
increment-before (suc n) = refl

items_from_cases :
    (n : ℕ) (xs : Items)
    → ((n < arr_len xs)
        × (y : Nson) × (arr_get xs n ≡ some y)
        × (items_from n xs ≡ item y (items_from (suc n) xs)))
      ⊎ ((arr_len xs ≤ n) × (items_from n xs ≡ no_items))
unfolding items_from arr_len arr_get
items_from_cases zero no_items = inr (omega arith, refl)
items_from_cases zero (item x xs) = inl (omega arith, x, refl, refl)
items_from_cases (suc n) no_items = inr (omega arith, refl)
items_from_cases (suc n) (item x xs) = elim (items_from_cases n xs) [
  | inl (le, y, e, rest) ↦ inl (omega arith, y, e, rest)
  | inr (le, e) ↦ inr (omega arith, e)
]

-- The arrays that the walk is in: their elements, and the index of the one it went on to.
abbrev Frame : Type 0
Frame = Items × ℕ

unfoldable frame_element : Frame → NsonStackElement
frame_element (xs, i) = record { element = arr xs; index = pos i }

unfoldable at : List Frame → Items → ℕ → Walk
at fs xs n = record { stack = map frame_element fs; nson = some (arr xs); index = before n }

-- What the caller is still to see.
unfoldable leaves : List Frame → Items → Trace
leaves [] xs = yields (arr xs) ended
leaves ((ys, i) ∷ fs) xs = yields (arr xs) (visits (items_from (suc i) ys) (leaves fs ys))

step_in :
    (fs : List Frame) (xs : Items) (n : ℕ) (y : Nson)
    → n < arr_len xs
    → arr_get xs n ≡ some y
    → stack_walk (at fs xs n) ≡ enter (at fs xs n) (arr xs) (pos n) (some y)
unfolding stack_walk walk_in at as_size
step_in fs xs n y le e =
    let inside : ltb n (arr_len xs) ≡ true = ground arith in
    rw (increment-before n) (rw inside (rw e refl))

step_out :
    (fs : List Frame) (xs : Items) (n : ℕ)
    → arr_len xs ≤ n
    → stack_walk (at fs xs n) ≡ some (leave (at fs xs n) (arr xs))
unfolding stack_walk walk_in at as_size
step_out fs xs n le =
    let outside : ltb n (arr_len xs) ≡ false = ground arith in
    rw (increment-before n) (rw outside refl)

-- That the walk is right with some number of calls, for the next one.
abbrev WalksRight : ℕ → Type 0
WalksRight fuel =
    (fs : List Frame) (xs : Items) (n : ℕ)
    → calls (visits (items_from n xs) (leaves fs xs)) ≤ fuel
    → walk fuel (at fs xs n) ≡ visits (items_from n xs) (leaves fs xs)

-- A scalar returned leaves the walk in its array.
scalar_next :
    (fuel : ℕ) (fs : List Frame) (xs : Items) (n : ℕ) (y : Nson)
    → WalksRight fuel
    → is_container y ≡ false
    → visits (item y (items_from (suc n) xs)) (leaves fs xs)
      ≡ yields y (visits (items_from (suc n) xs) (leaves fs xs))
    → calls (visits (item y (items_from (suc n) xs)) (leaves fs xs)) ≤ suc fuel
    → follow (walk fuel) (enter (at fs xs n) (arr xs) (pos n) (some y))
      ≡ visits (item y (items_from (suc n) xs)) (leaves fs xs)
unfolding follow enter at before calls
scalar_next fuel fs xs n y more plain e enough =
    rw plain (ap (yields y) (more fs xs (suc n) (omega (arith, ap calls e, enough))) ∙ sym e)

after_in :
    (fuel : ℕ) (fs : List Frame) (xs : Items) (n : ℕ) (y : Nson)
    → WalksRight fuel
    → calls (visits (item y (items_from (suc n) xs)) (leaves fs xs)) ≤ suc fuel
    → follow (walk fuel) (enter (at fs xs n) (arr xs) (pos n) (some y))
      ≡ visits (item y (items_from (suc n) xs)) (leaves fs xs)
unfolding is_container visits
after_in fuel fs xs n (arr ys) more enough =
    unfold follow enter at calls leaves items_from stack_push before frame_element in
    ap (yields (arr ys)) (more ((xs, n) ∷ fs) ys zero (omega (arith, enough)))
after_in zero fs xs n (obj messy ms) more enough = unfold calls in absurd (omega arith)
after_in (suc fuel) fs xs n (obj messy ms) more enough =
    unfold follow enter walk stack_walk walk_in in refl
after_in fuel fs xs n y more enough = scalar_next fuel fs xs n y more refl refl enough

after_out :
    (fuel : ℕ) (fs : List Frame) (xs : Items) (n : ℕ)
    → WalksRight fuel
    → calls (leaves fs xs) ≤ suc fuel
    → follow (walk fuel) (some (leave (at fs xs n) (arr xs))) ≡ leaves fs xs
unfolding follow leave at leaves calls stack_pop frame_element
after_out zero [] xs n more enough = absurd (omega arith)
after_out (suc fuel) [] xs n more enough = unfold walk stack_walk in refl
after_out fuel ((ys, i) ∷ fs) xs n more enough =
    ap (yields (arr xs)) (unfold before in more fs ys (suc i) (omega (arith, enough)))

at_least_one : (t : Trace) → 1 ≤ calls t
unfolding calls
at_least_one (yields x t) = omega arith
at_least_one ended = omega arith
at_least_one aborted = omega arith
at_least_one unfinished = omega arith

walk-suc : (fuel : ℕ) (w : Walk) → walk (suc fuel) w ≡ follow (walk fuel) (stack_walk w)
unfolding walk
walk-suc fuel w = refl

visits_end : (xs : Items) (next : Trace) → xs ≡ no_items → visits xs next ≡ next
unfolding visits
visits_end xs next e = rw e refl

walk_right : (fuel : ℕ) → WalksRight fuel
walk_right zero fs xs n enough =
    absurd (omega (arith, at_least_one (visits (items_from n xs) (leaves fs xs)), enough))
walk_right (suc fuel) fs xs n enough = elim (items_from_cases n xs) [
  | inl (le, y, e, rest) ↦
      let visited = ap (λ t. visits t (leaves fs xs)) rest in
      walk-suc fuel (at fs xs n)
      ∙ ap (follow (walk fuel)) (step_in fs xs n y le e)
      ∙ after_in fuel fs xs n y (walk_right fuel) (subst (λ t. calls t ≤ suc fuel) visited enough)
      ∙ sym visited
  | inr (le, e) ↦
      let visited = visits_end (items_from n xs) (leaves fs xs) e in
      walk-suc fuel (at fs xs n)
      ∙ ap (follow (walk fuel)) (step_out fs xs n le)
      ∙ after_out fuel fs xs n (walk_right fuel) (subst (λ t. calls t ≤ suc fuel) visited enough)
      ∙ sym visited
]

count_values_pos : (x : Nson) → 1 ≤ count_values x
unfolding count_values
count_values_pos (arr xs) = omega arith
count_values_pos _ = omega arith

-- Called until it returns NULL, `stack_walk` returns what the recursive traversal meets, in its
-- order, and two calls for each value are enough: a scalar comes once, and an array before and
-- behind its elements, the root only behind them. Where it enters an object, the next call fails.
pub walk-traversal :
    (x : Nson) (fuel : ℕ) → 2 * count_values x ≤ fuel → walk fuel (walk_start x) ≡ traversal x
unfolding traversal walk_start count_values
walk-traversal x zero enough = absurd (omega (arith, count_values_pos x, enough))
walk-traversal (arr xs) (suc fuel) enough =
    unfold at leaves items_from before calls in
    walk_right (suc fuel) [] xs zero
      (omega (arith, calls-visits xs (yields (arr xs) ended), enough))
walk-traversal (obj messy fs) (suc fuel) enough = unfold walk follow stack_walk walk_in in refl
walk-traversal _ (suc fuel) enough = unfold walk follow stack_walk walk_in in refl
