-- ===== src/Json/Brackets.antt =====
-- The rounds of the parser's loop at brackets and separators.
use mathlib.Core.Path.{subst}
use nson.Prelude.{
  ℕ, ◌+◌, ◌%◌, ◌≡◌, refl, ap, true, false, ◌||◌, ◌⊎◌, List, [], ◌∷◌, ◌++◌, Bytes, ◌==◌, arith, inl,
  inr,
}
use nson.Json.Parser.{State, step, step_at, close_with, is_empty}
use nson.Json.Runs.{Runs, Continues, Runs-step}
use nson.Json.Steps.{at}
use nson.Util.Number.{Double}
use nson.Value.{
  Nson, Items, Fields, no_items, item, no_fields, field, arr_len, arr_push, arr_concat, obj_entries,
}

-- The elements of an object, key by key, as the array that the parser collects.
unfoldable pub flat : Fields → Items
flat no_fields = no_items
flat (field k v fs) = item k (item v (flat fs))

pub obj_entries-flat : (fs : Fields) → obj_entries (flat fs) ≡ fs
unfolding obj_entries flat
obj_entries-flat no_fields = refl
obj_entries-flat (field k v fs) = ap (field k v) (obj_entries-flat fs)

pub arr_len-flat : (fs : Fields) → arr_len (flat fs) % 2 ≡ 0
unfolding arr_len flat
arr_len-flat no_fields = refl
arr_len-flat (field k v fs) = omega (arith, arr_len-flat fs)

pub arr_concat-push :
    (xs : Items) (y : Nson) (ys : Items) → arr_concat (arr_push xs y) ys ≡ arr_concat xs (item y ys)
unfolding arr_concat arr_push
arr_concat-push no_items y ys = refl
arr_concat-push (item x xs) y ys = ap (item x) (arr_concat-push xs y ys)

pub arr_concat-nil : (xs : Items) → arr_concat xs no_items ≡ xs
unfolding arr_concat
arr_concat-nil no_items = refl
arr_concat-nil (item x xs) = ap (item x) (arr_concat-nil xs)

pub is_empty-append : (xs : Bytes) (c : ℕ) (ys : Bytes) → is_empty (xs ++ (c ∷ ys)) ≡ false
is_empty-append [] c ys = refl
is_empty-append (x ∷ xs) c ys = refl

module _ (d : Double) where
  pub Runs-index :
      {i j : ℕ} {rest : Bytes} {top : Items} {below : List Items} {u : State}
      → i ≡ j
      → Runs d (at rest i top below) u
      → Runs d (at rest j top below) u
  Runs-index {rest} {top} {below} {u} e = subst (λ k. Runs d (at rest k top below) u) e

  pub Continues-index :
      {i j : ℕ} {rest : Bytes} {top : Items} {below : List Items} {u : State}
      → i ≡ j
      → Continues d (at rest i top below) u
      → Continues d (at rest j top below) u
  Continues-index {rest} {top} {below} {u} e = subst (λ k. Continues d (at rest k top below) u) e

  -- Rounds behind which the document and an enclosing array are left.
  pub run_open :
      (c : ℕ) (l : Bytes) (i : ℕ) (top : Items) (below : List Items) (u : State)
      → (c == b'[' || c == b'{') ≡ true
      → is_empty l ≡ false
      → Runs d (at l (i + 1) no_items (top ∷ below)) u
      → Runs d (at (c ∷ l) i top below) u
  run_open c l i top below u e left r =
      Runs-step d {t = at l (i + 1) no_items (top ∷ below)} (unfold step step_at in rw e)
        (inr (rw left, r))

  pub run_separator :
      (c : ℕ) (l : Bytes) (i : ℕ) (top b : Items) (below : List Items) (u : State)
      → (c ≡ b',') ⊎ (c ≡ b':')
      → is_empty l ≡ false
      → Runs d (at l (i + 1) top (b ∷ below)) u
      → Runs d (at (c ∷ l) i top (b ∷ below)) u
  run_separator c l i top b below u (inl e) left r =
      Runs-step d {t = at l (i + 1) top (b ∷ below)} (unfold step step_at in rw e)
        (inr (rw left, r))
  run_separator c l i top b below u (inr e) left r =
      Runs-step d {t = at l (i + 1) top (b ∷ below)} (unfold step step_at in rw e)
        (inr (rw left, r))

  pub run_close_array :
      (xs : Items) (rest : Bytes) (i : ℕ) (top : Items) (below : List Items) (u : State)
      → Continues d (at rest (i + 1) (arr_push top (Nson.arr xs)) below) u
      → Runs d (at (b']' ∷ rest) i xs (top ∷ below)) u
  run_close_array xs rest i top below u k =
      Runs-step d {t = at rest (i + 1) (arr_push top (Nson.arr xs)) below}
        (unfold step step_at close_with in refl) k

  pub run_close_object :
      (fs : Fields) (rest : Bytes) (i : ℕ) (top : Items) (below : List Items) (u : State)
      → Continues d (at rest (i + 1) (arr_push top (Nson.obj true fs)) below) u
      → Runs d (at (b'}' ∷ rest) i (flat fs) (top ∷ below)) u
  run_close_object fs rest i top below u k =
      Runs-step d {t = at rest (i + 1) (arr_push top (Nson.obj true fs)) below}
        (unfold step step_at close_with in rw (arr_len-flat fs, obj_entries-flat fs)) k
