-- ===== src/Json/Reads.antt =====
-- The runs of the parser over what the writer makes of values, elements and entries.
use mathlib.Core.Path.{subst}
use nson.Prelude.{
  ℕ, zero, suc, ◌+◌, ◌≡◌, refl, ap, sym, ◌∙◌, true, false, ◌⊎◌, some, List, [], ◌∷◌, ◌++◌,
  append_assoc, Bytes, ◌==◌, length, length-append, arith, inl, inr,
}
use nson.Json.Brackets.{
  flat, arr_concat-push, arr_concat-nil, is_empty-append, Runs-index, Continues-index, run_open,
  run_separator, run_close_array, run_close_object,
}
use nson.Json.Parser.{State}
use nson.Json.Runs.{Runs, Continues}
use nson.Json.Steps.{at, Stops}
use nson.Json.Writer.{json_write, arr_serialize, obj_serialize}
use nson.Util.Number.{Double}
use nson.Value.{Nson, Items, Fields, no_items, item, arr_push, arr_concat}

pub length-append_bytes : (xs ys : Bytes) → length (xs ++ ys) ≡ length xs + length ys
length-append_bytes = length-append

pub ruleset lengths = (arith, length-append_bytes)

module _ (d : Double) where
  -- The loop reads a written value, a list of elements or a list of entries off the document, and
  -- leaves it on the array at the top.
  abbrev pub ReadsValue : Nson → Type 0
  ReadsValue v =
      (rest : Bytes) (i : ℕ) (top : Items) (below : List Items) (u : State)
      → Stops rest
      → Continues d (at rest (i + length (json_write d v)) (arr_push top v) below) u
      → Runs d (at (json_write d v ++ rest) i top below) u

  abbrev pub ReadsInside : Bytes → Items → Type 0
  ReadsInside l xs =
      (c : ℕ) (rest : Bytes) (i : ℕ) (top b : Items) (below : List Items) (u : State)
      → Stops (c ∷ rest)
      → Runs d (at (c ∷ rest) (i + length l) (arr_concat top xs) (b ∷ below)) u
      → Runs d (at (l ++ (c ∷ rest)) i top (b ∷ below)) u

  pub ReadsValue-arr : (xs : Items) → ReadsInside (arr_serialize d xs) xs → ReadsValue (Nson.arr xs)
  unfolding json_write arr_concat
  ReadsValue-arr xs reads rest i top below u stops k = rw append_assoc (
      run_open d b'[' _ i top below u refl (is_empty-append (arr_serialize d xs) b']' rest) (
        reads b']' rest (i + 1) no_items top below u (refl, refl)
          (run_close_array d xs rest _ top below u (Continues-index d (omega lengths) k))))

  pub ReadsValue-obj :
      (fs : Fields) → ReadsInside (obj_serialize d fs) (flat fs) → ReadsValue (Nson.obj true fs)
  unfolding json_write arr_concat
  ReadsValue-obj fs reads rest i top below u stops k = rw append_assoc (
      run_open d b'{' _ i top below u refl (is_empty-append (obj_serialize d fs) b'}' rest) (
        reads b'}' rest (i + 1) no_items top below u (refl, refl)
          (run_close_object d fs rest _ top below u (Continues-index d (omega lengths) k))))

  pub ReadsInside-nil : ReadsInside [] no_items
  ReadsInside-nil c rest i top b below u stops r =
      Runs-index d (omega arith)
        (subst (λ t. Runs d (at (c ∷ rest) (i + 0) t (b ∷ below)) u) (arr_concat-nil top) r)

  -- A value in front of more, with or without a separator between.
  pub ReadsInside-value :
      (v : Nson) (xs : Items) (l : Bytes)
      → ReadsValue v
      → ((c : ℕ) (rest : Bytes) → Stops (c ∷ rest) → Stops (l ++ (c ∷ rest)))
      → ReadsInside l xs
      → ReadsInside (json_write d v ++ l) (item v xs)
  ReadsInside-value v xs l value next reads c rest i top b below u stops r = rw append_assoc (
      value (l ++ (c ∷ rest)) i top (b ∷ below) u (next c rest stops) (
        inr (
          rw (is_empty-append l c rest),
          reads c rest _ (arr_push top v) b below u stops (
              Runs-index d (omega lengths) (
                subst
                  (λ t. Runs d (at (c ∷ rest) (i + length (json_write d v ++ l)) t (b ∷ below)) u)
                  (sym (arr_concat-push top v xs)) r)),
        )))

  pub ReadsInside-separator :
      (sep : ℕ) (xs : Items) (l : Bytes)
      → (sep ≡ b',') ⊎ (sep ≡ b':')
      → ReadsInside l xs
      → ReadsInside (sep ∷ l) xs
  ReadsInside-separator sep xs l is_sep reads c rest i top b below u stops r =
      run_separator d sep _ i top b below u is_sep (is_empty-append l c rest)
        (reads c rest (i + 1) top b below u stops (Runs-index d (omega arith) r))
