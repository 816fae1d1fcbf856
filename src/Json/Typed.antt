-- ===== src/Json/Typed.antt =====
-- What the parsers of src/json.c and src/plist.c may store. One round of `nson_parse_json` is in
-- Round, its loop in Loop.
pub mod Round
pub mod Loop
use mathlib.Core.Option.{some-injective}
use mathlib.Core.Path.{subst}
use nson.Prelude.{
  ap, ℕ, zero, suc, ◌+◌, ◌-◌, ◌≤◌, ◌<◌, ◌≡◌, true, some, [], ◌∷◌, Bytes, ◌==◌, drop, length,
  length-drop, arith, get_or, Bool-cases, Option-cases, inl, inr,
}
use nson.Prelude.Int.{ℤ, pos}
use nson.Util.Decimal.{parse_dev}
use nson.Util.Decimal.Bounds.{parse_dev_bounds}
use nson.Util.Decimal.RoundTrip.{IsParsable}
use nson.Util.Number.{Double, parse_fraction, finish_real, after_int, parse_number}
use nson.Value.{
  Nson, Items, Fields, bool, int, blob, real, arr, obj, str, no_items, item, no_fields, field,
  arr_get, arr_push, obj_entries,
}

-- Strings, integers of 64 bits other than the smallest, reals, the two truth values, and arrays and
-- unsorted objects of these: no nil and no pointer, and blobs only if `blobs` is not empty.
mutual
  pub data IsParsed (blobs : Type 0) : Nson → Type 0 where
    parsed_str : {s : Bytes} → IsParsed blobs (str s)
    parsed_blob : {b : Bytes} → blobs → IsParsed blobs (blob b)
    parsed_int : {z : ℤ} → IsParsable z → IsParsed blobs (int z)
    parsed_real : {r : ℕ} → IsParsed blobs (real r)
    parsed_false : IsParsed blobs (bool (pos 0))
    parsed_true : IsParsed blobs (bool (pos 1))
    parsed_arr : {xs : Items} → AllParsed blobs xs → IsParsed blobs (arr xs)
    parsed_obj : {fs : Fields} → FieldsParsed blobs fs → IsParsed blobs (obj true fs)

  pub data AllParsed (blobs : Type 0) : Items → Type 0 where
    none_parsed : AllParsed blobs no_items
    more_parsed :
        {x : Nson} {xs : Items}
        → IsParsed blobs x
        → AllParsed blobs xs
        → AllParsed blobs (item x xs)

  pub data FieldsParsed (blobs : Type 0) : Fields → Type 0 where
    end_parsed : FieldsParsed blobs no_fields
    field_parsed :
        {k v : Nson} {fs : Fields}
        → IsParsed blobs k
        → IsParsed blobs v
        → FieldsParsed blobs fs
        → FieldsParsed blobs (field k v fs)

module _ {blobs : Type 0} where
  pub AllParsed-arr_push :
      (xs : Items) (v : Nson)
      → AllParsed blobs xs
      → IsParsed blobs v
      → AllParsed blobs (arr_push xs v)
  unfolding arr_push
  AllParsed-arr_push no_items v none_parsed p = more_parsed p none_parsed
  AllParsed-arr_push (item x xs) v (more_parsed q qs) p =
      more_parsed q (AllParsed-arr_push xs v qs p)

  pub AllParsed-obj_entries :
      (xs : Items) → AllParsed blobs xs → FieldsParsed blobs (obj_entries xs)
  unfolding obj_entries
  AllParsed-obj_entries no_items none_parsed = end_parsed
  AllParsed-obj_entries (item k no_items) (more_parsed p none_parsed) = end_parsed
  AllParsed-obj_entries (item k (item v xs)) (more_parsed p (more_parsed q qs)) =
      field_parsed p q (AllParsed-obj_entries xs qs)

  pub AllParsed-arr_get :
      (xs : Items) (i : ℕ) (v : Nson)
      → AllParsed blobs xs
      → arr_get xs i ≡ some v
      → IsParsed blobs v
  unfolding arr_get
  AllParsed-arr_get no_items i v none_parsed e = cc
  AllParsed-arr_get (item x xs) zero v (more_parsed p ps) e =
      subst (IsParsed blobs) (some-injective _ _ e) p
  AllParsed-arr_get (item x xs) (suc i) v (more_parsed p ps) e = AllParsed-arr_get xs i v ps e

pub get_or_lt : (l : Bytes) (i c : ℕ) → 0 < c → get_or l i 0 ≡ c → i < length l
get_or_lt [] i c h e = omega arith
get_or_lt (x ∷ xs) zero c h e = omega arith
get_or_lt (x ∷ xs) (suc i) c h e = omega (arith, get_or_lt xs i c h e)

module _ (d : Double) where
  parse_fraction_bounds : (cs : Bytes) (r i : ℕ) → (parse_fraction d cs r i).1 ≤ i + length cs
  unfolding parse_fraction
  parse_fraction_bounds [] r i = omega arith
  parse_fraction_bounds (c ∷ cs) r i =
      let r' = d.sub (d.add (d.mul r d.tenth) (d.of_int (pos c))) (d.of_int (pos b'0')) in
      ground (arith, parse_fraction_bounds cs r' (i + 1))

module _ {blobs : Type 0} (d : Double) where
  after_int_lem :
      (z : ℤ) (i : ℕ) (l : Bytes)
      → IsParsable z
      → IsParsed blobs (after_int d z i l).0 × ((after_int d z i l).1 ≤ i + length l)
  unfolding after_int finish_real
  after_int_lem z i [] p = (parsed_int p, omega arith)
  after_int_lem z i (c ∷ cs) p = elim (Bool-cases (c == b'.')) [
    | inl point ↦
        rw point (parsed_real, omega (arith, parse_fraction_bounds d cs (d.of_int (pos 0)) (i + 1)))
    | inr plain ↦ rw plain (parsed_int p, omega arith)
  ]

  pub parse_number_lem :
      (l : Bytes) (v : Nson) (n : ℕ)
      → parse_number d l ≡ some (v, n)
      → IsParsed blobs v × (n ≤ length l)
  unfolding parse_number
  parse_number_lem l v n e = elim (Option-cases (parse_dev l)) [
    | inl failure ↦ cc (rw (failure, parse_number) at e)
    | inr ((z, i), found) ↦
        let whole = some-injective _ _ (rw (found, parse_number) at e) in
        let bounds = parse_dev_bounds l z i found in
        let number = after_int_lem z i (drop i l) bounds.0 in
        (
          subst (IsParsed blobs) (ap (λ (t : Nson × ℕ). t.0) whole) number.0,
          omega (arith, ap (λ (t : Nson × ℕ). t.1) whole, number.1, bounds.1, length-drop {0} i l),
        )
  ]
