-- ===== src/Json/RoundTrip.antt =====
-- What `nson_json_write` writes of a plain value, `nson_parse_json` reads back.
use nson.Prelude.{ℕ, suc, ◌+◌, ◌≡◌, refl, ap, false, [], ◌∷◌, ◌++◌, Bytes, length, arith, inl, inr}
use nson.Json.Brackets.{flat}
use nson.Json.Parser.{is_empty, isspace, conclude, skip_blanks, parse_json, parsed}
use nson.Json.Plain.{
  IsPlain, IsPlainScalar, AllPlain, FieldsPlain, scalar_plain, arr_plain, obj_plain, none_plain,
  more_plain, end_plain, field_plain, scalar_str, scalar_int, scalar_false, scalar_true,
}
use nson.Json.Reads.{
  ReadsValue, ReadsInside, ReadsValue-arr, ReadsValue-obj, ReadsInside-nil, ReadsInside-value,
  ReadsInside-separator,
}
use nson.Json.Runs.{Runs-step, loop-Runs}
use nson.Json.Steps.{at, Stops, step_scalar, print_int64_head}
use nson.Json.Text.{json_escape_string}
use nson.Json.Writer.{json_write, arr_serialize, obj_serialize, comma_items, comma_fields}
use nson.Util.Number.{Double}
use nson.Value.{Nson, Items, Fields, no_items, item, no_fields, field, arr_push, arr_len, arr_get}

module _ (d : Double) where
  reads_comma_items :
      (xs : Items)
      → ReadsInside d (arr_serialize d xs) xs
      → ReadsInside d (comma_items xs (arr_serialize d xs)) xs
  reads_comma_items no_items reads = reads
  reads_comma_items (item x xs) reads = ReadsInside-separator d b',' _ _ (inl refl) reads

  reads_comma_fields :
      (fs : Fields)
      → ReadsInside d (obj_serialize d fs) (flat fs)
      → ReadsInside d (comma_fields fs (obj_serialize d fs)) (flat fs)
  reads_comma_fields no_fields reads = reads
  reads_comma_fields (field k v fs) reads = ReadsInside-separator d b',' _ _ (inl refl) reads

  Stops-comma_items :
      (xs : Items) (c : ℕ) (rest : Bytes)
      → Stops (c ∷ rest)
      → Stops (comma_items xs (arr_serialize d xs) ++ (c ∷ rest))
  unfolding arr_serialize
  Stops-comma_items no_items c rest stops = stops
  Stops-comma_items (item x xs) c rest stops = (refl, refl)

  Stops-comma_fields :
      (fs : Fields) (c : ℕ) (rest : Bytes)
      → Stops (c ∷ rest)
      → Stops (comma_fields fs (obj_serialize d fs) ++ (c ∷ rest))
  unfolding obj_serialize
  Stops-comma_fields no_fields c rest stops = stops
  Stops-comma_fields (field k v fs) c rest stops = (refl, refl)

  reads_scalar : (v : Nson) → IsPlainScalar v → ReadsValue d v
  reads_scalar v p rest i top below u stops k =
      Runs-step d (step_scalar d v rest i top below p stops) k

  reads_item :
      (x : Nson) (xs : Items)
      → ReadsValue d x
      → ReadsInside d (arr_serialize d xs) xs
      → ReadsInside d (arr_serialize d (item x xs)) (item x xs)
  reads_item x xs value more =
      unfold arr_serialize in
      ReadsInside-value d x xs _ value (Stops-comma_items xs) (reads_comma_items xs more)

  reads_field :
      (k v : Nson) (fs : Fields)
      → ReadsValue d k
      → ReadsValue d v
      → ReadsInside d (obj_serialize d fs) (flat fs)
      → ReadsInside d (obj_serialize d (field k v fs)) (flat (field k v fs))
  unfolding obj_serialize flat
  reads_field k v fs key value more =
      ReadsInside-value d k _ _ key (λ c rest stops. (refl, refl))
        (ReadsInside-separator d b':' _ _ (inr refl)
          (ReadsInside-value d v _ _ value (Stops-comma_fields fs) (reads_comma_fields fs more)))

  reads_no_items : ReadsInside d (arr_serialize d no_items) no_items
  unfolding arr_serialize
  reads_no_items = ReadsInside-nil d

  reads_no_fields : ReadsInside d (obj_serialize d no_fields) (flat no_fields)
  unfolding obj_serialize flat
  reads_no_fields = ReadsInside-nil d

  mutual
    reads_value : {v : Nson} → IsPlain v → ReadsValue d v
    reads_value (scalar_plain {v} p) = reads_scalar v p
    reads_value (arr_plain {xs} p) = ReadsValue-arr d xs (reads_items p)
    reads_value (obj_plain {fs} p) = ReadsValue-obj d fs (reads_fields p)

    reads_items : {xs : Items} → AllPlain xs → ReadsInside d (arr_serialize d xs) xs
    reads_items none_plain = reads_no_items
    reads_items (more_plain {x} {xs} px pxs) = reads_item x xs (reads_value px) (reads_items pxs)

    reads_fields : {fs : Fields} → FieldsPlain fs → ReadsInside d (obj_serialize d fs) (flat fs)
    reads_fields end_plain = reads_no_fields
    reads_fields (field_plain {k} {v} {fs} pk pv pfs) =
        reads_field k v fs (reads_value pk) (reads_value pv) (reads_fields pfs)

  -- No written value begins with a blank.
  abbrev Starts : Bytes → Type 0
  Starts l = (c : ℕ) × (cs : Bytes) × (l ≡ c ∷ cs) × (isspace c ≡ false)

  json_write-Starts : (v : Nson) → IsPlain v → Starts (json_write d v)
  unfolding json_write isspace
  json_write-Starts v (scalar_plain (scalar_str {s} w)) =
      unfold json_escape_string in (b'"', _, refl, refl)
  json_write-Starts v (scalar_plain (scalar_int {z} fits)) =
      let (c, cs, e, head) = print_int64_head z in (c, cs, e, ground arith)
  json_write-Starts v (scalar_plain scalar_false) = (b'f', _, refl, refl)
  json_write-Starts v (scalar_plain scalar_true) = (b't', _, refl, refl)
  json_write-Starts v (arr_plain p) = (b'[', _, refl, refl)
  json_write-Starts v (obj_plain p) = (b'{', _, refl, refl)

  skip_blanks-Starts :
      (l rest : Bytes) → Starts l → skip_blanks (l ++ rest) 0 ≡ at (l ++ rest) 0 no_items []
  unfolding skip_blanks
  skip_blanks-Starts l rest (c, cs, e, black) = rw (e, black)

  is_empty-Starts : (l rest : Bytes) → Starts l → is_empty (l ++ rest) ≡ false
  is_empty-Starts l rest (c, cs, e, black) = rw e

  -- The JSON print of a plain value, with anything behind it that a number could not go on with, is
  -- parsed to the value, and the parser returns the length of the print.
  pub parse_json-json_write :
      (v : Nson) (rest : Bytes)
      → IsPlain v
      → Stops rest
      → parse_json d (json_write d v ++ rest) ≡ parsed v (length (json_write d v))
  unfolding parse_json
  parse_json-json_write v rest p stops =
      let doc = json_write d v ++ rest in
      let start = json_write-Starts v p in
      let run =
        reads_value p rest 0 no_items []
          (at rest (0 + length (json_write d v)) (arr_push no_items v) []) stops
          (inl (refl, refl)) in
      rw
        (
          skip_blanks-Starts (json_write d v) rest start,
          is_empty-Starts (json_write d v) rest start,
          loop-Runs d run (suc (length doc)) (omega arith),
        )
        (unfold conclude arr_push arr_len arr_get in ap (parsed v) (omega arith))
