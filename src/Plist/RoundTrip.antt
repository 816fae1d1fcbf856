-- ===== src/Plist/RoundTrip.antt =====
-- What `nson_plist_write` writes of a plain value, `nson_parse_plist` reads back.
use nson.Base64.Encode.{IsEncodable}
use nson.Json.Brackets.{flat}
use nson.Json.Parser.{isspace, same_bytes}
use nson.Plist.Escapes.{IsText, skip_tag_self}
use nson.Plist.Text.{skip_tag, tag_close}
use nson.Plist.Parser.{
  space_run, pass, plist_header, skip_spaces, Cursor, plist_close, PlistParsed, ended,
  plist_headers, parse_plist,
}
use nson.Plist.Reads.{
  Yields, Yields-round, plist_loop-Yields, ReadsValue, ReadsInside, ReadsValue-arr, ReadsValue-obj,
  ReadsInside-nil, ReadsInside-value,
}
use nson.Plist.Rounds.{round_text, round_blob, round_integer, round_bool}
use nson.Plist.Tags.{at}
use nson.Plist.Writer.{plist_body, plist_items, plist_fields, plist_head, plist_write}
use nson.Prelude.{
  ℕ, suc, ◌+◌, ◌≤◌, ◌≡◌, refl, ap, sym, ◌∙◌, inl, Bool, true, false, Bytes, [], ◌++◌, append_assoc,
  codes, leb, Option, some, take, drop, ◌==◌, ◌>>=◌, length, length-append, arith,
}
use nson.Prelude.Int.{ℤ, pos}
use nson.Util.Decimal.RoundTrip.{IsParsable}
use nson.Util.Number.{Double}
use nson.Value.{
  Nson, Items, Fields, bool, int, blob, str, arr, obj, no_items, item, no_fields, field, arr_push,
  arr_get,
}

-- Text that is written in full, blobs that the encoder encodes, integers that the reader takes,
-- truth values, and arrays and objects of these, with text as keys and the mark that the parser
-- sets.
mutual
  pub data IsProperty : Nson → Type 0 where
    text_property : {s : Bytes} → IsText s → IsProperty (str s)
    blob_property : {s : Bytes} → IsEncodable s → IsProperty (blob s)
    int_property : {z : ℤ} → IsParsable z → IsProperty (int z)
    bool_property : {n : ℕ} → n ≤ 1 → IsProperty (bool (pos n))
    arr_property : {xs : Items} → AllProperty xs → IsProperty (arr xs)
    obj_property : {fs : Fields} → FieldsProperty fs → IsProperty (obj true fs)

  pub data AllProperty : Items → Type 0 where
    none_property : AllProperty no_items
    more_property :
        {x : Nson} {xs : Items} → IsProperty x → AllProperty xs → AllProperty (item x xs)

  pub data FieldsProperty : Fields → Type 0 where
    end_property : FieldsProperty no_fields
    field_property :
        {s : Bytes} {v : Nson} {fs : Fields}
        → IsText s
        → IsProperty v
        → FieldsProperty fs
        → FieldsProperty (field (str s) v fs)

-- The tag at the front, with what stands behind its name.
skip_tag_long :
    (tag p : Bytes)
    → leb (length p) (length tag) ≡ false
    → same_bytes (take (length tag) p) tag ≡ true
    → skip_tag tag p ≡ tag_close (length tag) (drop (length tag) p)
unfolding skip_tag
skip_tag_long tag p longer same = rw (longer, same)

plist_header_self :
    (s : Cursor) (tag : Bytes) (n : ℕ)
    → skip_tag tag s.rest ≡ pos (suc n)
    → plist_header s tag ≡ some (record (pass s (suc n)) { rv = pos (suc n) })
unfolding plist_header
plist_header_self s tag n e =
    let some_bytes : (suc n == 0) ≡ false = ground arith in rw (e, plist_header, some_bytes) refl

-- The header that the writer writes is passed.
headers :
    (rest : Bytes)
    → plist_headers (at (plist_head ++ rest) 0 no_items [] (pos 0))
      ≡ some (at rest (length plist_head) no_items [] (pos 21))
unfolding plist_headers same_bytes tag_close space_run isspace
headers rest =
    let s = at (plist_head ++ rest) 0 no_items [] (pos 0) in
    let t = at (drop 38 (plist_head ++ rest)) 38 no_items [] (pos 38) in
    let u = at (drop 149 (plist_head ++ rest)) 149 no_items [] (pos 111) in
    let third : Cursor → Option Cursor = λ u. plist_header (skip_spaces u) (codes "<plist") in
    let xml =
      plist_header_self s (codes "<?xml") 37
        (skip_tag_long (codes "<?xml") (plist_head ++ rest) (ground arith) refl) in
    let doctype =
      plist_header_self (skip_spaces t) (codes "<!DOCTYPE") 110
        (skip_tag_long (codes "<!DOCTYPE") t.rest (ground arith) refl) in
    let plist =
      plist_header_self (skip_spaces u) (codes "<plist") 20
        (skip_tag_long (codes "<plist") u.rest (ground arith) refl) in
    ap (λ o. o >>= (λ t. plist_header (skip_spaces t) (codes "<!DOCTYPE") >>= third)) xml
    ∙ ap (λ o. o >>= third) doctype
    ∙ plist

module _ (d : Double) where
  reads_text : (is_key : Bool) (s : Bytes) → IsText s → ReadsValue d is_key (str s)
  reads_text is_key s w rest i top below rv p k =
      let (rv', e) = round_text d is_key s rest i top below rv w in Yields-round d e (k rv')

  reads_blob : (is_key : Bool) (s : Bytes) → IsEncodable s → ReadsValue d is_key (blob s)
  reads_blob is_key s w rest i top below rv p k =
      let (rv', e) = round_blob d is_key s rest i top below rv w in Yields-round d e (k rv')

  reads_integer : (is_key : Bool) (z : ℤ) → IsParsable z → ReadsValue d is_key (int z)
  reads_integer is_key z fits rest i top below rv p k =
      let (rv', e) = round_integer d is_key z rest i top below rv fits in Yields-round d e (k rv')

  reads_bool : (is_key : Bool) (n : ℕ) → n ≤ 1 → ReadsValue d is_key (bool (pos n))
  reads_bool is_key n h rest i top below rv p k =
      let (rv', e) = round_bool d is_key n rest i top below rv h in Yields-round d e (k rv')

  reads_no_items : (is_key : Bool) → ReadsInside d (plist_items d is_key no_items) no_items
  unfolding plist_items
  reads_no_items is_key = ReadsInside-nil d

  reads_item :
      (is_key : Bool) (x : Nson) (xs : Items)
      → ReadsValue d is_key x
      → ReadsInside d (plist_items d is_key xs) xs
      → ReadsInside d (plist_items d is_key (item x xs)) (item x xs)
  unfolding plist_items
  reads_item is_key x xs value more =
      ReadsInside-value d is_key x xs (plist_items d is_key xs) value more

  reads_no_fields :
      (is_key : Bool) → ReadsInside d (plist_fields d is_key no_fields) (flat no_fields)
  unfolding plist_fields flat
  reads_no_fields is_key = ReadsInside-nil d

  reads_field :
      (is_key : Bool) (k v : Nson) (fs : Fields)
      → ReadsValue d true k
      → ReadsValue d is_key v
      → ReadsInside d (plist_fields d is_key fs) (flat fs)
      → ReadsInside d (plist_fields d is_key (field k v fs)) (flat (field k v fs))
  unfolding plist_fields flat
  reads_field is_key k v fs key value more =
      ReadsInside-value d true k (item v (flat fs))
        (plist_body d is_key v ++ plist_fields d is_key fs) key
        (ReadsInside-value d is_key v (flat fs) (plist_fields d is_key fs) value more)

  mutual
    reads_value : (is_key : Bool) {v : Nson} → IsProperty v → ReadsValue d is_key v
    reads_value is_key (text_property {s} w) = reads_text is_key s w
    reads_value is_key (blob_property {s} w) = reads_blob is_key s w
    reads_value is_key (int_property {z} w) = reads_integer is_key z w
    reads_value is_key (bool_property {n} w) = reads_bool is_key n w
    reads_value is_key (arr_property {xs} p) = ReadsValue-arr d is_key xs (reads_items is_key p)
    reads_value is_key (obj_property {fs} p) = ReadsValue-obj d is_key fs (reads_fields is_key p)

    reads_items :
        (is_key : Bool) {xs : Items} → AllProperty xs → ReadsInside d (plist_items d is_key xs) xs
    reads_items is_key none_property = reads_no_items is_key
    reads_items is_key (more_property {x} {xs} p ps) =
        reads_item is_key x xs (reads_value is_key p) (reads_items is_key ps)

    reads_fields :
        (is_key : Bool) {fs : Fields}
        → FieldsProperty fs
        → ReadsInside d (plist_fields d is_key fs) (flat fs)
    reads_fields is_key end_property = reads_no_fields is_key
    reads_fields is_key (field_property {s} {v} {fs} w p ps) =
        reads_field is_key (str s) v fs (reads_text true s w) (reads_value is_key p)
          (reads_fields is_key ps)

  plist_close_self :
      (v : Nson) (rest : Bytes) (n : ℕ) (rv : ℤ)
      → plist_close (at (codes "</plist>" ++ rest) n (arr_push no_items v) [] rv)
        ≡ ended v (pos (n + 8)) (codes "string")
  unfolding plist_close space_run isspace arr_push arr_get
  plist_close_self v rest n rv =
      let here : n + 0 ≡ n = omega arith in
      rw (skip_tag_self (codes "</plist") rest, plist_close, here) refl

  plist_write-IsProperty :
      (v : Nson)
      → IsProperty v
      → plist_write d v ≡ plist_head ++ (plist_body d false v ++ codes "</plist>")
  unfolding plist_write
  plist_write-IsProperty _ (text_property w) = refl
  plist_write-IsProperty _ (blob_property w) = refl
  plist_write-IsProperty _ (int_property w) = refl
  plist_write-IsProperty _ (bool_property w) = refl
  plist_write-IsProperty _ (arr_property w) = refl
  plist_write-IsProperty _ (obj_property w) = refl

  parse_plist-Yields :
      (doc : Bytes) (t : Cursor) (p : PlistParsed)
      → plist_headers (at doc 0 no_items [] (pos 0)) ≡ some t
      → Yields d p t
      → length t.rest ≤ length doc
      → parse_plist d (codes "string") doc ≡ p
  unfolding parse_plist
  parse_plist-Yields doc t p e y h =
      rw (e, parse_plist) (plist_loop-Yields d y (suc (length doc)) (omega arith))

  -- The property list written of a plain value (text written in full, encodable blobs, parsable
  -- integers, truth values, arrays, and marked objects with text as keys) is parsed to the value, whatever stands behind it, and
  -- the parser returns the length of what was written.
  pub parse_plist-plist_write :
      (v : Nson) (rest : Bytes)
      → IsProperty v
      → parse_plist d (codes "string") (plist_write d v ++ rest)
        ≡ ended v (pos (length (plist_write d v))) (codes "string")
  parse_plist-plist_write v rest p =
      let body = plist_body d false v in
      let behind = codes "</plist>" ++ rest in
      let n = length plist_head + length body in
      let out = ended v (pos (n + 8)) (codes "string") in
      let run =
        reads_value false p behind (length plist_head) no_items [] (pos 21) out
          (λ rv. inl (refl, plist_close_self v rest n rv)) in
      let doc : plist_write d v ++ rest ≡ plist_head ++ (body ++ behind) =
        ap (λ l. l ++ rest) (plist_write-IsProperty v p)
        ∙ append_assoc plist_head (body ++ codes "</plist>") rest
        ∙ ap (λ l. plist_head ++ l) (append_assoc body (codes "</plist>") rest) in
      let written : length (plist_write d v) ≡ n + 8 =
        ap length (plist_write-IsProperty v p)
        ∙ omega (
          arith,
          length-append plist_head (body ++ codes "</plist>"),
          length-append body (codes "</plist>"),
        ) in
      ap (parse_plist d (codes "string")) doc
      ∙ parse_plist-Yields (plist_head ++ (body ++ behind)) _ out (headers (body ++ behind)) run
          (omega (arith, length-append plist_head (body ++ behind)))
      ∙ ap (λ m. ended v (pos m) (codes "string")) (sym written)
