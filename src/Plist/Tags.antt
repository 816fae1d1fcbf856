-- ===== src/Plist/Tags.antt =====
-- The steps of the property list parser behind a written tag.
use nson.Base64.{mapper_b64_enc}
use nson.Base64.Clear.{encode_clear}
use nson.Base64.Decode.{IsEncodable-IsBytes, b64_dec-mapper_b64_enc}
use nson.Base64.Encode.{IsEncodable, mapper_b64_enc-encode}
use nson.Json.Parser.{same_bytes}
use nson.Plist.Text.{measure_string_len, skip_tag}
use nson.Plist.Escapes.{
  IsText, NoTag, skip_tag_self, parse_string-plist_escape, measure_string_len-NoTag,
}
use nson.Plist.Parser.{
  Cursor, Round, goes_on, when_tag, pass_end, close_level, step_data, step_text, step_integer,
  step_end,
}
use nson.Plist.Writer.{plist_escape, in_tag}
use nson.Prelude.{
  ℕ, suc, ◌+◌, ◌%◌, ◌≡◌, refl, ap, ◌∙◌, some, leb, true, false, List, Bytes, [], ◌∷◌, ◌++◌, codes,
  length, length-append, drop, take_append, drop_append, append_assoc, ◌==◌, arith,
}
use nson.Prelude.Int.{ℤ, pos}
use nson.Util.Decimal.{print_int64}
use nson.Util.Decimal.RoundTrip.{IsParsable, parse_dev-print_int64}
use nson.Value.{Nson, Items, arr_len, arr_push, obj_entries}

abbrev pub cursor : Bytes → ℕ → Items → List Items → ℤ → Bytes → Cursor
cursor rest i top below rv string_tag = record {
  rest = rest;
  index = i;
  top = top;
  below = below;
  rv = rv;
  string_tag = string_tag;
}

-- Between two values.
abbrev pub at : Bytes → ℕ → Items → List Items → ℤ → Cursor
at rest i top below rv = cursor rest i top below rv (codes "string")

drop_past : (l : Bytes) (x : ℕ) (t : Bytes) → drop (length l + 1) (l ++ (x ∷ t)) ≡ t
drop_past l x t = let e : length l + 1 ≡ suc (length l) = omega arith in rw e (past l)
  where
    past : (l : Bytes) → drop (suc (length l)) (l ++ (x ∷ t)) ≡ t
    past [] = refl
    past (c ∷ cs) = past cs

drop_past₂ : (l : Bytes) (x y : ℕ) (t : Bytes) → drop (length l + 2) (l ++ (x ∷ y ∷ t)) ≡ t
drop_past₂ l x y t = let e : length l + 2 ≡ suc (suc (length l)) = omega arith in rw e (past l)
  where
    past : (l : Bytes) → drop (suc (suc (length l))) (l ++ (x ∷ y ∷ t)) ≡ t
    past [] = refl
    past (c ∷ cs) = past cs

pub when_tag_self :
    (tag rest : Bytes) (i : ℕ) (top : Items) (below : List Items) (rv : ℤ) (string_tag : Bytes)
    (f : Cursor → Round)
    → when_tag (cursor (tag ++ (b'>' ∷ rest)) i top below rv string_tag) tag f
      ≡ f (cursor rest (i + (length tag + 1)) top below (pos (length tag + 1)) string_tag)
when_tag_self tag rest i top below rv string_tag f =
    let some_bytes : (length tag + 1 == 0) ≡ false = ground arith in
    rw (skip_tag_self tag rest, when_tag, some_bytes, drop_past) refl

pass_end_self :
    (tag rest : Bytes) (i : ℕ) (top : Items) (below : List Items) (rv : ℤ) (string_tag : Bytes)
    → pass_end (cursor (tag ++ (b'>' ∷ rest)) i top below rv string_tag) tag
      ≡ cursor rest (i + (length tag + 1)) top below (pos (length tag + 1)) string_tag
unfolding pass_end
pass_end_self tag rest i top below rv string_tag =
    rw (skip_tag_self tag rest, pass_end, drop_past) refl

pub step_text_self :
    (s rest : Bytes) (i : ℕ) (top : Items) (below : List Items) (rv : ℤ) (tag : Bytes)
    → IsText s
    → step_text
        (cursor (plist_escape s [] ++ (b'<' ∷ b'/' ∷ (tag ++ (b'>' ∷ rest)))) i top below rv tag)
      ≡ goes_on (
          at rest
            (i + (length (plist_escape s []) + 2) + (length tag + 1))
            (arr_push top (Nson.str s))
            below
            (pos (length tag + 1)))
unfolding step_text
step_text_self s rest i top below rv tag w =
    let (found, text) = parse_string-plist_escape tag s rest w in
    rw (found, step_text, take_append, text, drop_past₂, pass_end_self) refl

pub step_integer_self :
    (z : ℤ) (rest : Bytes) (i : ℕ) (top : Items) (below : List Items) (rv : ℤ)
    → IsParsable z
    → step_integer (at (print_int64 z ++ (codes "</integer" ++ (b'>' ∷ rest))) i top below rv)
      ≡ goes_on
          (at rest (i + length (print_int64 z) + 10) (arr_push top (Nson.int z)) below (pos 10))
unfolding step_integer
step_integer_self z rest i top below rv p =
    rw
      (
        parse_dev-print_int64 z (codes "</integer" ++ (b'>' ∷ rest)) p refl,
        step_integer,
        drop_append,
      )
      (when_tag_self (codes "</integer") rest (i + length (print_int64 z))
        (arr_push top (Nson.int z)) below (pos (length (print_int64 z))) (codes "string") goes_on)

-- The base64 code of a blob is found and decoded.
pub step_data_self :
    (s rest : Bytes) (i : ℕ) (top : Items) (below : List Items) (rv : ℤ)
    → IsEncodable s
    → step_data
        (at (mapper_b64_enc s ++ (b'<' ∷ b'/' ∷ (codes "data" ++ (b'>' ∷ rest)))) i top below rv)
      ≡ goes_on (
          at rest
            (i + (length (mapper_b64_enc s) + 2) + 5)
            (arr_push top (Nson.blob s))
            below
            (pos 5))
unfolding step_data
step_data_self s rest i top below rv w =
    let code = mapper_b64_enc s in
    let tag = codes "data" in
    let clear : NoTag code =
      rw (mapper_b64_enc-encode s w) (encode_clear s (IsEncodable-IsBytes s w)) in
    let found : measure_string_len tag (code ++ (b'<' ∷ b'/' ∷ (tag ++ (b'>' ∷ rest)))) 0
        ≡ some (length code) =
      measure_string_len-NoTag tag code rest 0 clear ∙ ap some (omega arith) in
    let decoded = (b64_dec-mapper_b64_enc s w).1 in
    rw (found, step_data, take_append, decoded, drop_past₂)
      (ap goes_on (
        pass_end_self tag rest (i + (length code + 2)) (arr_push top (Nson.blob s)) below rv
          (codes "string")))

-- `data` is not taken for `dict`.
pub not_dict : (rest : Bytes) → skip_tag (codes "dict") (codes "data" ++ (b'>' ∷ rest)) ≡ pos 0
unfolding skip_tag same_bytes
not_dict rest =
    let longer : leb (length (codes "data" ++ (b'>' ∷ rest))) 4 ≡ false = ground arith in
    rw longer refl

pub end_dict :
    (rest : Bytes) (i : ℕ) (top b : Items) (below : List Items) (rv : ℤ)
    → arr_len top % 2 ≡ 0
    → step_end (at (codes "dict" ++ (b'>' ∷ rest)) i top (b ∷ below) rv) b'd'
      ≡ goes_on (at rest (i + 5) (arr_push b (Nson.obj true (obj_entries top))) below (pos 5))
unfolding step_end close_level
end_dict rest i top b below rv even =
    let test : (arr_len top % 2 == 0) ≡ true = ground arith in
    rw test (
      when_tag_self (codes "dict") rest i top (b ∷ below) rv (codes "string")
        (λ t. close_level t (Nson.obj true (obj_entries t.top))))

pub in_tag-append :
    (tag text rest : Bytes)
    → in_tag tag text ++ rest
      ≡ b'<' ∷ (tag ++ (b'>' ∷ (text ++ (b'<' ∷ b'/' ∷ (tag ++ (b'>' ∷ rest))))))
in_tag-append tag text rest = rw (append_assoc, append_assoc, append_assoc) refl

pub length-in_tag :
    (tag text : Bytes)
    → length (in_tag tag text) ≡ 1 + (length tag + 1) + (length text + 2) + (length tag + 1)
length-in_tag tag text = omega (
  arith,
  length-append tag (b'>' ∷ (text ++ (b'<' ∷ b'/' ∷ (tag ++ (b'>' ∷ []))))),
  length-append text (b'<' ∷ b'/' ∷ (tag ++ (b'>' ∷ []))),
  length-append tag (b'>' ∷ []),
)
