-- ===== src/Plist/Writer.antt =====
-- `plist_escape`, `plist_b64_enc` and `nson_plist_write` of src/plist.c, with the serializers of
-- src/array.c and src/object.c: the bytes put on a stream that takes every byte.
use nson.Base64.{mapper_b64_enc}
use nson.Json.Text.{iscntrl}
use nson.Prelude.{
  ℕ, zero, ◌/◌, ◌%◌, Bool, true, false, Option, none, some, Bytes, [], ◌∷◌, ◌++◌, codes, ◌==◌,
  if◌then◌else◌,
}
use nson.Prelude.Int.{ℤ, pos}
use nson.Util.Decimal.{print_int64}
use nson.Util.Hex.{hex_digit}
use nson.Util.Number.{Double}
use nson.Value.{
  Nson, Items, Fields, nil, bool, int, real, pointer, arr, obj, blob, str, no_items, item,
  no_fields, field,
}

-- The bytes written for one byte that is not copied: the `switch`, and `&#%02x;`.
unfoldable pub plist_reference : ℕ → Option Bytes
plist_reference c =
    if c == b'<'
    then some (codes "&lt;")
    else if c == b'>'
    then some (codes "&gt;")
    else if c == b'&'
    then some (codes "&amp;")
    else if iscntrl c
    then some (codes "&#" ++ (hex_digit (c / 16) ∷ hex_digit (c % 16) ∷ b';' ∷ []))
    else none

-- The loop. `run` holds the bytes from `last_write` to `i`; as `fwrite` of an empty run returns 0, a
-- reference with no byte in front is taken for an error, and the rest is left out.
unfoldable pub plist_escape : Bytes → Bytes → Bytes
plist_escape [] run = run
plist_escape (c ∷ cs) run = elim (plist_reference c) [
  | none ↦ plist_escape cs (run ++ (c ∷ []))
  | some out ↦ elim run [ [] ↦ [] | x ∷ xs ↦ x ∷ (xs ++ (out ++ plist_escape cs [])) ]
]

-- `<tag>text</tag>`
abbrev pub in_tag : Bytes → Bytes → Bytes
in_tag tag text = (b'<' ∷ tag) ++ (b'>' ∷ (text ++ (b'<' ∷ b'/' ∷ (tag ++ (b'>' ∷ [])))))

abbrev pub bool_tag : ℤ → Bytes
bool_tag (pos zero) = codes "<false/>"
bool_tag _ = codes "<true/>"

abbrev pub plist_head : Bytes
plist_head =
    codes "<?xml version=\"1.0\" encoding=\"UTF-8\"?>"
    ++ (codes "<!DOCTYPE plist PUBLIC \"-//Apple Computer//DTD PLIST 1.0//EN\" "
        ++ (codes "\"http://www.apple.com/DTDs/PropertyList-1.0.dtd\">"
            ++ codes "<plist version=\"1.0\">"))

module _ (d : Double) where
  -- With NSON_SKIP_HEADER set; the first argument is NSON_IS_KEY.
  unfoldable mutual
    pub plist_body : Bool → Nson → Bytes
    plist_body is_key nil = []
    plist_body is_key (pointer p) = []
    plist_body is_key (str s) =
        in_tag (if is_key then codes "key" else codes "string") (plist_escape s [])
    plist_body is_key (blob b) = in_tag (codes "data") (mapper_b64_enc b)
    plist_body is_key (real r) = in_tag (codes "real") (d.print r)
    plist_body is_key (int i) = in_tag (codes "integer") (print_int64 i)
    plist_body is_key (bool i) = bool_tag i
    plist_body is_key (arr xs) = in_tag (codes "array") (plist_items is_key xs)
    plist_body is_key (obj messy fs) = in_tag (codes "dict") (plist_fields is_key fs)

    pub plist_items : Bool → Items → Bytes
    plist_items is_key no_items = []
    plist_items is_key (item x xs) = plist_body is_key x ++ plist_items is_key xs

    pub plist_fields : Bool → Fields → Bytes
    plist_fields is_key no_fields = []
    plist_fields is_key (field k v fs) =
        plist_body true k ++ (plist_body is_key v ++ plist_fields is_key fs)

  -- Without the options. A nil ends the function behind the header.
  unfoldable pub plist_write : Nson → Bytes
  plist_write nil = plist_head
  plist_write v = plist_head ++ (plist_body false v ++ codes "</plist>")
