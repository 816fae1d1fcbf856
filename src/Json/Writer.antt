-- ===== src/Json/Writer.antt =====
-- `nson_json_write` and `json_b64_enc` of src/json.c, with `__nson_arr_serialize` of src/array.c and
-- `__nson_obj_serialize` of src/object.c: the bytes put on a stream that takes every byte.
use nson.Prelude.{ℕ, Bytes, [], ◌∷◌, ◌++◌, codes}
use nson.Prelude.Int.{ℤ, pos}
use nson.Base64.{mapper_b64_enc}
use nson.Json.Text.{json_escape_string}
use nson.Util.Decimal.{print_int64}
use nson.Util.Number.{Double}
use nson.Value.{
  Nson, Items, Fields, nil, bool, int, real, pointer, arr, obj, blob, str, no_items, item,
  no_fields, field,
}

-- `json_b64_enc`: `fwrite` of no bytes returns 0, and the closing quote is left out.
unfoldable pub json_b64_enc : Bytes → Bytes
json_b64_enc b = elim (mapper_b64_enc b) [
  | [] ↦ b'"' ∷ []
  | c ∷ cs ↦ b'"' ∷ c ∷ (cs ++ (b'"' ∷ []))
]

abbrev pub bool_word : ℤ → Bytes
bool_word (pos ℕ.zero) = codes "false"
bool_word _ = codes "true"

-- A separator stands behind each element but the last.
abbrev pub comma_items : Items → Bytes → Bytes
comma_items no_items more = more
comma_items (item x xs) more = b',' ∷ more

abbrev pub comma_fields : Fields → Bytes → Bytes
comma_fields no_fields more = more
comma_fields (field k v fs) more = b',' ∷ more

module _ (d : Double) where
  unfoldable mutual
    pub json_write : Nson → Bytes
    json_write nil = codes "null"
    json_write (pointer p) = codes "null"
    json_write (str s) = json_escape_string s
    json_write (blob b) = json_b64_enc b
    json_write (real r) = d.print r
    json_write (int i) = print_int64 i
    json_write (bool i) = bool_word i
    json_write (arr xs) = b'[' ∷ (arr_serialize xs ++ (b']' ∷ []))
    json_write (obj messy fs) = b'{' ∷ (obj_serialize fs ++ (b'}' ∷ []))

    pub arr_serialize : Items → Bytes
    arr_serialize no_items = []
    arr_serialize (item x xs) = json_write x ++ comma_items xs (arr_serialize xs)

    pub obj_serialize : Fields → Bytes
    obj_serialize no_fields = []
    obj_serialize (field k v fs) =
        json_write k ++ (b':' ∷ (json_write v ++ comma_fields fs (obj_serialize fs)))
