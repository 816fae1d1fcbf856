-- ===== src/Json/Text.antt =====
-- Strings: `json_str_len`, `parse_json_string` and `json_escape_string` of src/json.c.
pub mod RoundTrip
pub mod Written
use nson.Prelude.{
  ℕ, zero, suc, ◌+◌, Bool, not, ◌&&◌, ◌||◌, Option, none, some, Bytes, [], ◌∷◌, ◌++◌, ltb, ◌==◌,
  if◌then◌else◌, take,
}
use nson.Util.Hex.{parse_hex, print_hex₄}
use nson.Util.Utf8.{to_utf8}

-- `json_str_len`: the index of the first quote that no backslash escapes. `before` and `last` are
-- the two bytes in front, `chunk[-2]` and `chunk[-1]`; `none` is the return of -1.
unfoldable pub json_str_len : Bytes → ℕ → ℕ → ℕ → Option ℕ
json_str_len [] before last k = none
json_str_len (c ∷ cs) before last k =
    let more = json_str_len cs last c (k + 1) in
    if c == b'"' && (not (last == b'\\') || before == b'\\') then some k else more

-- What one backslash leads to: bytes written with the number of bytes to skip, or the end of the
-- loop, with the bytes copied behind it.
pub data Escape : Type 0 where
  wrote : Bytes → ℕ → Escape
  broke : Bytes → Escape

-- The `switch` on the byte behind a backslash.
unfoldable pub unescaped : ℕ → ℕ
unescaped c =
    if c == b't' then b'\t' else if c == b'n' then b'\n' else if c == b'r' then b'\r' else c

-- `text` is the string from behind the backslash, `after` the document behind the string, into
-- which four digits could reach.
unfoldable pub escape_at : Bytes → Bytes → Escape
escape_at [] after = broke []
escape_at (c ∷ cs) after =
    if c == b'u'
    then elim (parse_hex (take 4 (cs ++ after))) [
      | none ↦ broke (c ∷ cs)
      | some (val, n) ↦ if n == 4 then wrote (to_utf8 val 3) 5 else broke (c ∷ cs)
    ]
    else wrote (unescaped c ∷ []) 1

-- `parse_json_string`: the contents of the buffer that it makes of the `text`. The third argument
-- counts the bytes that `chunk_start` has yet to pass.
unfoldable pub parse_json_string : Bytes → Bytes → ℕ → Bytes
parse_json_string [] after skip = []
parse_json_string (c ∷ cs) after (suc skip) = parse_json_string cs after skip
parse_json_string (c ∷ cs) after zero =
    let copied = c ∷ parse_json_string cs after 0 in
    let escape : Bytes = elim (escape_at cs after) [
      | wrote out skip ↦ out ++ parse_json_string cs after skip
      | broke out ↦ out
    ] in
    if c == b'\\' then escape else copied

-- The escapes with a letter of their own; 0 is none.
unfoldable pub escape_letter : ℕ → ℕ
escape_letter c =
    if c == b'\t'
    then b't'
    else if c == b'\n'
    then b'n'
    else if c == b'\r'
    then b'r'
    else if c == b'"'
    then b'"'
    else 0

-- `iscntrl`, in the C locale.
unfoldable pub iscntrl : ℕ → Bool
iscntrl c = ltb c 32 || c == 127

-- The bytes written for one byte that is not copied; `none` is a byte that is.
unfoldable pub escape_byte : ℕ → Option Bytes
escape_byte c =
    if not (escape_letter c == 0)
    then some (b'\\' ∷ escape_letter c ∷ [])
    else if iscntrl c
    then some (b'\\' ∷ b'u' ∷ print_hex₄ c)
    else none

-- The loop of `json_escape_string`, on a stream that takes every byte. `run` holds the bytes from
-- `last_write` to `i`. `fwrite` of an empty run returns 0, which the code takes for an error.
unfoldable pub escape_loop : Bytes → Bytes → Bytes
escape_loop [] run = run ++ (b'"' ∷ [])
escape_loop (c ∷ cs) run = elim (escape_byte c) [
  | none ↦ escape_loop cs (run ++ (c ∷ []))
  | some out ↦ elim run [ [] ↦ [] | x ∷ xs ↦ x ∷ (xs ++ (out ++ escape_loop cs [])) ]
]

-- The bytes that `json_escape_string` writes.
unfoldable pub json_escape_string : Bytes → Bytes
json_escape_string s = b'"' ∷ escape_loop s []
