-- ===== src/Util/Hex.antt =====
-- `__nson_parse_hex` of src/util.c, and the lower-case hexadecimal print of `printf("%04x")`.
pub mod RoundTrip
use nson.Prelude.{
  ℕ, suc, ◌+◌, ◌-◌, ◌*◌, ◌/◌, ◌%◌, ◌&&◌, Option, none, some, [], ◌∷◌, leb, ltb, if◌then◌else◌,
  Bytes,
}
use nson.Util.Decimal.{max_int64, is_digit}

-- The `switch` on one byte: its value, or `none` for the jump to `out`.
unfoldable pub hex_value : ℕ → Option ℕ
hex_value c =
    if is_digit c
    then some (c - b'0')
    else if leb b'a' c && leb c b'f'
    then some (c - b'a' + 10)
    else if leb b'A' c && leb c b'F'
    then some (c - b'A' + 10)
    else none

-- The loop, over the bytes left of the `len` that it may read.
unfoldable pub parse_hex_loop : Bytes → ℕ → ℕ → Option (ℕ × ℕ)
parse_hex_loop [] val i = some (val, i)
parse_hex_loop (c ∷ cs) val i = elim (hex_value c) [
  | none ↦ some (val, i)
  | some v ↦
      if ltb max_int64 (val * 16)
      then none
      else if ltb max_int64 (val * 16 + v)
      then none
      else parse_hex_loop cs (val * 16 + v) (i + 1)
]

-- The value stored in `*dest` with the number of bytes read; `none` is the return of -1.
unfoldable pub parse_hex : Bytes → Option (ℕ × ℕ)
parse_hex l = parse_hex_loop l 0 0

unfoldable pub hex_digit : ℕ → ℕ
hex_digit d = if ltb d 10 then b'0' + d else b'a' + (d - 10)

-- `printf("%04x")` of a value below 2^16.
unfoldable pub print_hex₄ : ℕ → Bytes
print_hex₄ n =
    hex_digit (n / 4096 % 16)
    ∷ hex_digit (n / 256 % 16)
    ∷ hex_digit (n / 16 % 16)
    ∷ hex_digit (n % 16)
    ∷ []
