-- ===== src/Base64.antt =====
-- Base64: `nson_mapper_b64_enc` and `nson_mapper_b64_dec` of src/map_reduce.c, and
-- `__nson_parse_b64` of src/util.c. A `char` is a byte below 256; it is signed, so an operand of a
-- shift is extended with its sign.
mod Digits
pub mod Encode
pub mod Decode
pub mod Signed
pub mod Bounds
pub mod Clear
use nson.Prelude.{
  ℕ, suc, ◌+◌, ◌-◌, ◌*◌, ◌/◌, ◌%◌, ◌^◌, Bool, true, false, not, ◌&&◌, Option, none, some, List, [],
  ◌∷◌, ◌++◌, ltb, ◌==◌, if◌then◌else◌, Bytes, codes, length, get_or, replicate, bit_and, bit_or,
}

abbrev pub base64_table : Bytes
base64_table = codes "ABCDEFGHIJKLMNOPQRSTUVWXYZabcdefghijklmnopqrstuvwxyz0123456789+/"

-- `base64_table[v]`, for `v` below 64.
unfoldable pub base64_digit : ℕ → ℕ
base64_digit v = get_or base64_table v 0

-- A negative `char` as an `int`, in two's complement.
abbrev pub widen : ℕ → ℕ
widen c = if ltb c 128 then c else c + (2 ^ 32 - 256)

-- `c >> k`: the sign fills bits that the mask of the caller clears.
abbrev pub shift_right : ℕ → ℕ → ℕ
shift_right c k = widen c / 2 ^ k

-- `c << k`
abbrev pub shift_left : ℕ → ℕ → ℕ
shift_left c k = widen c * 2 ^ k % 2 ^ 32

-- One round of the encoder's loop: the digits stored, and `reminder`.
unfoldable pub enc_step : ℕ → ℕ → ℕ → Bytes × ℕ
enc_step i c reminder =
    if i % 3 == 0
    then (base64_digit (bit_and (shift_right c 2) 63) ∷ [], bit_and (shift_left c 4) 63)
    else if i % 3 == 1
    then (
      base64_digit (bit_and (bit_or (shift_right c 4) reminder) 63) ∷ [],
      bit_and (shift_left c 2) 63,
    )
    else (
      base64_digit (bit_and (bit_or (shift_right c 6) reminder) 63)
          ∷ base64_digit (bit_and (widen c) 63)
          ∷ [],
      reminder,
    )

unfoldable pub enc_loop : Bytes → ℕ → ℕ → Bytes × ℕ
enc_loop [] i reminder = ([], reminder)
enc_loop (c ∷ cs) i reminder =
    let (stored, reminder') = enc_step i c reminder in
    let (out, last) = enc_loop cs (i + 1) reminder' in (stored ++ out, last)

-- The size of the buffer for `n` bytes.
abbrev pub enc_size : ℕ → ℕ
enc_size n = (n + 2) / 3 * 4

-- What stands behind the loop: the last digit and the padding.
unfoldable pub enc_close : ℕ → Bytes × ℕ → Bytes
enc_close siz (out, reminder) =
    if siz == length out
    then out
    else out ++ (base64_digit (bit_and reminder 63) ∷ replicate (siz - length out - 1) b'=')

-- The new contents; the function returns their length.
unfoldable pub mapper_b64_enc : Bytes → Bytes
mapper_b64_enc src = enc_close (enc_size (length src)) (enc_loop src 0 0)

-- `memchr(base64_table, c, 64) - base64_table`
abbrev pub memchr_index : Bytes → ℕ → Option ℕ
memchr_index [] c = none
memchr_index (x ∷ xs) c =
    if x == c then some 0 else elim (memchr_index xs c) [ none ↦ none | some k ↦ some (suc k) ]

unfoldable pub base64_value : ℕ → Option ℕ
base64_value c = memchr_index base64_table c

-- One round of a decoder's loop, where `cell` is `dest[j]`: the bytes that `j` passes, and the cell
-- behind them, which is 0 from the start when the round does not store into it.
unfoldable pub dec_step : ℕ → ℕ → ℕ → Bytes × ℕ
dec_step i v cell =
    if i % 4 == 0
    then ([], v * 4 % 256)
    else if i % 4 == 1
    then (bit_or cell (v / 16) ∷ [], v * 16 % 256)
    else if i % 4 == 2
    then (bit_or cell (v / 4) ∷ [], v * 64 % 256)
    else (bit_or cell v ∷ [], 0)

-- How a decoder's loop ends: the bytes stored, `i`, the input from there, and whether the byte
-- there was refused by `memchr`.
pub record Scan : Type 0 where
  pub out : Bytes
  pub index : ℕ
  pub rest : Bytes
  pub refused : Bool

unfoldable pub dec_loop : Bytes → ℕ → ℕ → Scan
dec_loop [] i cell = record { out = []; index = i; rest = []; refused = false }
dec_loop (c ∷ cs) i cell =
    if c == b'='
    then record { out = []; index = i; rest = c ∷ cs; refused = false }
    else elim (base64_value c) [
      | none ↦ record { out = []; index = i; rest = c ∷ cs; refused = true }
      | some v ↦
          let (stored, cell') = dec_step i v cell in
          let scan = dec_loop cs (i + 1) cell' in record scan { out = stored ++ scan.out }
    ]

-- The loop over the padding.
unfoldable pub skip_padding : Bytes → ℕ → ℕ
skip_padding [] i = i
skip_padding (c ∷ cs) i =
    let more = skip_padding cs (i + 1) in if not (i % 4 == 0) && c == b'=' then more else i

abbrev pub dec_close : Scan → Option (Bytes × ℕ)
dec_close scan =
    let i = skip_padding scan.rest scan.index in if i % 4 == 0 then some (scan.out, i) else none

-- The new contents with the value returned; `none` is the return of -1.
unfoldable pub mapper_b64_dec : Bytes → Option (Bytes × ℕ)
mapper_b64_dec src = dec_close (dec_loop src 0 0)

-- The same for `__nson_parse_b64`, which refuses a byte outside the alphabet.
unfoldable pub parse_b64 : Bytes → Option (Bytes × ℕ)
parse_b64 src = let scan = dec_loop src 0 0 in if scan.refused then none else dec_close scan
