-- ===== src/Tests/Bytes.antt =====
-- Runs and instances for src/util.c, the base64 code of src/map_reduce.c, and src/buf.c.
use nson.Base64.{
  mapper_b64_enc, mapper_b64_dec, parse_b64, enc_size, enc_close, enc_loop, enc_step, base64_digit,
  dec_loop, base64_value, skip_padding, dec_step,
}
use nson.Base64.Bounds.{length-mapper_b64_enc, cells_stored, dec_loop_bounds, dec_size}
use nson.Base64.Decode.{b64_dec-encode, b64_dec-mapper_b64_enc}
use nson.Base64.Encode.{encode, mapper_b64_enc-encode}
use nson.Base64.Signed.{mapper_b64_enc-ne-encode}
use nson.Buf.{buf_cmp}
use nson.Buf.Order.{lexicographic, buf_cmp-lexicographic}
use nson.Prelude.{◌≤◌, ◌≡◌, ◌≢◌, refl, some, none, Bytes, [], ◌∷◌, ◌++◌, codes, length, arith}
use nson.Prelude.Int.{negsuc}
use nson.Util.Decimal.{parse_dev, parse_dev_loop, print_int64}
use nson.Util.Decimal.Bounds.{parse_dev_bounds}
use nson.Util.Decimal.RoundTrip.{parse_dev-print_int64, IsParsable}
use nson.Util.Hex.{parse_hex, print_hex₄}
use nson.Util.Hex.RoundTrip.{parse_hex-print_hex₄}
use nson.Util.Utf8.{to_utf8}
use nson.Util.Utf8.Decode.{decode, decode-to_utf8}

parse_dev_runs : parse_dev (codes "-120]") ≡ some (negsuc 119, 4)
unfolding parse_dev parse_dev_loop
parse_dev_runs = refl

-- INT64_MIN is refused, although it is an `int64_t`.
parse_dev_min : parse_dev (codes "-9223372036854775808") ≡ none
unfolding parse_dev parse_dev_loop
parse_dev_min = refl

mapper_b64_enc_runs : mapper_b64_enc (codes "light work.") ≡ codes "bGlnaHQgd29yay4="
unfolding mapper_b64_enc enc_close enc_loop enc_step base64_digit
mapper_b64_enc_runs = refl

parse_b64_runs : parse_b64 (codes "bGlnaHQgd29yaw==") ≡ some (codes "light work", 16)
unfolding parse_b64 dec_loop base64_value skip_padding dec_step
parse_b64_runs = refl

-- The two decoders differ on a byte outside the alphabet.
decoders_differ :
    (parse_b64 (codes "bGln!") ≡ none) × (mapper_b64_dec (codes "bGln!") ≡ some (codes "lig", 4))
unfolding parse_b64 mapper_b64_dec dec_loop base64_value skip_padding dec_step
decoders_differ = (refl, refl)

-- The UTF-8 form of a small u with diaeresis, at the head of a group of three and behind it.
abbrev latin : Bytes
latin = 0xc3 ∷ b'a' ∷ b'b' ∷ 0xfc ∷ []

parse_dev-print_int64_example :
    parse_dev (print_int64 (negsuc 41) ++ codes "]")
    ≡ some (negsuc 41, length (print_int64 (negsuc 41)))
parse_dev-print_int64_example = parse_dev-print_int64 (negsuc 41) (codes "]") (omega arith) refl

parse_dev_bounds_example : IsParsable (negsuc 119) × (4 ≤ length (codes "-120]"))
parse_dev_bounds_example = parse_dev_bounds (codes "-120]") (negsuc 119) 4 parse_dev_runs

parse_hex-print_hex₄_example : parse_hex (print_hex₄ 0x20ac) ≡ some (0x20ac, 4)
parse_hex-print_hex₄_example = parse_hex-print_hex₄ 0x20ac (omega arith)

decode-to_utf8_example : decode (to_utf8 0x20ac 3) ≡ some 0x20ac
decode-to_utf8_example = decode-to_utf8 0x20ac (omega arith)

mapper_b64_enc-encode_example : mapper_b64_enc latin ≡ encode latin
mapper_b64_enc-encode_example = mapper_b64_enc-encode latin (omega arith)

b64_dec-encode_example :
    (mapper_b64_dec (encode latin) ≡ some (latin, length (encode latin)))
    × (parse_b64 (encode latin) ≡ some (latin, length (encode latin)))
b64_dec-encode_example = b64_dec-encode latin (omega arith)

b64_dec-mapper_b64_enc_example :
    (mapper_b64_dec (mapper_b64_enc latin) ≡ some (latin, length (mapper_b64_enc latin)))
    × (parse_b64 (mapper_b64_enc latin) ≡ some (latin, length (mapper_b64_enc latin)))
b64_dec-mapper_b64_enc_example = b64_dec-mapper_b64_enc latin (omega arith)

mapper_b64_enc-ne-encode_example : mapper_b64_enc (b'a' ∷ 0xfc ∷ []) ≢ encode (b'a' ∷ 0xfc ∷ [])
mapper_b64_enc-ne-encode_example =
    mapper_b64_enc-ne-encode b'a' 0xfc [] (omega arith) (omega arith) (omega arith) (omega arith)

length-mapper_b64_enc_example : length (mapper_b64_enc latin) ≡ enc_size (length latin)
length-mapper_b64_enc_example = length-mapper_b64_enc latin

dec_loop_bounds_example :
    (cells_stored (dec_loop (codes "bGlnaHQ*") 0 0) ≤ dec_size (length (codes "bGlnaHQ*")))
    × ((dec_loop (codes "bGlnaHQ*") 0 0).index ≤ length (codes "bGlnaHQ*"))
dec_loop_bounds_example = dec_loop_bounds (codes "bGlnaHQ*")

buf_cmp-lexicographic_example :
    buf_cmp (codes "ab") (codes "abc") ≡ lexicographic (codes "ab") (codes "abc")
buf_cmp-lexicographic_example = buf_cmp-lexicographic (codes "ab") (codes "abc")
