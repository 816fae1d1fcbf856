-- ===== src/Util/Hex/RoundTrip.antt =====
-- Four printed hexadecimal digits are read back.
use nson.Prelude.{
  ℕ, ◌+◌, ◌*◌, ◌/◌, ◌%◌, ◌^◌, ◌<◌, ◌≡◌, ap, ◌∙◌, some, [], ◌∷◌, Bytes, arith, ◌==◌, false,
}
use nson.Util.Hex.{hex_value, parse_hex_loop, parse_hex, hex_digit, print_hex₄}

hex_value-hex_digit : (d : ℕ) → d < 16 → hex_value (hex_digit d) ≡ some d
unfolding hex_value hex_digit
hex_value-hex_digit d h = ground arith

parse_hex_loop_digit :
    (d val i : ℕ) (cs : Bytes)
    → d < 16
    → val < 2 ^ 16
    → parse_hex_loop (hex_digit d ∷ cs) val i ≡ parse_hex_loop cs (val * 16 + d) (i + 1)
unfolding parse_hex_loop
parse_hex_loop_digit d val i cs h fits = rw (hex_value-hex_digit d h, parse_hex_loop) (ground arith)

-- `__nson_parse_hex` reads the four digits that `%04x` writes of a number below 2^16.
pub parse_hex-print_hex₄ : (n : ℕ) → n < 2 ^ 16 → parse_hex (print_hex₄ n) ≡ some (n, 4)
unfolding parse_hex print_hex₄
parse_hex-print_hex₄ n h =
    parse_hex_loop_digit (n / 4096 % 16) 0 0 _ (omega arith) (omega arith)
    ∙ parse_hex_loop_digit (n / 256 % 16) _ 1 _ (omega arith) (omega arith)
    ∙ parse_hex_loop_digit (n / 16 % 16) _ 2 _ (omega arith) (omega arith)
    ∙ parse_hex_loop_digit (n % 16) _ 3 [] (omega arith) (omega arith)
    ∙ unfold parse_hex_loop in ap (λ v. some (v, 4)) (omega arith)

-- A hexadecimal digit is neither a quote nor a backslash.
pub hex_digit_plain :
    (d : ℕ) → d < 16 → ((hex_digit d == b'"') ≡ false) × ((hex_digit d == b'\\') ≡ false)
unfolding hex_digit
hex_digit_plain d h = ground arith
