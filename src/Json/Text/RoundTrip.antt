-- ===== src/Json/Text/RoundTrip.antt =====
-- A string that the writer copies and escapes in full is read back.
use nson.Prelude.{
  ℕ, ◌+◌, ◌/◌, ◌%◌, ◌<◌, ◌≡◌, refl, ap, ◌∙◌, Bool, true, false, none, some, inl, inr, Bytes, [],
  ◌∷◌, ◌++◌, append_assoc, ◌==◌, take, length, arith, Bool-cases,
}
use nson.Util.Hex.{print_hex₄, hex_digit}
use nson.Util.Hex.RoundTrip.{parse_hex-print_hex₄, hex_digit_plain}
use nson.Util.Utf8.{to_utf8}
use nson.Json.Text.Written.{escaped, WritableFrom, IsWritable, escape_loop-escaped}
use nson.Json.Text.{
  json_str_len, wrote, unescaped, escape_at, parse_json_string, escape_letter, iscntrl, escape_byte,
  json_escape_string,
}

-- How a byte is written.
data Kind (c : ℕ) : Type 0 where
  copied : escape_byte c ≡ none → (c == b'"') ≡ false → Kind c
  letter :
      (e : ℕ)
      → escape_byte c ≡ some (b'\\' ∷ e ∷ [])
      → unescaped e ≡ c
      → (e == b'u') ≡ false
      → (e == b'\\') ≡ false
      → Kind c
  control : escape_byte c ≡ some (b'\\' ∷ b'u' ∷ print_hex₄ c) → c < 128 → Kind c

kind : (c : ℕ) → Kind c
unfolding escape_byte
kind c = elim (Bool-cases (escape_letter c == 0)) [
  | inr letters ↦
      letter (escape_letter c) (rw letters) (unfold escape_letter unescaped in ground arith)
        (unfold escape_letter in ground arith) (unfold escape_letter in ground arith)
  | inl none_of_them ↦ elim (Bool-cases (iscntrl c)) [
    | inl control_byte ↦ control (rw (none_of_them, control_byte)) (unfold iscntrl in ground arith)
    | inr plain ↦ copied (rw (none_of_them, plain)) (unfold escape_letter in ground arith)
  ]
]

json_str_len_plain :
    (c before last k : ℕ) (t : Bytes)
    → (c == b'"') ≡ false
    → json_str_len (c ∷ t) before last k ≡ json_str_len t last c (k + 1)
unfolding json_str_len
json_str_len_plain c before last k t h = rw h

json_str_len_escape :
    (e before last k : ℕ) (t : Bytes)
    → (last == b'\\') ≡ false
    → json_str_len (b'\\' ∷ e ∷ t) before last k ≡ json_str_len t b'\\' e (k + 1 + 1)
unfolding json_str_len
json_str_len_escape e before last k t h = ground arith

json_str_len_hex :
    (n before last k : ℕ) (t : Bytes)
    → (last == b'\\') ≡ false
    → json_str_len (b'\\' ∷ b'u' ∷ (print_hex₄ n ++ t)) before last k
      ≡ json_str_len t (hex_digit (n / 16 % 16)) (hex_digit (n % 16)) (k + 1 + 1 + 1 + 1 + 1 + 1)
unfolding print_hex₄
json_str_len_hex n before last k t h =
    json_str_len_escape b'u' before last k _ h
    ∙ json_str_len_plain (hex_digit (n / 4096 % 16)) _ _ _ _ (hex_digit_plain _ (omega arith)).0
    ∙ json_str_len_plain (hex_digit (n / 256 % 16)) _ _ _ _ (hex_digit_plain _ (omega arith)).0
    ∙ json_str_len_plain (hex_digit (n / 16 % 16)) _ _ _ _ (hex_digit_plain _ (omega arith)).0
    ∙ json_str_len_plain (hex_digit (n % 16)) _ _ _ _ (hex_digit_plain _ (omega arith)).0

length-print_hex₄ : (n : ℕ) (s : Bytes) → length (print_hex₄ n ++ s) ≡ 4 + length s
unfolding print_hex₄
length-print_hex₄ n s = omega arith

-- The reader finds the closing quote of a string that was written.
pub json_str_len-escaped :
    (s : Bytes) (b : Bool) (before last k : ℕ) (rest : Bytes)
    → WritableFrom b s
    → (last == b'\\') ≡ false
    → json_str_len (escaped s ++ (b'"' ∷ rest)) before last k ≡ some (k + length (escaped s))
unfolding escaped
json_str_len-escaped [] b before last k rest w h = unfold json_str_len in ground arith
json_str_len-escaped (c ∷ cs) b before last k rest w h = elim (kind c) [
  | copied e quote ↦
      let w' = rw e at w in
      rw e (
        json_str_len_plain c before last k _ quote
        ∙ json_str_len-escaped cs true last c (k + 1) rest w'.2 w'.1
        ∙ ap some (omega arith))
  | letter d e same u slash ↦
      let w' = rw e at w in
      rw e (
        json_str_len_escape d before last k _ h
        ∙ json_str_len-escaped cs false b'\\' d (k + 1 + 1) rest w'.2.1 slash
        ∙ ap some (omega arith))
  | control e small ↦
      let w' = rw e at w in
      rw (e, append_assoc)
        (json_str_len_hex c before last k _ h
          ∙ json_str_len-escaped cs false (hex_digit (c / 16 % 16)) (hex_digit (c % 16))
              (k + 1 + 1 + 1 + 1 + 1 + 1) rest w'.2.1 (hex_digit_plain _ (omega arith)).1
          ∙ ap some (omega (arith, length-print_hex₄ c (escaped cs))))
]

parse_json_string_copied :
    (c : ℕ) (t after : Bytes)
    → (c == b'\\') ≡ false
    → parse_json_string (c ∷ t) after 0 ≡ c ∷ parse_json_string t after 0
unfolding parse_json_string
parse_json_string_copied c t after h = rw h

parse_json_string_letter :
    (c d : ℕ) (t after : Bytes)
    → unescaped d ≡ c
    → (d == b'u') ≡ false
    → parse_json_string (b'\\' ∷ d ∷ t) after 0 ≡ c ∷ parse_json_string t after 0
unfolding parse_json_string escape_at
parse_json_string_letter c d t after same u = rw (u, same)

take-print_hex₄ : (n : ℕ) (t : Bytes) → take 4 (print_hex₄ n ++ t) ≡ print_hex₄ n
unfolding print_hex₄
take-print_hex₄ n t = refl

escape_at_hex :
    (c : ℕ) (t after : Bytes)
    → c < 128
    → escape_at (b'u' ∷ (print_hex₄ c ++ t)) after ≡ wrote (c ∷ []) 5
unfolding escape_at
escape_at_hex c t after h =
    rw (append_assoc, take-print_hex₄ c (t ++ after), parse_hex-print_hex₄ c (omega arith))
      (unfold to_utf8 in ground arith)

parse_json_string_hex :
    (c : ℕ) (t after : Bytes)
    → c < 128
    → parse_json_string (b'\\' ∷ b'u' ∷ (print_hex₄ c ++ t)) after 0
      ≡ c ∷ parse_json_string t after 0
unfolding parse_json_string
parse_json_string_hex c t after h = rw (escape_at_hex c t after h) (unfold print_hex₄ in refl)

-- The reader undoes the escapes.
pub parse_json_string-escaped :
    (s : Bytes) (b : Bool) (after : Bytes)
    → WritableFrom b s
    → parse_json_string (escaped s) after 0 ≡ s
unfolding escaped
parse_json_string-escaped [] b after w = unfold parse_json_string in refl
parse_json_string-escaped (c ∷ cs) b after w = elim (kind c) [
  | copied e quote ↦
      let w' = rw e at w in
      rw e (
        parse_json_string_copied c _ after w'.1
        ∙ ap (λ t. c ∷ t) (parse_json_string-escaped cs true after w'.2))
  | letter d e same u slash ↦
      let w' = rw e at w in
      rw e (
        parse_json_string_letter c d _ after same u
        ∙ ap (λ t. c ∷ t) (parse_json_string-escaped cs false after w'.2.1))
  | control e small ↦
      let w' = rw e at w in
      rw e (
        parse_json_string_hex c _ after small
        ∙ ap (λ t. c ∷ t) (parse_json_string-escaped cs false after w'.2.1))
]

-- A string of bytes with no backslash, in which a copied byte stands before each escaped one, is
-- written in full between quotes; of that the reader finds the closing quote, whatever follows it,
-- and takes the text between the quotes for the string itself.
pub json_string-json_escape_string :
    (s rest : Bytes) (before : ℕ)
    → IsWritable s
    → (json_escape_string s ≡ b'"' ∷ (escaped s ++ (b'"' ∷ [])))
      × (json_str_len (escaped s ++ (b'"' ∷ rest)) before b'"' 0 ≡ some (length (escaped s)))
      × (parse_json_string (escaped s) (b'"' ∷ rest) 0 ≡ s)
unfolding json_escape_string
json_string-json_escape_string s rest before w = (
  ap (λ t. b'"' ∷ t) (escape_loop-escaped s false [] w tt),
  json_str_len-escaped s false before b'"' 0 rest w refl ∙ ap some (omega arith),
  parse_json_string-escaped s false (b'"' ∷ rest) w,
)
