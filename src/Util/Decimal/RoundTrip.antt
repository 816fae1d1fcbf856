-- ===== src/Util/Decimal/RoundTrip.antt =====
-- What `printf` writes of an integer, `__nson_parse_dev` reads back.
use nson.Prelude.{
  ℕ, zero, suc, ◌+◌, ◌-◌, ◌*◌, ◌/◌, ◌%◌, ◌≤◌, ◌<◌, ◌≡◌, refl, ◌∙◌, ap, true, false, some, [], ◌∷◌,
  ◌++◌, append_assoc, inl, inr, arith, ltb, Bool-cases, Bytes, length, length-append, ltb→lt,
}
use nson.Prelude.Int.{ℤ, pos, negsuc}
use nson.Util.Decimal.{max_int64, is_digit, parse_dev_loop, signed, parse_dev, digits, print_int64}

-- What follows a number: the end, or a byte that is no digit.
abbrev pub NoDigit : Bytes → Type 0
NoDigit [] = Unit
NoDigit (c ∷ cs) = is_digit c ≡ false

-- The integers that `__nson_parse_dev` can produce: those of `int64_t` but INT64_MIN.
abbrev pub IsParsable : ℤ → Type 0
IsParsable (pos n) = n ≤ max_int64
IsParsable (negsuc n) = suc n ≤ max_int64

parse_dev_loop_digit :
    (n i : ℕ) (rest : Bytes)
    → n ≤ max_int64
    → parse_dev_loop ((b'0' + n % 10) ∷ rest) (n / 10) i ≡ parse_dev_loop rest n (i + 1)
unfolding parse_dev_loop
parse_dev_loop_digit n i rest h = ground (arith, ap (λ v. parse_dev_loop rest v (i + 1)) whole)
  where
    whole : n / 10 * 10 + (b'0' + n % 10 - b'0') ≡ n
    whole = omega arith

parse_dev_loop_nil :
    (rest : Bytes) (val i : ℕ) → NoDigit rest → parse_dev_loop rest val i ≡ some (val, i)
unfolding parse_dev_loop
parse_dev_loop_nil [] val i h = refl
parse_dev_loop_nil (c ∷ cs) val i h = rw h

parse_dev_loop_one :
    (n i : ℕ) (rest : Bytes)
    → n < 10
    → parse_dev_loop ((b'0' + n) ∷ rest) 0 i ≡ parse_dev_loop rest n (i + 1)
unfolding parse_dev_loop
parse_dev_loop_one n i rest h = ground (arith, ap (λ v. parse_dev_loop rest v (i + 1)) whole)
  where
    whole : 0 * 10 + (b'0' + n - b'0') ≡ n
    whole = omega arith

-- The digits of `n` in front of any bytes bring the loop to the value `n`.
pub parse_dev_loop-digits :
    (f n i : ℕ) (rest : Bytes)
    → n ≤ f
    → n ≤ max_int64
    → parse_dev_loop (digits f n ++ rest) 0 i ≡ parse_dev_loop rest n (i + length (digits f n))
unfolding digits
parse_dev_loop-digits zero n i rest h fits = parse_dev_loop_one n i rest (omega arith)
parse_dev_loop-digits (suc f) n i rest h fits = elim (Bool-cases (ltb n 10)) [
  | inl small ↦ rw small (parse_dev_loop_one n i rest (ltb→lt n 10 small))
  | inr large ↦
      rw (large, append_assoc)
        (parse_dev_loop-digits f (n / 10) i _ (ground arith) (omega arith)
          ∙ parse_dev_loop_digit n _ rest fits
          ∙ ap (parse_dev_loop rest n) (omega (arith, length-append {0} (digits f (n / 10)))))
]

-- The bytes begin with a digit, so `parse_dev` sees no sign.
abbrev pub HasDigitHead : Bytes → Type 0
HasDigitHead l = (c : ℕ) × (cs : Bytes) × (l ≡ c ∷ cs) × (is_digit c ≡ true)

-- Every digit string begins with a digit, so with no sign.
pub digits_head : (f n : ℕ) → n ≤ f → HasDigitHead (digits f n)
unfolding digits
digits_head zero n h = (b'0' + n, [], refl, ground arith)
digits_head (suc f) n h = elim (Bool-cases (ltb n 10)) [
  | inl small ↦ (b'0' + n, [], rw small, ground arith)
  | inr large ↦
      let (c, cs, e, d) = digits_head f (n / 10) (ground arith) in
      (c, cs ++ ((b'0' + n % 10) ∷ []), rw (large, e), d)
]

parse_dev_unsigned :
    (l rest : Bytes)
    → HasDigitHead l
    → parse_dev (l ++ rest) ≡ signed false (parse_dev_loop (l ++ rest) 0 0)
unfolding parse_dev
parse_dev_unsigned l rest (c, cs, e, d) = rw e (ground arith)

-- `__nson_parse_dev` reads back the print of every `int64_t` but INT64_MIN, with no digit behind
-- it, and returns the length of that print.
pub parse_dev-print_int64 :
    (z : ℤ) (rest : Bytes)
    → IsParsable z
    → NoDigit rest
    → parse_dev (print_int64 z ++ rest) ≡ some (z, length (print_int64 z))
unfolding print_int64
parse_dev-print_int64 (pos n) rest fits end =
    parse_dev_unsigned (digits n n) rest (digits_head n n (omega arith))
    ∙ ap (signed false) (
        parse_dev_loop-digits n n 0 rest (omega arith) fits
        ∙ parse_dev_loop_nil rest n _ end
        ∙ ap (λ k. some (n, k)) (omega arith))
parse_dev-print_int64 (negsuc n) rest fits end =
    unfold parse_dev in
    ap (signed true) (
      parse_dev_loop-digits (suc n) (suc n) 1 rest (omega arith) fits
      ∙ parse_dev_loop_nil rest (suc n) _ end
      ∙ ap (λ k. some (suc n, k)) (omega arith))
