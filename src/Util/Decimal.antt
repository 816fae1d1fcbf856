-- ===== src/Util/Decimal.antt =====
-- `__nson_parse_dev` of src/util.c, and the decimal print that `printf` makes of an `int64_t`.
pub mod RoundTrip
pub mod Bounds
use nson.Prelude.{
  ℕ, zero, suc, ◌+◌, ◌-◌, ◌*◌, ◌/◌, ◌%◌, ◌^◌, Bool, ◌&&◌, ◌||◌, Option, none, some, [], ◌∷◌, ◌++◌,
  leb, ltb, ◌==◌, if◌then◌else◌, Bytes,
}
use nson.Prelude.Int.{ℤ, pos, negsuc, neg_ℕ}

-- INT64_MAX
abbrev pub max_int64 : ℕ
max_int64 = 2 ^ 63 - 1

abbrev pub is_digit : ℕ → Bool
is_digit c = leb b'0' c && leb c b'9'

-- The loop of `__nson_parse_dev`. `val` is never negative there, so a product or a sum overflows
-- when it exceeds INT64_MAX. `none` is the return of -1.
unfoldable pub parse_dev_loop : Bytes → ℕ → ℕ → Option (ℕ × ℕ)
parse_dev_loop [] val i = some (val, i)
parse_dev_loop (c ∷ cs) val i =
    let more = parse_dev_loop cs (val * 10 + (c - b'0')) (i + 1) in
    if is_digit c
    then (if ltb max_int64 (val * 10)
        then none
        else if ltb max_int64 (val * 10 + (c - b'0'))
        then none
        else more)
    else some (val, i)

-- `val * sign` overflows for no `val` that the loop leaves.
abbrev pub signed : Bool → Option (ℕ × ℕ) → Option (ℤ × ℕ)
signed minus none = none
signed minus (some (val, i)) = some (if minus then neg_ℕ val else pos val, i)

-- The value stored in `*dest`, with the number of bytes read.
unfoldable pub parse_dev : Bytes → Option (ℤ × ℕ)
parse_dev [] = none
parse_dev (c ∷ cs) =
    signed (c == b'-')
      (if c == b'-' || c == b'+' then parse_dev_loop cs 0 1 else parse_dev_loop (c ∷ cs) 0 0)

-- The decimal digits of `n`, for fuel of at least `n`.
unfoldable pub digits : ℕ → ℕ → Bytes
digits zero n = (b'0' + n) ∷ []
digits (suc f) n =
    let more = digits f (n / 10) ++ ((b'0' + n % 10) ∷ []) in
    if ltb n 10 then (b'0' + n) ∷ [] else more

-- `printf("%" PRId64)`
unfoldable pub print_int64 : ℤ → Bytes
print_int64 (pos n) = digits n n
print_int64 (negsuc n) = b'-' ∷ digits (suc n) (suc n)
