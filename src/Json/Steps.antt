-- ===== src/Json/Steps.antt =====
-- One round of the parser's loop over one written scalar.
use nson.Prelude.{
  ℕ, suc, ◌+◌, ◌≡◌, ◌||◌, refl, ◌∙◌, true, false, some, List, [], ◌∷◌, ◌++◌, append_assoc, Bytes,
  codes, ◌==◌, drop, take_append, drop_append, length, length-append, get_or, arith,
}
use nson.Prelude.Int.{ℤ, pos, negsuc}
use nson.Json.Parser.{
  State, push_at, step_string, same_bytes, step_word, step_number, step_at, step, isspace,
}
use nson.Json.Plain.{IsPlainScalar, scalar_str, scalar_int, scalar_false, scalar_true}
use nson.Json.Text.Written.{escaped, IsWritable}
use nson.Json.Text.RoundTrip.{json_string-json_escape_string}
use nson.Json.Text.{json_escape_string}
use nson.Json.Writer.{json_write}
use nson.Util.Decimal.RoundTrip.{IsParsable, NoDigit, parse_dev-print_int64, digits_head}
use nson.Util.Decimal.{is_digit, print_int64, digits}
use nson.Util.Number.{Double, parse_number, after_int}
use nson.Value.{Nson, Items, arr_push}

-- Nothing that a number could go on with.
abbrev pub Stops : Bytes → Type 0
Stops [] = Unit
Stops (c ∷ cs) = (is_digit c ≡ false) × ((c == b'.') ≡ false)

abbrev pub at : Bytes → ℕ → Items → List Items → State
at rest i top below = record { rest = rest; index = i; top = top; below = below }

get_or-append : (xs : Bytes) (c : ℕ) (ys : Bytes) → get_or (xs ++ (c ∷ ys)) (length xs) 0 ≡ c
get_or-append [] c ys = refl
get_or-append (x ∷ xs) c ys = get_or-append xs c ys

drop_past : (xs : Bytes) (c : ℕ) (ys : Bytes) → drop (suc (length xs)) (xs ++ (c ∷ ys)) ≡ ys
drop_past [] c ys = refl
drop_past (x ∷ xs) c ys = drop_past xs c ys

same_bytes_refl : (xs : Bytes) → same_bytes xs xs ≡ true
unfolding same_bytes
same_bytes_refl [] = refl
same_bytes_refl (x ∷ xs) = ground (arith, same_bytes_refl xs)

-- A state is pushed past `n` bytes that are written out.
push_at_append :
    (w rest : Bytes) (i n : ℕ) (top : Items) (below : List Items) (v : Nson)
    → n ≡ length w
    → some (push_at (at (w ++ rest) i top below) n v)
      ≡ some (at rest (i + length w) (arr_push top v) below)
push_at_append w rest i n top below v e = rw (e, drop_append w rest)

step_word_lem :
    (w rest : Bytes) (i : ℕ) (top : Items) (below : List Items) (v : Nson)
    → step_word (at (w ++ rest) i top below) w v
      ≡ some (at rest (i + length w) (arr_push top v) below)
unfolding step_word
step_word_lem w rest i top below v =
    rw (take_append w rest, same_bytes_refl w)
      (ground (arith, push_at_append w rest i (length w) top below v refl))

step_string_lem :
    (s rest : Bytes) (i : ℕ) (top : Items) (below : List Items)
    → IsWritable s
    → step_string (at (json_escape_string s ++ rest) i top below) (escaped s ++ (b'"' ∷ rest))
      ≡ some (at rest (i + length (json_escape_string s)) (arr_push top (Nson.str s)) below)
unfolding step_string
step_string_lem s rest i top below w =
    let (whole, found, text) = json_string-json_escape_string s rest 0 w in
    rw
      (
        found,
        step_string,
        get_or-append (escaped s) b'"' rest,
        take_append (escaped s),
        drop_append (escaped s),
        text,
        whole,
      )
      (push_at_append (b'"' ∷ (escaped s ++ (b'"' ∷ []))) rest i (1 + length (escaped s) + 1) top
        below _ (omega (arith, length-append {0} (escaped s) (b'"' ∷ []))))

Stops-NoDigit : (rest : Bytes) → Stops rest → NoDigit rest
Stops-NoDigit [] h = tt
Stops-NoDigit (c ∷ cs) h = h.0

-- The bytes begin as a number does.
abbrev pub HasNumberHead : Bytes → Type 0
HasNumberHead l = (c : ℕ) × (cs : Bytes) × (l ≡ c ∷ cs) × ((c == b'-' || is_digit c) ≡ true)

pub print_int64_head : (z : ℤ) → HasNumberHead (print_int64 z)
unfolding print_int64
print_int64_head (negsuc n) = (b'-', digits (suc n) (suc n), refl, refl)
print_int64_head (pos n) =
    let (c, cs, e, digit) = digits_head n n (omega arith) in (c, cs, e, ground arith)

module _ (d : Double) where
  after_int-Stops :
      (z : ℤ) (n : ℕ) (rest : Bytes) → Stops rest → after_int d z n rest ≡ (Nson.int z, n)
  unfolding after_int
  after_int-Stops z n [] h = refl
  after_int-Stops z n (c ∷ cs) h = rw h.1

  -- The reader of numbers takes the print of an integer for that integer.
  pub parse_number-print_int64 :
      (z : ℤ) (rest : Bytes)
      → IsParsable z
      → Stops rest
      → parse_number d (print_int64 z ++ rest) ≡ some (Nson.int z, length (print_int64 z))
  unfolding parse_number
  parse_number-print_int64 z rest fits stops = rw (
    parse_dev-print_int64 z rest fits (Stops-NoDigit rest stops),
    parse_number,
    drop_append (print_int64 z) rest,
    after_int-Stops z (length (print_int64 z)) rest stops,
  )

  step_number_lem :
      (z : ℤ) (rest : Bytes) (i : ℕ) (top : Items) (below : List Items)
      → IsParsable z
      → Stops rest
      → step_number d (at (print_int64 z ++ rest) i top below)
        ≡ some (at rest (i + length (print_int64 z)) (arr_push top (Nson.int z)) below)
  unfolding step_number
  step_number_lem z rest i top below fits stops =
      rw (parse_number-print_int64 z rest fits stops, step_number)
        (push_at_append (print_int64 z) rest i (length (print_int64 z)) top below _ refl)

  -- A round at a byte that begins a number.
  step_at_number :
      (s : State) (c : ℕ) (cs : Bytes)
      → (c == b'-' || is_digit c) ≡ true
      → step_at d s c cs ≡ step_number d s
  unfolding step_at isspace
  step_at_number s c cs h = ground arith

  step_number_head :
      (w rest : Bytes) (i : ℕ) (top : Items) (below : List Items)
      → HasNumberHead w
      → step d (at (w ++ rest) i top below) ≡ step_number d (at (w ++ rest) i top below)
  unfolding step
  step_number_head w rest i top below (c, cs, e, head) = rw e (step_at_number _ c (cs ++ rest) head)

  step_int :
      (z : ℤ) (rest : Bytes) (i : ℕ) (top : Items) (below : List Items)
      → IsParsable z
      → Stops rest
      → step d (at (print_int64 z ++ rest) i top below)
        ≡ some (at rest (i + length (print_int64 z)) (arr_push top (Nson.int z)) below)
  step_int z rest i top below fits stops =
      step_number_head (print_int64 z) rest i top below (print_int64_head z)
      ∙ step_number_lem z rest i top below fits stops

  -- One round takes a written string, number or truth value off the document and pushes it.
  pub step_scalar :
      (v : Nson) (rest : Bytes) (i : ℕ) (top : Items) (below : List Items)
      → IsPlainScalar v
      → Stops rest
      → step d (at (json_write d v ++ rest) i top below)
        ≡ some (at rest (i + length (json_write d v)) (arr_push top v) below)
  unfolding json_write
  step_scalar v rest i top below (scalar_str {s} w) stops =
      let whole = (json_string-json_escape_string s rest 0 w).0 in
      rw (whole, append_assoc)
        (unfold step step_at isspace in
          rw (whole, append_assoc) at (step_string_lem s rest i top below w))
  step_scalar v rest i top below (scalar_int {z} fits) stops =
      step_int z rest i top below fits stops
  step_scalar v rest i top below scalar_false stops =
      unfold step step_at isspace in
      step_word_lem (codes "false") rest i top below (Nson.bool (pos 0))
  step_scalar v rest i top below scalar_true stops =
      unfold step step_at isspace in
      step_word_lem (codes "true") rest i top below (Nson.bool (pos 1))
