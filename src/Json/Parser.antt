-- ===== src/Json/Parser.antt =====
-- `nson_parse_json` of src/json.c. A document is the list of its bytes, and `&doc[i]` the bytes
-- from there. Sizes are below 2^31, so `int i` does not overflow, and allocations succeed.
use nson.Prelude.{
  ℕ, zero, suc, ◌+◌, ◌%◌, Bool, true, false, not, ◌&&◌, ◌||◌, Option, none, some, List, [], ◌∷◌,
  Bytes, codes, leb, ltb, ◌==◌, if◌then◌else◌, take, drop, length, get_or,
}
use nson.Prelude.Int.{pos}
use nson.Json.Text.{json_str_len, parse_json_string}
use nson.Util.Decimal.{is_digit}
use nson.Util.Number.{Double, parse_number}
use nson.Value.{Nson, Items, no_items, arr_len, arr_get, arr_push, obj_entries}

-- `isspace` in the C locale, and the blanks of the `switch`.
unfoldable pub isspace : ℕ → Bool
isspace c = c == b' ' || (leb 9 c && leb c 13)

-- The variables of the loop: the bytes from `doc[i]`, `i`, the array that `stack_top` points to,
-- and the arrays below it in `stack`, the nearest first.
pub record State : Type 0 where
  pub rest : Bytes
  pub index : ℕ
  pub top : Items
  pub below : List Items

-- `i += n`
abbrev pub advance : State → ℕ → State
advance s n = record s { rest = drop n s.rest; index = s.index + n }

abbrev pub push_at : State → ℕ → Nson → State
push_at s n v = record (advance s n) { top = arr_push s.top v }

-- `[` and `{`
abbrev pub open_array : State → State
open_array s = record (advance s 1) { top = no_items; below = s.top ∷ s.below }

-- What follows `nson_arr_pop`: the value popped is pushed on the array below, if there is one.
unfoldable pub close_with : State → Nson → Option State
close_with s v = elim s.below [
  | [] ↦ none
  | t ∷ ts ↦ some (record (advance s 1) { top = arr_push t v; below = ts })
]

-- `"`: `cs` is the document behind the quote.
unfoldable pub step_string : State → Bytes → Option State
step_string s cs = elim (json_str_len cs 0 b'"' 0) [
  | none ↦ none
  | some n ↦
      if get_or cs n 0 == b'"'
      then some (push_at s (1 + n + 1) (Nson.str (parse_json_string (take n cs) (drop n cs) 0)))
      else none
]

unfoldable pub same_bytes : Bytes → Bytes → Bool
same_bytes [] [] = true
same_bytes (x ∷ xs) (y ∷ ys) = x == y && same_bytes xs ys
same_bytes _ _ = false

-- `null`, `true` and `false`: the word is compared when more than its bytes are left.
unfoldable pub step_word : State → Bytes → Nson → Option State
step_word s word v =
    let n = length word in
    if ltb n (length s.rest) && not (same_bytes (take n s.rest) word)
    then none
    else some (push_at s n v)

abbrev pub is_empty {ℓ} : {A : Type ℓ} → List A → Bool
is_empty [] = true
is_empty (x ∷ xs) = false

-- `nson_arr_len(&stack) > 1 && i < len`
abbrev pub again : State → Bool
again s = not (is_empty s.below) && not (is_empty s.rest)

-- How the loop ends; `ran_out` is the end of the fuel, which the C code has not.
pub data Outcome : Type 0 where
  finished : State → Outcome
  failed ran_out : Outcome

-- The value stored with `rv`; a failure returns -1 and leaves a nil.
pub data Parsed : Type 0 where
  parsed : Nson → ℕ → Parsed
  rejected stuck : Parsed

abbrev pub of_option : Option Nson → ℕ → Parsed
of_option none i = rejected
of_option (some v) i = parsed v i

unfoldable pub conclude : Outcome → Parsed
conclude ran_out = stuck
conclude failed = rejected
conclude (finished s) =
    if is_empty s.below && arr_len s.top == 1 then of_option (arr_get s.top 0) s.index else rejected

-- The loop over the leading blanks.
unfoldable pub skip_blanks : Bytes → ℕ → State
skip_blanks [] i = record { rest = []; index = i; top = no_items; below = [] }
skip_blanks (c ∷ cs) i =
    let more = skip_blanks cs (i + 1) in
    if isspace c then more else record { rest = c ∷ cs; index = i; top = no_items; below = [] }

module _ (d : Double) where
  unfoldable pub step_number : State → Option State
  step_number s = elim (parse_number d s.rest) [ none ↦ none | some (v, n) ↦ some (push_at s n v) ]

  -- The `switch` on `doc[i]`, which is `c`. `none` is a jump to `out`, with -1 in `rv`.
  unfoldable pub step_at : State → ℕ → Bytes → Option State
  step_at s c cs =
      if c == b'[' || c == b'{'
      then some (open_array s)
      else if c == b',' || c == b':'
      then some (advance s 1)
      else if c == b'}'
      then (if arr_len s.top % 2 == 0
          then close_with s (Nson.obj true (obj_entries s.top))
          else none)
      else if c == b']'
      then close_with s (Nson.arr s.top)
      else if c == b'"'
      then step_string s cs
      else if isspace c
      then some (advance s 1)
      else if c == b'-' || is_digit c
      then step_number s
      else if c == b'n'
      then step_word s (codes "null") (Nson.str [])
      else if c == b't'
      then step_word s (codes "true") (Nson.bool (pos 1))
      else if c == b'f'
      then step_word s (codes "false") (Nson.bool (pos 0))
      else none

  unfoldable pub step : State → Option State
  step s = elim s.rest [ [] ↦ none | c ∷ cs ↦ step_at s c cs ]

  unfoldable pub loop : ℕ → State → Outcome
  loop zero s = ran_out
  loop (suc fuel) s = elim (step s) [
    | none ↦ failed
    | some t ↦ elim (again t) [ true ↦ loop fuel t | false ↦ finished t ]
  ]

  unfoldable pub parse_json : Bytes → Parsed
  parse_json doc =
      let s = skip_blanks doc 0 in
      if is_empty s.rest then rejected else conclude (loop (suc (length doc)) s)
