-- ===== src/Plist/Parser.antt =====
-- `nson_parse_plist` of src/plist.c. `goto err` returns `rv` as it stands, and the static
-- `string_tag` outlives the call. Sizes are below 2^31, and allocations succeed.
use nson.Base64.{parse_b64}
use nson.Json.Parser.{isspace, is_empty}
use nson.Plist.Text.{skip_tag, measure_string_len, parse_string}
use nson.Prelude.{
  ℕ, zero, suc, ◌+◌, ◌%◌, Bool, true, false, not, ◌&&◌, Option, none, some, List, [], ◌∷◌, Bytes,
  codes, ◌==◌, ◌>>=◌, if◌then◌else◌, take, drop, length,
}
use nson.Prelude.Int.{ℤ, pos, negsuc}
use nson.Util.Decimal.{parse_dev}
use nson.Util.Number.{Double, parse_number}
use nson.Value.{Nson, Items, no_items, arr_len, arr_get, arr_push, obj_entries}

-- The variables of the loop: the bytes from `doc[i]`, `i`, the array that `stack_top` points to, the
-- arrays below it in `stack`, the nearest first, `rv`, and `string_tag`.
pub record Cursor : Type 0 where
  pub rest : Bytes
  pub index : ℕ
  pub top : Items
  pub below : List Items
  pub rv : ℤ
  pub string_tag : Bytes

-- `i += n`
abbrev pub pass : Cursor → ℕ → Cursor
pass s n = record s { rest = drop n s.rest; index = s.index + n }

abbrev pub push : Cursor → Nson → Cursor
push s v = record s { top = arr_push s.top v }

-- `SKIP_SPACES`
unfoldable pub space_run : Bytes → ℕ
space_run [] = 0
space_run (c ∷ cs) = let more = suc (space_run cs) in if isspace c then more else 0

abbrev pub skip_spaces : Cursor → Cursor
skip_spaces s = pass s (space_run s.rest)

-- How a round ends: with the next one, with `goto err`, or without a defined meaning.
pub data Round : Type 0 where
  goes_on : Cursor → Round
  jumps : Cursor → Round
  overruns : Round

-- `if ((rv = skip_tag(...)) <= 0) break; i += rv;` with what follows.
abbrev pub when_tag : Cursor → Bytes → (Cursor → Round) → Round
when_tag s tag follows = elim (skip_tag tag s.rest) [
  | pos n ↦
      if n == 0
      then goes_on (record s { rv = pos 0 })
      else follows (record (pass s n) { rv = pos n })
  | negsuc n ↦ goes_on (record s { rv = negsuc n })
]

-- `rv = skip_tag(...); i += rv;` behind a text whose end tag `measure_string_len` has found.
unfoldable pub pass_end : Cursor → Bytes → Cursor
pass_end s tag = elim (skip_tag tag s.rest) [
  | pos n ↦ record (pass s n) { rv = pos n }
  | negsuc n ↦ record s { rv = negsuc n }
]

-- `array` and `dict`
abbrev pub open_level : Cursor → Cursor
open_level s = record s { top = no_items; below = s.top ∷ s.below }

-- `nson_arr_pop` and `nson_arr_push` at the end tag of an array or a dictionary.
unfoldable pub close_level : Cursor → Nson → Round
close_level s v = elim s.below [
  | [] ↦ jumps s
  | t ∷ ts ↦ goes_on (record s { top = arr_push t v; below = ts })
]

unfoldable pub step_data : Cursor → Round
step_data s = elim (measure_string_len (codes "data") s.rest 0) [
  | none ↦ jumps (record s { rv = negsuc 0 })
  | some str_len ↦ elim (parse_b64 (take str_len s.rest)) [
    | none ↦ jumps (record s { rv = negsuc 0 })
    | some (b, n) ↦ goes_on (pass_end (pass (push s (Nson.blob b)) (str_len + 2)) (codes "data"))
  ]
]

-- `string` and `key`. Where `parse_string` runs out of the text, it reads and writes outside of both
-- buffers.
unfoldable pub step_text : Cursor → Round
step_text s = elim (measure_string_len s.string_tag s.rest 0) [
  | none ↦ jumps (record s { rv = negsuc 0 })
  | some str_len ↦ elim (parse_string (take str_len s.rest) 0) [
    | none ↦ overruns
    | some text ↦
        goes_on (record (pass_end (pass (push s (Nson.str text)) (str_len + 2)) s.string_tag) {
          string_tag = codes "string";
        })
  ]
]

unfoldable pub step_integer : Cursor → Round
step_integer s = elim (parse_dev s.rest) [
  | none ↦ jumps (record s { rv = negsuc 0 })
  | some (z, n) ↦
      when_tag (push (pass (record s { rv = pos n }) n) (Nson.int z)) (codes "</integer") goes_on
]

-- The tags behind `</`. A `dict` whose name is misspelt is turned into an object all the same, but
-- the parser fails at that place in any case.
unfoldable pub step_end : Cursor → ℕ → Round
step_end s c =
    if c == b'a'
    then when_tag s (codes "array") (λ t. close_level t (Nson.arr t.top))
    else if c == b'd'
    then (if arr_len s.top % 2 == 0
        then when_tag s (codes "dict") (λ t. close_level t (Nson.obj true (obj_entries t.top)))
        else jumps s)
    else goes_on s

-- `dict` or `data`
unfoldable pub step_dict : Cursor → Round
step_dict s =
    let blob = when_tag s (codes "data") step_data in
    elim (skip_tag (codes "dict") s.rest) [
      | pos n ↦ if n == 0 then blob else goes_on (open_level (record (pass s n) { rv = pos n }))
      | negsuc n ↦ blob
    ]

unfoldable pub step_slash : Cursor → Round
step_slash s = elim (drop 1 s.rest) [ [] ↦ jumps (pass s 1) | e ∷ es ↦ step_end (pass s 1) e ]

-- `nson_arr_len(&stack) > 1 && i < len`
abbrev pub goes_round : Cursor → Bool
goes_round s = not (is_empty s.below) && not (is_empty s.rest)

-- How the loop ends: behind it, at `err` or without a defined meaning; `spent` is the end of the
-- fuel, which the C code has not.
pub data Exit : Type 0 where
  behind : Cursor → Exit
  at_err : Cursor → Exit
  overrun spent : Exit

-- What is left in `nson`, the value returned, and `string_tag`. A call is `untouched` that returns -1
-- for a header, in front of the `memset`: `nson` is as it was.
pub data PlistParsed : Type 0 where
  ended : Nson → ℤ → Bytes → PlistParsed
  untouched : Bytes → PlistParsed
  undefined unending : PlistParsed

abbrev pub gives_up : Cursor → ℤ → PlistParsed
gives_up s rv = ended Nson.nil rv s.string_tag

-- What follows the loop, up to `rv = i`.
unfoldable pub plist_close : Cursor → PlistParsed
plist_close s =
    let t = skip_spaces s in
    if not (is_empty s.below)
    then gives_up s (negsuc 0)
    else elim (skip_tag (codes "</plist") t.rest) [
      | negsuc n ↦ gives_up t (negsuc n)
      | pos n ↦ if n == 0 then gives_up t (pos 0) else elim (arr_get t.top 0) [
        | none ↦ gives_up t (negsuc 0)
        | some v ↦ ended v (pos (t.index + n)) t.string_tag
      ]
    ]

unfoldable pub plist_exit : Exit → PlistParsed
plist_exit spent = unending
plist_exit overrun = undefined
plist_exit (at_err s) = gives_up s s.rv
plist_exit (behind s) = plist_close s

-- The headers in front; `none` is the return of -1.
unfoldable pub plist_header : Cursor → Bytes → Option Cursor
plist_header s tag = elim (skip_tag tag s.rest) [
  | pos n ↦ if n == 0 then none else some (record (pass s n) { rv = pos n })
  | negsuc n ↦ none
]

unfoldable pub plist_headers : Cursor → Option Cursor
plist_headers s = do
  t ← plist_header s (codes "<?xml")
  u ← plist_header (skip_spaces t) (codes "<!DOCTYPE")
  plist_header (skip_spaces u) (codes "<plist")

module _ (d : Double) where
  -- An integer becomes a `double`.
  abbrev pub as_real : Nson → Nson
  as_real (Nson.int z) = Nson.real (d.of_int z)
  as_real v = v

  unfoldable pub step_real : Cursor → Round
  step_real s = elim (parse_number d s.rest) [
    | none ↦ goes_on (record s { rv = negsuc 0 })
    | some (v, n) ↦
        when_tag (push (pass (record s { rv = pos n }) n) (as_real v)) (codes "</real") goes_on
  ]

  -- The outer `switch`, at `c`, which is `doc[i]`.
  unfoldable pub step_tag : Cursor → ℕ → Round
  step_tag s c =
      if c == b'a'
      then when_tag s (codes "array") (λ t. goes_on (open_level t))
      else if c == b'd'
      then step_dict s
      else if c == b'k'
      then when_tag (record s { string_tag = codes "key" }) (codes "key") step_text
      else if c == b's'
      then when_tag s s.string_tag step_text
      else if c == b'r'
      then when_tag s (codes "real") step_real
      else if c == b'i'
      then when_tag s (codes "integer") step_integer
      else if c == b't'
      then when_tag s (codes "true/") (λ t. goes_on (push t (Nson.bool (pos 1))))
      else if c == b'f'
      then when_tag s (codes "false/") (λ t. goes_on (push t (Nson.bool (pos 0))))
      else if c == b'/'
      then step_slash s
      else goes_on s

  -- A round of the loop, from the bytes that follow the blanks.
  unfoldable pub round_at : Cursor → Bytes → Round
  round_at t [] = jumps t
  round_at t (c ∷ []) = jumps t
  round_at t (c ∷ e ∷ es) = if c == b'<' then step_tag (pass t 1) e else jumps t

  unfoldable pub plist_round : Cursor → Round
  plist_round s = let t = skip_spaces s in round_at t t.rest

  unfoldable pub plist_loop : ℕ → Cursor → Exit
  plist_loop zero s = spent
  plist_loop (suc fuel) s = elim (plist_round s) [
    | jumps t ↦ at_err t
    | overruns ↦ overrun
    | goes_on t ↦ elim (goes_round t) [ true ↦ plist_loop fuel t | false ↦ behind t ]
  ]

  unfoldable pub parse_plist : Bytes → Bytes → PlistParsed
  parse_plist string_tag doc =
      let s : Cursor = record {
        rest = doc;
        index = 0;
        top = no_items;
        below = [];
        rv = pos 0;
        string_tag = string_tag;
      } in
      elim (plist_headers s) [
        | none ↦ untouched s.string_tag
        | some t ↦ plist_exit (plist_loop (suc (length doc)) t)
      ]
