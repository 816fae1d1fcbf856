-- ===== src/Plist/Text.antt =====
-- `skip_tag`, `measure_string_len` and `parse_string` of src/plist.c.
use nson.Base64.{memchr_index}
use nson.Json.Parser.{same_bytes}
use nson.Prelude.{
  ℕ, zero, suc, ◌+◌, ◌-◌, ◌^◌, Bool, not, Option, none, some, Bytes, [], ◌∷◌, codes, leb, ◌==◌,
  if◌then◌else◌, take, drop, length, get_or,
}
use nson.Prelude.Int.{ℤ, pos, negsuc}
use nson.Util.Decimal.{parse_dev}
use nson.Util.Utf8.{to_utf8}

-- What stands behind the name of a tag: `n` bytes of it are passed.
unfoldable pub tag_close : ℕ → Bytes → ℤ
tag_close n [] = pos 0
tag_close n (c ∷ cs) =
    if c == b'>'
    then pos (n + 1)
    else if not (c == b' ')
    then pos 0
    else elim (memchr_index (c ∷ cs) b'>') [ none ↦ negsuc 0 | some k ↦ pos (n + k + 1) ]

-- `skip_tag`, on the bytes from `p`: 0 is another tag, -1 a tag without an end.
unfoldable pub skip_tag : Bytes → Bytes → ℤ
skip_tag tag p =
    let n = length tag in
    if leb (length p) n
    then pos 0
    else if not (same_bytes (take n p) tag)
    then pos 0
    else tag_close n (drop n p)

-- `measure_string_len`, with the index of the first byte: where the end tag begins. `none` is -1.
unfoldable pub measure_string_len : Bytes → Bytes → ℕ → Option ℕ
measure_string_len end_tag [] k = none
measure_string_len end_tag (c ∷ []) k = none
measure_string_len end_tag (c ∷ d ∷ ds) k =
    let next = measure_string_len end_tag (d ∷ ds) (k + 1) in
    let behind = measure_string_len end_tag ds (k + 2) in
    let closing : Option ℕ = elim (skip_tag end_tag ds) [
      | pos n ↦ if n == 0 then behind else some k
      | negsuc n ↦ none
    ] in
    if not (c == b'<') then next else if not (d == b'/') then next else closing

-- The conversion of an `int64_t` to `uint64_t`.
abbrev pub to_uint64 : ℤ → ℕ
to_uint64 (pos n) = n
to_uint64 (negsuc n) = 2 ^ 64 - 1 - n

-- Whether the text begins with the word, by `strncmp`.
abbrev pub begins : Bytes → Bytes → Bool
begins word text = same_bytes (take (length word) text) word

-- What an `&` leads to, from the text behind it: the byte stored, for `dest` moves on by one in every
-- case, and the bytes that `chunk_start` passes.
unfoldable pub entity : Bytes → ℕ × ℕ
entity text =
    let number : ℕ × ℕ = elim (parse_dev (drop 1 text)) [
      | none ↦ (b'&', 0)
      | some (val, n) ↦
          let utf8 = to_utf8 (to_uint64 val) 3 in
          if get_or text (1 + n) 0 == b';'
          then (get_or utf8 0 0, 1 + n + length utf8)
          else (b'&', 1 + n)
    ] in
    if get_or text 0 0 == b'#'
    then number
    else if begins (codes "lt;") text
    then (b'<', 3)
    else if begins (codes "gt;") text
    then (b'>', 3)
    else if begins (codes "amp;") text
    then (b'&', 4)
    else (b'&', 0)

abbrev pub store : ℕ → Option Bytes → Option Bytes
store x none = none
store x (some out) = some (x ∷ out)

-- `parse_string`: the contents of the buffer. The second argument counts the bytes that
-- `chunk_start` has yet to pass; `none` is a `chunk_start` behind the text, where the size given to
-- `memchr` wraps around.
unfoldable pub parse_string : Bytes → ℕ → Option Bytes
parse_string [] zero = some []
parse_string [] (suc skip) = none
parse_string (c ∷ cs) (suc skip) = parse_string cs skip
parse_string (c ∷ cs) zero =
    let (stored, skip) = entity cs in
    let copied = parse_string cs 0 in
    let replaced = parse_string cs skip in
    if c == b'&' then store stored replaced else store c copied
