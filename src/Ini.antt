-- ===== src/Ini.antt =====
-- `nson_parse_ini` and `parse_line` of src/ini.c. The document is a list of bytes, with a NUL
-- behind it. Where the last line has no end, the loop reads the byte behind that NUL, which is taken
-- for another NUL.
pub mod Lines
use nson.Object.{c_string, obj_put}
use nson.Prelude.{
  ℕ, suc, ◌+◌, ◌-◌, Bool, false, not, ◌||◌, ◌&&◌, Option, none, some, Bytes, [], ◌∷◌, ltb, ◌==◌,
  ◌>>=◌, if◌then◌else◌, take, drop, length, get_or,
}
use nson.Prelude.Int.{ℤ, pos, negsuc}
use nson.Util.Number.{Double}
use nson.Value.{Nson, Fields, no_fields}

-- `isblank`, in the C locale.
unfoldable pub isblank : ℕ → Bool
isblank c = c == b' ' || c == b'\t'

-- How many bytes in front are blanks, and how many are none.
unfoldable pub blank_run : Bytes → ℕ
blank_run [] = 0
blank_run (c ∷ cs) = let more = suc (blank_run cs) in if isblank c then more else 0

unfoldable pub key_run : Bytes → ℕ
key_run [] = 0
key_run (c ∷ cs) = let more = suc (key_run cs) in if isblank c then 0 else more

-- The object, by its mark and its entries, and `rv`.
pub record Ini : Type 0 where
  pub messy : Bool
  pub entries : Fields
  pub rv : ℤ

module _ (d : Double) where
  unfoldable pub ini_put : Ini → Bytes → Bytes → ℕ → Ini
  ini_put s key val i =
      let (messy, entries) = obj_put d s.messy s.entries (take 63 key) (Nson.str val) in
      record { messy = messy; entries = entries; rv = pos i }

  -- `parse_line`, on the bytes from `line` to the next NUL; the key may reach past the `len` bytes of the line.
  -- `none` is a value whose length `len - i` wraps around, for which there is no buffer.
  unfoldable pub parse_line : Ini → Bytes → ℕ → Option Ini
  parse_line s line len =
      let start = blank_run line in
      let key = drop start line in
      let key_len = key_run key in
      let behind = drop (suc key_len) key in
      let i = start + suc key_len + blank_run behind in
      if length key == 0 || get_or key 0 0 == b'#'
      then some (record s { rv = pos 0 })
      else if length key == key_len
      then some (record s { rv = negsuc 0 })
      else if ltb len i
      then none
      else some (ini_put s (take key_len key) (take (len - i) (drop i line)) i)

  -- The loop, at `p`, with `line` and `p - line`. A line ends at its end or at a NUL, behind which the
  -- loop goes on; a NUL that begins a line ends the loop. No scan of `parse_line` passes a NUL.
  unfoldable pub ini_loop : Bytes → Bytes → ℕ → Ini → Option Ini
  ini_loop [] line n s = if n == 0 then some s else parse_line s (c_string line) n
  ini_loop (c ∷ cs) line n s =
      let ended = parse_line s (c_string line) n >>= ini_loop cs cs 0 in
      let more = ini_loop cs line (n + 1) s in
      if c == 0 && n == 0 then some s else if c == b'\n' || c == 0 then ended else more

  unfoldable pub parse_ini : Bytes → Option Ini
  parse_ini doc = ini_loop doc doc 0 (record { messy = false; entries = no_fields; rv = pos 0 })
