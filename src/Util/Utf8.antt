-- ===== src/Util/Utf8.antt =====
-- `__nson_to_utf8` of src/util.c.
pub mod Decode
use nson.Prelude.{ℕ, ◌/◌, ◌%◌, ◌^◌, ◌&&◌, leb, ltb, if◌then◌else◌, Bytes, [], ◌∷◌, bit_and, bit_or}

-- The bytes stored at `dest`, which are as many as the function returns. `chr >> k` is
-- `chr / 2 ^ k`. The first case stores `(char)chr`.
unfoldable pub to_utf8 : ℕ → ℕ → Bytes
to_utf8 chr len =
    if ltb chr 0x80 && leb 1 len
    then chr ∷ []
    else if ltb chr 0x800 && leb 2 len
    then bit_or (bit_and (chr / 2 ^ 6) 0x1f) 0xc0 ∷ bit_or (bit_and chr 0x3f) 0x80 ∷ []
    else if leb 3 len
    then bit_or (bit_and (chr / 2 ^ 12) 0x0f) 0xe0
      ∷ bit_or (bit_and (chr / 2 ^ 6) 0x3f) 0x80
      ∷ bit_or (bit_and chr 0x3f) 0x80
      ∷ []
    else []
