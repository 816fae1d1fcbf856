-- ===== src/Buf.antt =====
-- src/buf.c: the reference-counted buffers, and their order.
pub mod Order
pub mod Count
use Prim.Native.Nat.{compare, Ordering, lt, eq, gt}
use nson.Prelude.{
  ℕ, zero, suc, ◌+◌, ◌-◌, ◌%◌, ◌^◌, Bool, true, false, not, ◌&&◌, Option, none, some, [], ◌∷◌,
  Bytes, ltb, ◌==◌, if◌then◌else◌, length, take, replicate,
}

-- `struct NsonBuf`: `siz` is the length of the contents.
pub record NsonBuf : Type 0 where
  pub count : ℕ
  pub contents : Bytes

-- `__nson_buf` and `__nson_buf_siz`
abbrev pub buf_bytes : NsonBuf → Bytes
buf_bytes buf = buf.contents

abbrev pub buf_siz : NsonBuf → ℕ
buf_siz buf = length buf.contents

-- SIZE_MAX and sizeof(NsonBuf), where `size_t` has 64 bits.
abbrev pub size_max : ℕ
size_max = 2 ^ 64 - 1

abbrev pub sizeof_buf : ℕ
sizeof_buf = 24

-- `unsigned int` arithmetic on the counter.
unfoldable pub buf_retain : NsonBuf → NsonBuf
buf_retain buf = record buf { count = (buf.count + 1) % 2 ^ 32 }

-- `none` is a buffer that has been freed.
unfoldable pub buf_release : NsonBuf → Option NsonBuf
buf_release buf =
    let count' = (buf.count + 2 ^ 32 - 1) % 2 ^ 32 in
    if count' == 0 then none else some (record buf { count = count' })

-- `none` is the return of NULL; an allocation that is tried succeeds.
unfoldable pub buf_new : ℕ → Option NsonBuf
buf_new siz =
    if ltb (size_max - sizeof_buf) siz
    then none
    else some (buf_retain (record { count = 0; contents = replicate siz 0 }))

-- The `siz` bytes are those from `val` on.
unfoldable pub buf_wrap : Bytes → ℕ → Option NsonBuf
buf_wrap val siz = elim (buf_new siz) [
  | none ↦ none
  | some buf ↦ some (record buf { contents = take siz val })
]

-- The new size is at most the old one.
unfoldable pub buf_shrink : NsonBuf → ℕ → NsonBuf
buf_shrink buf new_siz = record buf { contents = take new_siz buf.contents }

-- The sign of `memcmp(a, b, n)`.
unfoldable pub memcmp : ℕ → Bytes → Bytes → Ordering
memcmp (suc n) (x ∷ a) (y ∷ b) = elim (compare x y) [ eq ↦ memcmp n a b | lt ↦ lt | gt ↦ gt ]
memcmp _ _ _ = eq

-- `SCAL_CMP`
abbrev pub scal_cmp : ℕ → ℕ → Ordering
scal_cmp a b = if ltb b a then gt else if ltb a b then lt else eq

-- `__nson_buf_cmp`, by its sign, for sizes below 2^31.
unfoldable pub buf_cmp : Bytes → Bytes → Ordering
buf_cmp a b =
    let len_a = length a in
    let len_b = length b in
    let rv = memcmp (if ltb len_a len_b then len_a else len_b) a b in
    elim rv [ eq ↦ if not (len_a == len_b) then scal_cmp len_a len_b else eq | lt ↦ lt | gt ↦ gt ]
