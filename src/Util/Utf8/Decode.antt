-- ===== src/Util/Utf8/Decode.antt =====
-- What `__nson_to_utf8` writes is the UTF-8 form of the code point.
use nson.Prelude.{
  ℕ, ◌+◌, ◌*◌, ◌/◌, ◌%◌, ◌^◌, ◌<◌, ◌≡◌, refl, Option, none, some, Bytes, [], ◌∷◌, ltb, leb, true,
  ◌==◌, if◌then◌else◌, arith, bit_or, holds_below, at_below, ==_iff,
}
use nson.Prelude.Bits.{bit_and-mask₄, bit_and-mask₅, bit_and-mask₆}
use nson.Util.Utf8.{to_utf8}

-- The payload of a continuation byte 10xxxxxx.
abbrev continuation : ℕ → Option ℕ
continuation b = if b / 64 == 2 then some (b % 64) else none

abbrev join₂ : ℕ → Option ℕ → Option ℕ
join₂ high none = none
join₂ high (some low) = if leb 0x80 (high * 64 + low) then some (high * 64 + low) else none

abbrev join₃ : ℕ → Option ℕ → Option ℕ → Option ℕ
join₃ high (some mid) (some low) =
    let chr = high * 4096 + mid * 64 + low in if leb 0x800 chr then some chr else none
join₃ high _ _ = none

-- A decoder of one sequence of one to three bytes, which refuses overlong forms.
pub decode : Bytes → Option ℕ
decode (a ∷ []) = if ltb a 0x80 then some a else none
decode (a ∷ b ∷ []) = if a / 32 == 6 then join₂ (a % 32) (continuation b) else none
decode (a ∷ b ∷ c ∷ []) =
    if a / 16 == 14 then join₃ (a % 16) (continuation b) (continuation c) else none
decode _ = none

c0_table : holds_below 32 (λ x. bit_or x 0xc0 == x + 0xc0) ≡ true
unfolding holds_below
c0_table = refl

e0_table : holds_below 16 (λ x. bit_or x 0xe0 == x + 0xe0) ≡ true
unfolding holds_below
e0_table = refl

continuation_table : holds_below 64 (λ x. bit_or x 0x80 == x + 0x80) ≡ true
unfolding holds_below
continuation_table = refl

bit_or_c0 : (x : ℕ) → bit_or (x % 32) 0xc0 ≡ x % 32 + 0xc0
bit_or_c0 x = (==_iff _ _).0 (at_below 32 _ (x % 32) (omega arith) c0_table)

bit_or_e0 : (x : ℕ) → bit_or (x % 16) 0xe0 ≡ x % 16 + 0xe0
bit_or_e0 x = (==_iff _ _).0 (at_below 16 _ (x % 16) (omega arith) e0_table)

bit_or_80 : (x : ℕ) → bit_or (x % 64) 0x80 ≡ x % 64 + 0x80
bit_or_80 x = (==_iff _ _).0 (at_below 64 _ (x % 64) (omega arith) continuation_table)

ruleset fields = (bit_and-mask₄, bit_and-mask₅, bit_and-mask₆, bit_or_c0, bit_or_e0, bit_or_80)

-- With room for three bytes, a code point below 2^16 is written as the UTF-8 sequence that the
-- decoder takes for it, in its shortest form.
pub decode-to_utf8 : (chr : ℕ) → chr < 2 ^ 16 → decode (to_utf8 chr 3) ≡ some chr
unfolding to_utf8 decode
decode-to_utf8 chr h = simp fields (ground arith)
