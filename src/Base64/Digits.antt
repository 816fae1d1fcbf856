-- ===== src/Base64/Digits.antt =====
-- Tables: the alphabet, and the fields that the loops join.
use nson.Prelude.{
  ℕ, ◌+◌, ◌*◌, ◌/◌, ◌%◌, ◌<◌, Bool, true, false, not, ◌&&◌, Option, none, some, ◌≡◌, refl, ◌==◌,
  arith, bit_and, bit_or, holds_below, at_below, agree_below, agree_below_sound, ==_iff,
}
use nson.Base64.{base64_digit, base64_value, widen, shift_right, shift_left}

is_value : Option ℕ → ℕ → Bool
is_value none v = false
is_value (some w) v = w == v

digit_table :
    holds_below 64 (λ v. is_value (base64_value (base64_digit v)) v && not (base64_digit v == b'='))
    ≡ true
unfolding holds_below is_value base64_digit base64_value
digit_table = refl

pub base64_value-base64_digit :
    (v : ℕ) → v < 64 → (base64_value (base64_digit v) ≡ some v) × ((base64_digit v == b'=') ≡ false)
unfolding is_value
base64_value-base64_digit v h = ground (
  arith,
  at_below 64 (λ v. is_value (base64_value (base64_digit v)) v && not (base64_digit v == b'=')) v h
      digit_table,
)

-- A table over the bytes, and one over a field and a byte of seven bits.
abbrev BytesAgree : (ℕ → ℕ) → (ℕ → ℕ) → Type 0
BytesAgree f g = holds_below 256 (λ c. f c == g c) ≡ true

bytes_agree : (f g : ℕ → ℕ) → BytesAgree f g → (c : ℕ) → c < 256 → f c ≡ g c
bytes_agree f g table c h = (==_iff _ _).0 (at_below 256 (λ c. f c == g c) c h table)

shift_right_2_table : BytesAgree (λ c. bit_and (shift_right c 2) 63) (λ c. c / 4)
unfolding holds_below
shift_right_2_table = refl

shift_left_4_table : BytesAgree (λ c. bit_and (shift_left c 4) 63) (λ c. c % 4 * 16)
unfolding holds_below
shift_left_4_table = refl

shift_left_2_table : BytesAgree (λ c. bit_and (shift_left c 2) 63) (λ c. c % 16 * 4)
unfolding holds_below
shift_left_2_table = refl

low_6_table : BytesAgree (λ c. bit_and (widen c) 63) (λ c. c % 64)
unfolding holds_below
low_6_table = refl

pub shift_right_2 : (c : ℕ) → c < 256 → bit_and (shift_right c 2) 63 ≡ c / 4
shift_right_2 = bytes_agree _ _ shift_right_2_table

pub shift_left_4 : (c : ℕ) → c < 256 → bit_and (shift_left c 4) 63 ≡ c % 4 * 16
shift_left_4 = bytes_agree _ _ shift_left_4_table

pub shift_left_2 : (c : ℕ) → c < 256 → bit_and (shift_left c 2) 63 ≡ c % 16 * 4
shift_left_2 = bytes_agree _ _ shift_left_2_table

pub low_6 : (c : ℕ) → c < 256 → bit_and (widen c) 63 ≡ c % 64
low_6 = bytes_agree _ _ low_6_table

join_1_table :
    agree_below 4 128
      (λ q c. bit_and (bit_or (shift_right c 4) (q * 16)) 63)
      (λ q c. q * 16 + c / 16)
    ≡ true
unfolding agree_below
join_1_table = refl

join_2_table :
    agree_below 16 128
      (λ q c. bit_and (bit_or (shift_right c 6) (q * 4)) 63)
      (λ q c. q * 4 + c / 64)
    ≡ true
unfolding agree_below
join_2_table = refl

pub join_1 :
    (q c : ℕ) → q < 4 → c < 128 → bit_and (bit_or (shift_right c 4) (q * 16)) 63 ≡ q * 16 + c / 16
join_1 q c = λ hq hc. agree_below_sound 4 128 _ _ q c join_1_table hq hc

pub join_2 :
    (q c : ℕ) → q < 16 → c < 128 → bit_and (bit_or (shift_right c 6) (q * 4)) 63 ≡ q * 4 + c / 64
join_2 q c = λ hq hc. agree_below_sound 16 128 _ _ q c join_2_table hq hc

-- A negative `char` sets the two high bits of the digit, whatever `reminder` holds.
join_1_negative_table :
    agree_below 4 128
      (λ q c. bit_and (bit_or (shift_right (c + 128) 4) (q * 16)) 63)
      (λ q c. 48 + (c + 128) / 16)
    ≡ true
unfolding agree_below
join_1_negative_table = refl

pub join_1_negative :
    (q c : ℕ)
    → q < 4
    → c < 128
    → bit_and (bit_or (shift_right (c + 128) 4) (q * 16)) 63 ≡ 48 + (c + 128) / 16
join_1_negative q c = λ hq hc. agree_below_sound 4 128 _ _ q c join_1_negative_table hq hc

cell_1_table :
    agree_below 64 64 (λ v w. bit_or (v * 4 % 256) (w / 16)) (λ v w. v * 4 + w / 16) ≡ true
unfolding agree_below
cell_1_table = refl

cell_2_table :
    agree_below 64 64 (λ v w. bit_or (v * 16 % 256) (w / 4)) (λ v w. v % 16 * 16 + w / 4) ≡ true
unfolding agree_below
cell_2_table = refl

cell_3_table : agree_below 64 64 (λ v w. bit_or (v * 64 % 256) w) (λ v w. v % 4 * 64 + w) ≡ true
unfolding agree_below
cell_3_table = refl

pub cell_1 : (v w : ℕ) → v < 64 → w < 64 → bit_or (v * 4 % 256) (w / 16) ≡ v * 4 + w / 16
cell_1 v w = λ hv hw. agree_below_sound 64 64 _ _ v w cell_1_table hv hw

pub cell_2 : (v w : ℕ) → v < 64 → w < 64 → bit_or (v * 16 % 256) (w / 4) ≡ v % 16 * 16 + w / 4
cell_2 v w = λ hv hw. agree_below_sound 64 64 _ _ v w cell_2_table hv hw

pub cell_3 : (v w : ℕ) → v < 64 → w < 64 → bit_or (v * 64 % 256) w ≡ v % 4 * 64 + w
cell_3 v w = λ hv hw. agree_below_sound 64 64 _ _ v w cell_3_table hv hw
