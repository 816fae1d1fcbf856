-- ===== src/Base64/Encode.antt =====
-- The encoder of src/map_reduce.c against base64 as RFC 4648 defines it.
use nson.Prelude.{
  ℕ, suc, ◌+◌, ◌-◌, ◌*◌, ◌/◌, ◌%◌, ◌<◌, ◌≡◌, refl, ap, ◌∙◌, [], ◌∷◌, ◌==◌, Bytes, length, replicate,
  bit_and, arith,
}
use nson.Prelude.Bits.{bit_and-mask₆}
use nson.Base64.Digits.{shift_right_2, shift_left_4, shift_left_2, low_6, join_1, join_2}
use nson.Base64.{base64_digit, enc_step, enc_loop, enc_size, enc_close, mapper_b64_enc}

-- Base64: each group of three bytes becomes four digits, and `=` fills the last group.
unfoldable pub encode : Bytes → Bytes
encode [] = []
encode (a ∷ []) = base64_digit (a / 4) ∷ base64_digit (a % 4 * 16) ∷ b'=' ∷ b'=' ∷ []
encode (a ∷ b ∷ []) =
    base64_digit (a / 4)
    ∷ base64_digit (a % 4 * 16 + b / 16)
    ∷ base64_digit (b % 16 * 4)
    ∷ b'='
    ∷ []
encode (a ∷ b ∷ c ∷ s) =
    base64_digit (a / 4)
    ∷ base64_digit (a % 4 * 16 + b / 16)
    ∷ base64_digit (b % 16 * 4 + c / 64)
    ∷ base64_digit (c % 64)
    ∷ encode s

-- The first byte of each group of three is any byte, and the others have seven bits.
abbrev pub IsEncodable : Bytes → Type 0
IsEncodable [] = Unit
IsEncodable (a ∷ []) = a < 256
IsEncodable (a ∷ b ∷ []) = (a < 256) × (b < 128)
IsEncodable (a ∷ b ∷ c ∷ s) = (a < 256) × (b < 128) × (c < 128) × IsEncodable s

enc_step_0 :
    (i c r : ℕ) → i % 3 ≡ 0 → c < 256 → enc_step i c r ≡ (base64_digit (c / 4) ∷ [], c % 4 * 16)
unfolding enc_step
enc_step_0 i c r h fits = rw (h, shift_right_2 c fits, shift_left_4 c fits)

enc_step_1 :
    (i c q : ℕ)
    → i % 3 ≡ 0
    → q < 4
    → c < 128
    → enc_step (i + 1) c (q * 16) ≡ (base64_digit (q * 16 + c / 16) ∷ [], c % 16 * 4)
unfolding enc_step
enc_step_1 i c q h hq fits =
    let e : (i + 1) % 3 ≡ 1 = omega arith in
    rw (e, join_1 q c hq fits, shift_left_2 c (omega arith))

enc_step_2 :
    (i c q : ℕ)
    → i % 3 ≡ 0
    → q < 16
    → c < 128
    → enc_step (i + 1 + 1) c (q * 4)
      ≡ (base64_digit (q * 4 + c / 64) ∷ base64_digit (c % 64) ∷ [], q * 4)
unfolding enc_step
enc_step_2 i c q h hq fits =
    let e : (i + 1 + 1) % 3 ≡ 2 = omega arith in rw (e, join_2 q c hq fits, low_6 c (omega arith))

==-suc : (a b : ℕ) → (suc a == suc b) ≡ (a == b)
==-suc a b = ground arith

masked : (v : ℕ) → v < 64 → bit_and v 63 ≡ v
masked v h = bit_and-mask₆ v ∙ omega arith

enc_close_cons :
    (siz d r : ℕ) (out : Bytes) → enc_close (suc siz) (d ∷ out, r) ≡ d ∷ enc_close siz (out, r)
unfolding enc_close
enc_close_cons siz d r out =
    ground (arith, ap (λ k. replicate {A = ℕ} k b'=') less, ==-suc siz (length out))
  where
    less : suc siz - suc (length out) - 1 ≡ siz - length out - 1
    less = omega arith

enc_close_group :
    (n w x y z r : ℕ) (out : Bytes)
    → enc_close (enc_size (suc (suc (suc n)))) (w ∷ x ∷ y ∷ z ∷ out, r)
      ≡ w ∷ x ∷ y ∷ z ∷ enc_close (enc_size n) (out, r)
enc_close_group n w x y z r out =
    let larger : enc_size (suc (suc (suc n))) ≡ suc (suc (suc (suc (enc_size n)))) = omega arith in
    rw (larger, enc_close_cons _ w, enc_close_cons _ x, enc_close_cons _ y, enc_close_cons _ z)

enc_loop-encode :
    (s : Bytes) (i r : ℕ)
    → i % 3 ≡ 0
    → IsEncodable s
    → enc_close (enc_size (length s)) (enc_loop s i r) ≡ encode s
unfolding enc_loop encode
enc_loop-encode [] i r h fits = unfold enc_close in refl
enc_loop-encode (a ∷ []) i r h fits =
    rw (enc_step_0 i a r h fits) (unfold enc_close in rw (masked (a % 4 * 16) (omega arith)))
enc_loop-encode (a ∷ b ∷ []) i r h (fa, fb) =
    rw (enc_step_0 i a r h fa, enc_step_1 i b (a % 4) h (omega arith) fb)
      (unfold enc_close in rw (masked (b % 16 * 4) (omega arith)))
enc_loop-encode (a ∷ b ∷ c ∷ s) i r h (fa, fb, fc, fs) =
    rw
      (
        enc_step_0 i a r h fa,
        enc_step_1 i b (a % 4) h (omega arith) fb,
        enc_step_2 i c (b % 16) h (omega arith) fc,
      )
      (enc_close_group (length s) _ _ _ _ _ _
        ∙ ap
            (λ t.
              base64_digit (a / 4)
              ∷ base64_digit (a % 4 * 16 + b / 16)
              ∷ base64_digit (b % 16 * 4 + c / 64)
              ∷ base64_digit (c % 64)
              ∷ t)
            (enc_loop-encode s (i + 1 + 1 + 1) (b % 16 * 4) (omega arith) fs))

-- The encoder computes base64 for every input whose bytes have seven bits, but for the first of
-- each group of three, which may be any byte.
pub mapper_b64_enc-encode : (s : Bytes) → IsEncodable s → mapper_b64_enc s ≡ encode s
unfolding mapper_b64_enc
mapper_b64_enc-encode s fits = enc_loop-encode s 0 0 refl fits
