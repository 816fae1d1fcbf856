-- ===== src/Base64/Signed.antt =====
-- Where `char` is signed, the encoder differs from base64 on a byte of eight bits.
use nson.Prelude.{
  ℕ, ◌+◌, ◌-◌, ◌*◌, ◌/◌, ◌%◌, ◌≤◌, ◌<◌, ◌≡◌, ◌≢◌, refl, ap, sym, ◌∙◌, [], ◌∷◌, Bytes, get_or, arith,
}
use nson.Base64.Digits.{join_1_negative, base64_value-base64_digit, shift_left_4}
use nson.Base64.Encode.{encode}
use nson.Base64.{base64_digit, enc_step, enc_loop, enc_close, mapper_b64_enc}

second-enc_close : (siz x y r : ℕ) (out : Bytes) → get_or (enc_close siz (x ∷ y ∷ out, r)) 1 0 ≡ y
unfolding enc_close
second-enc_close siz x y r out = ground arith

second-encode :
    (a b : ℕ) (s : Bytes) → get_or (encode (a ∷ b ∷ s)) 1 0 ≡ base64_digit (a % 4 * 16 + b / 16)
unfolding encode
second-encode a b [] = refl
second-encode a b (c ∷ s) = refl

second-enc_loop :
    (siz a b : ℕ) (s : Bytes)
    → a < 256
    → 128 ≤ b
    → b < 256
    → get_or (enc_close siz (enc_loop (a ∷ b ∷ s) 0 0)) 1 0 ≡ base64_digit (48 + b / 16)
unfolding enc_loop enc_step
second-enc_loop siz a b s fits low high =
    second-enc_close siz _ _ _ _
    ∙ ap base64_digit (
        rw (shift_left_4 a fits) (
          let e : b - 128 + 128 ≡ b = omega arith in
          rw e at (join_1_negative (a % 4) (b - 128) (omega arith) (omega arith))))

base64_digit-injective : (v w : ℕ) → v < 64 → w < 64 → base64_digit v ≡ base64_digit w → v ≡ w
base64_digit-injective v w hv hw e =
    cc (e, (base64_value-base64_digit v hv).0, (base64_value-base64_digit w hw).0)

-- Whatever follows, a second byte of 128 or more behind a first byte whose low two bits are not
-- both set is encoded wrongly: the sign of the byte overwrites those two bits.
pub mapper_b64_enc-ne-encode :
    (a b : ℕ) (s : Bytes)
    → a < 256
    → a % 4 < 3
    → 128 ≤ b
    → b < 256
    → mapper_b64_enc (a ∷ b ∷ s) ≢ encode (a ∷ b ∷ s)
unfolding mapper_b64_enc
mapper_b64_enc-ne-encode a b s fits bits low high e = absurd (
    omega (
      arith,
      base64_digit-injective (48 + b / 16) (a % 4 * 16 + b / 16) (omega arith) (omega arith) (
          sym (second-enc_loop _ a b s fits low high)
          ∙ ap (λ l. get_or l 1 0) e
          ∙ second-encode a b s),
    ))
