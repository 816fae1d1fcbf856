-- ===== src/Base64/Clear.antt =====
-- The alphabet of base64 leaves out the bytes that other formats mark their text with.
use nson.Base64.{base64_digit}
use nson.Base64.Decode.{IsBytes}
use nson.Base64.Encode.{encode}
use nson.Prelude.{
  ℕ, ◌<◌, ◌≡◌, refl, true, false, not, [], ◌∷◌, ◌==◌, Bytes, All, holds_below, at_below, arith,
}

less_table : holds_below 64 (λ v. not (base64_digit v == b'<')) ≡ true
unfolding holds_below base64_digit
less_table = refl

digit_clear : (v : ℕ) → v < 64 → (base64_digit v == b'<') ≡ false
digit_clear v h = ground (arith, at_below 64 (λ v. not (base64_digit v == b'<')) v h less_table)

-- No byte of a base64 code opens a tag.
pub encode_clear : (s : Bytes) → IsBytes s → All (λ c. (c == b'<') ≡ false) (encode s)
unfolding encode
encode_clear [] h = tt
encode_clear (a ∷ []) h =
    (digit_clear _ (omega (arith, h.0)), (digit_clear _ (omega arith), (refl, (refl, tt))))
encode_clear (a ∷ b ∷ []) h = (
  digit_clear _ (omega (arith, h.0)),
  (digit_clear _ (omega (arith, h.0, h.1.0)), (digit_clear _ (omega arith), (refl, tt))),
)
encode_clear (a ∷ b ∷ c ∷ s) h = (
  digit_clear _ (omega (arith, h.0)),
  (
    digit_clear _ (omega (arith, h.0, h.1.0)),
    (
      digit_clear _ (omega (arith, h.1.0, h.1.1.0)),
      (digit_clear _ (omega arith), encode_clear s h.1.1.1),
    ),
  ),
)
