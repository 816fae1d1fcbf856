-- ===== src/Base64/Decode.antt =====
-- The decoders of src/map_reduce.c and src/util.c read base64 back.
use nson.Prelude.{
  ℕ, suc, ◌+◌, ◌*◌, ◌/◌, ◌%◌, ◌<◌, ◌≡◌, refl, some, false, [], ◌∷◌, ◌++◌, Bytes, All, length,
  bit_or, arith,
}
use nson.Base64.Digits.{base64_value-base64_digit, cell_1, cell_2, cell_3}
use nson.Base64.Encode.{encode, IsEncodable, mapper_b64_enc-encode}
use nson.Base64.{
  base64_digit, dec_step, dec_loop, Scan, skip_padding, dec_close, mapper_b64_enc, mapper_b64_dec,
  parse_b64,
}

abbrev pub IsBytes : Bytes → Type 0
IsBytes = All (λ c. c < 256)

-- A scan with more bytes in front.
abbrev before : Bytes → Scan → Scan
before stored scan = record scan { out = stored ++ scan.out }

dec_loop-base64_digit :
    (v i cell : ℕ) (cs : Bytes)
    → v < 64
    → dec_loop (base64_digit v ∷ cs) i cell
      ≡ before (dec_step i v cell).0 (dec_loop cs (i + 1) (dec_step i v cell).1)
unfolding dec_loop
dec_loop-base64_digit v i cell cs h =
    rw ((base64_value-base64_digit v h).1, (base64_value-base64_digit v h).0)

dec_step_0 : (i v cell : ℕ) → i % 4 ≡ 0 → dec_step i v cell ≡ ([], v * 4 % 256)
unfolding dec_step
dec_step_0 i v cell h = rw h

dec_step_1 :
    (i v cell : ℕ) → i % 4 ≡ 0 → dec_step (i + 1) v cell ≡ (bit_or cell (v / 16) ∷ [], v * 16 % 256)
unfolding dec_step
dec_step_1 i v cell h = let e : (i + 1) % 4 ≡ 1 = omega arith in rw e

dec_step_2 :
    (i v cell : ℕ)
    → i % 4 ≡ 0
    → dec_step (i + 1 + 1) v cell ≡ (bit_or cell (v / 4) ∷ [], v * 64 % 256)
unfolding dec_step
dec_step_2 i v cell h = let e : (i + 1 + 1) % 4 ≡ 2 = omega arith in rw e

dec_step_3 : (i v cell : ℕ) → i % 4 ≡ 0 → dec_step (i + 1 + 1 + 1) v cell ≡ (bit_or cell v ∷ [], 0)
unfolding dec_step
dec_step_3 i v cell h = let e : (i + 1 + 1 + 1) % 4 ≡ 3 = omega arith in rw e

module _ (i : ℕ) (start : i % 4 ≡ 0) where
  -- The first two digits of a group give a byte, and each of the others one more.
  dec_loop_two :
      (cell v w a : ℕ) (cs : Bytes)
      → v < 64
      → w < 64
      → v * 4 + w / 16 ≡ a
      → dec_loop (base64_digit v ∷ base64_digit w ∷ cs) i cell
        ≡ before (a ∷ []) (dec_loop cs (i + 1 + 1) (w * 16 % 256))
  dec_loop_two cell v w a cs hv hw e = rw (
    dec_loop-base64_digit v i cell (base64_digit w ∷ cs) hv,
    dec_step_0 i v cell start,
    dec_loop-base64_digit w (i + 1) (v * 4 % 256) cs hw,
    dec_step_1 i w (v * 4 % 256) start,
    cell_1 v w hv hw,
    e,
  )

  dec_loop_third :
      (w y b : ℕ) (cs : Bytes)
      → w < 64
      → y < 64
      → w % 16 * 16 + y / 4 ≡ b
      → dec_loop (base64_digit y ∷ cs) (i + 1 + 1) (w * 16 % 256)
        ≡ before (b ∷ []) (dec_loop cs (i + 1 + 1 + 1) (y * 64 % 256))
  dec_loop_third w y b cs hw hy e = rw (
    dec_loop-base64_digit y (i + 1 + 1) (w * 16 % 256) cs hy,
    dec_step_2 i y (w * 16 % 256) start,
    cell_2 w y hw hy,
    e,
  )

  dec_loop_fourth :
      (y z c : ℕ) (cs : Bytes)
      → y < 64
      → z < 64
      → y % 4 * 64 + z ≡ c
      → dec_loop (base64_digit z ∷ cs) (i + 1 + 1 + 1) (y * 64 % 256)
        ≡ before (c ∷ []) (dec_loop cs (i + 1 + 1 + 1 + 1) 0)
  dec_loop_fourth y z c cs hy hz e = rw (
    dec_loop-base64_digit z (i + 1 + 1 + 1) (y * 64 % 256) cs hz,
    dec_step_3 i z (y * 64 % 256) start,
    cell_3 y z hy hz,
    e,
  )

-- The scan accepts, with these bytes and this index.
abbrev Decodes : Scan → Bytes → ℕ → Type 0
Decodes scan s k = (scan.refused ≡ false) × (dec_close scan ≡ some (s, k))

Decodes-before :
    (o s : Bytes) (k : ℕ) (scan : Scan) → Decodes scan s k → Decodes (before o scan) (o ++ s) k
Decodes-before o s k scan (accepted, e) = (accepted, ground arith)

Decodes-pad₁ :
    (i cell : ℕ) → i % 4 ≡ 0 → Decodes (dec_loop (b'=' ∷ []) (i + 1 + 1 + 1) cell) [] (i + 4)
unfolding dec_loop skip_padding
Decodes-pad₁ i cell h = (refl, ground arith)

Decodes-pad₂ :
    (i cell : ℕ) → i % 4 ≡ 0 → Decodes (dec_loop (b'=' ∷ b'=' ∷ []) (i + 1 + 1) cell) [] (i + 4)
unfolding dec_loop skip_padding
Decodes-pad₂ i cell h = (refl, ground arith)

dec_loop-encode :
    (s : Bytes) (i cell : ℕ)
    → i % 4 ≡ 0
    → IsBytes s
    → Decodes (dec_loop (encode s) i cell) s (i + length (encode s))
unfolding encode
dec_loop-encode [] i cell h fits = unfold dec_loop skip_padding in (refl, ground arith)
dec_loop-encode (a ∷ []) i cell h fits =
    rw (dec_loop_two i h cell (a / 4) (a % 4 * 16) a _ (omega arith) (omega arith) (omega arith))
      (Decodes-before (a ∷ []) [] _ _ (Decodes-pad₂ i _ h))
dec_loop-encode (a ∷ b ∷ []) i cell h fits =
    let w : ℕ = a % 4 * 16 + b / 16 in
    let y : ℕ = b % 16 * 4 in
    rw
      (
        dec_loop_two i h cell (a / 4) w a _ (omega arith) (omega arith) (omega arith),
        dec_loop_third i h w y b _ (omega arith) (omega arith) (omega arith),
      )
      (Decodes-before (a ∷ b ∷ []) [] _ _ (Decodes-pad₁ i _ h))
dec_loop-encode (a ∷ b ∷ c ∷ s) i cell h fits =
    let w : ℕ = a % 4 * 16 + b / 16 in
    let y : ℕ = b % 16 * 4 + c / 64 in
    let next : i + 1 + 1 + 1 + 1 + length (encode s)
        ≡ i + suc (suc (suc (suc (length (encode s))))) =
      omega arith in
    rw
      (
        dec_loop_two i h cell (a / 4) w a _ (omega arith) (omega arith) (omega arith),
        dec_loop_third i h w y b _ (omega arith) (omega arith) (omega arith),
        dec_loop_fourth i h y (c % 64) c _ (omega arith) (omega arith) (omega arith),
        ← next,
      )
      (Decodes-before (a ∷ b ∷ c ∷ []) s _ _
        (dec_loop-encode s (i + 1 + 1 + 1 + 1) 0 (omega arith) fits.1.1.1))

pub IsEncodable-IsBytes : (s : Bytes) → IsEncodable s → IsBytes s
IsEncodable-IsBytes [] h = tt
IsEncodable-IsBytes (a ∷ []) h = (h, tt)
IsEncodable-IsBytes (a ∷ b ∷ []) h = (h.0, (omega arith, tt))
IsEncodable-IsBytes (a ∷ b ∷ c ∷ s) h =
    (h.0, (omega arith, (omega arith, IsEncodable-IsBytes s h.3)))

-- Both decoders read the base64 of any bytes back, and consume all of it.
pub b64_dec-encode :
    (s : Bytes)
    → IsBytes s
    → (mapper_b64_dec (encode s) ≡ some (s, length (encode s)))
      × (parse_b64 (encode s) ≡ some (s, length (encode s)))
unfolding mapper_b64_dec parse_b64
b64_dec-encode s fits = let scan = dec_loop-encode s 0 0 refl fits in ground (arith, scan.0, scan.1)

-- What the encoder makes of bytes of seven bits, with any byte at the head of a group of three, is
-- decoded to the same bytes by both decoders.
pub b64_dec-mapper_b64_enc :
    (s : Bytes)
    → IsEncodable s
    → (mapper_b64_dec (mapper_b64_enc s) ≡ some (s, length (mapper_b64_enc s)))
      × (parse_b64 (mapper_b64_enc s) ≡ some (s, length (mapper_b64_enc s)))
b64_dec-mapper_b64_enc s fits =
    rw (mapper_b64_enc-encode s fits) (b64_dec-encode s (IsEncodable-IsBytes s fits))
