-- ===== src/Base64/Bounds.antt =====
-- The stores of the three loops stay in the buffers that they are given.
use nson.Prelude.{
  ℕ, zero, suc, ◌+◌, ◌-◌, ◌*◌, ◌/◌, ◌%◌, ◌≤◌, ◌≡◌, refl, ap, [], ◌∷◌, ◌++◌, ◌==◌, if◌then◌else◌,
  Bytes, length, length-append, replicate, arith, Bool-cases, Option-cases, bit_and, inl, inr,
}
use nson.Base64.{
  base64_digit, enc_step, enc_loop, enc_size, enc_close, mapper_b64_enc, base64_value, dec_step,
  Scan, dec_loop,
}

length-append_bytes : (xs ys : Bytes) → length (xs ++ ys) ≡ length xs + length ys
length-append_bytes = length-append

length-replicate : (n c : ℕ) → length (replicate {A = ℕ} n c) ≡ n
length-replicate zero c = refl
length-replicate (suc n) c = ap suc (length-replicate n c)

-- The digits that `i` bytes have filled.
abbrev enc_written : ℕ → ℕ
enc_written i = i / 3 * 4 + i % 3

length-enc_step : (i c r : ℕ) → length (enc_step i c r).0 + enc_written i ≡ enc_written (i + 1)
unfolding enc_step
length-enc_step i c r = ground arith

length-enc_loop :
    (s : Bytes) (i r : ℕ) → length (enc_loop s i r).0 + enc_written i ≡ enc_written (i + length s)
unfolding enc_loop
length-enc_loop [] i r = omega arith
length-enc_loop (c ∷ s) i r = omega (
  arith,
  length-append_bytes (enc_step i c r).0 (enc_loop s (i + 1) (enc_step i c r).1).0,
  length-enc_step i c r,
  length-enc_loop s (i + 1) (enc_step i c r).1,
)

length-enc_close :
    (siz r : ℕ) (out : Bytes) → length out ≤ siz → length (enc_close siz (out, r)) ≡ siz
unfolding enc_close
length-enc_close siz r out h = ground (
  arith,
  length-append_bytes out (base64_digit (bit_and r 63) ∷ replicate (siz - length out - 1) b'='),
  length-replicate (siz - length out - 1) b'=',
)

-- The encoder fills its buffer exactly, whatever the bytes are.
pub length-mapper_b64_enc : (s : Bytes) → length (mapper_b64_enc s) ≡ enc_size (length s)
unfolding mapper_b64_enc
length-mapper_b64_enc s =
    length-enc_close (enc_size (length s)) _ (enc_loop s 0 0).0
      (omega (arith, length-enc_loop s 0 0))

-- The bytes that `i` digits have completed: the index `j` of the decoders.
abbrev dec_written : ℕ → ℕ
dec_written i = i / 4 * 3 + (i % 4 - 1)

length-dec_step :
    (i v cell : ℕ) → length (dec_step i v cell).0 + dec_written i ≡ dec_written (i + 1)
unfolding dec_step
length-dec_step i v cell = ground arith

length-dec_loop :
    (s : Bytes) (i cell : ℕ)
    → (length (dec_loop s i cell).out + dec_written i ≡ dec_written (dec_loop s i cell).index)
      × ((dec_loop s i cell).index ≤ i + length s)
unfolding dec_loop
length-dec_loop [] i cell = omega arith
length-dec_loop (c ∷ s) i cell = elim (Bool-cases (c == b'=')) [
  | inl e ↦ rw e (omega arith)
  | inr e ↦ elim (Option-cases (base64_value c)) [
    | inl refused ↦ rw (e, refused) (omega arith)
    | inr (v, found) ↦
        rw (e, found)
          (omega (
            arith,
            length-append_bytes (dec_step i v cell).0
                (dec_loop s (i + 1) (dec_step i v cell).1).out,
            length-dec_step i v cell,
            length-dec_loop s (i + 1) (dec_step i v cell).1,
          ))
  ]
]

-- The size of a decoder's buffer for `n` digits.
abbrev pub dec_size : ℕ → ℕ
dec_size n = (n + 3) / 4 * 3

-- The cells of the buffer that a loop has stored into: the bytes that `j` has passed, and the one
-- behind them that the next digit completes.
abbrev pub cells_stored : Scan → ℕ
cells_stored scan = length scan.out + (if scan.index % 4 == 0 then 0 else 1)

-- Whatever the input is, and whether it is then refused or not, the loop of a decoder stores into
-- cells of the buffer that the decoder allocates for it, the cell with the bits carried on included,
-- and it stays within the input.
pub dec_loop_bounds :
    (s : Bytes)
    → (cells_stored (dec_loop s 0 0) ≤ dec_size (length s)) × ((dec_loop s 0 0).index ≤ length s)
dec_loop_bounds s = let bounds = length-dec_loop s 0 0 in ground (arith, bounds)
