-- ===== src/Util/Number.antt =====
-- `__nson_parse_number` of src/util.c, over the `double` arithmetic of the platform.
use nson.Prelude.{
  ℕ, ◌+◌, Option, none, some, Bytes, [], ◌∷◌, ◌==◌, if◌then◌else◌, drop, Bool, true, false,
}
use nson.Prelude.Int.{ℤ, pos, negsuc}
use nson.Util.Decimal.{is_digit, parse_dev}
use nson.Value.{Nson}

-- The `double` of the C implementation, by bit patterns: `of_int` converts an `int64_t`, `to_int`
-- converts back, `print` is `printf("%f")`, and `less` is `<`.
pub record Double : Type 0 where
  pub tenth : ℕ
  pub of_int : ℤ → ℕ
  pub to_int : ℕ → ℤ
  pub add : ℕ → ℕ → ℕ
  pub sub : ℕ → ℕ → ℕ
  pub mul : ℕ → ℕ → ℕ
  pub less : ℕ → ℕ → Bool
  pub print : ℕ → Bytes

abbrev pub is_negative : ℤ → Bool
is_negative (pos n) = false
is_negative (negsuc n) = true

module _ (d : Double) where
  -- The loop over the digits behind the point: `(r_val * 0.1) + src[i] - '0'`.
  unfoldable pub parse_fraction : Bytes → ℕ → ℕ → ℕ × ℕ
  parse_fraction [] r i = (r, i)
  parse_fraction (c ∷ cs) r i =
      let r' = d.sub (d.add (d.mul r d.tenth) (d.of_int (pos c))) (d.of_int (pos b'0')) in
      let more = parse_fraction cs r' (i + 1) in if is_digit c then more else (r, i)

  -- What is done behind the point, whose index is `i - 1`.
  unfoldable pub finish_real : ℤ → ℕ × ℕ → Nson × ℕ
  finish_real z (r, i) =
      let scaled = d.mul r d.tenth in
      (
        Nson.real (if is_negative z then d.sub scaled (d.of_int z) else d.add scaled (d.of_int z)),
        i,
      )

  unfoldable pub after_int : ℤ → ℕ → Bytes → Nson × ℕ
  after_int z i [] = (Nson.int z, i)
  after_int z i (c ∷ cs) =
      if c == b'.'
      then finish_real z (parse_fraction cs (d.of_int (pos 0)) (i + 1))
      else (Nson.int z, i)

  -- The element stored and the bytes read. `none` is the return of -1, where the element is 0.
  unfoldable pub parse_number : Bytes → Option (Nson × ℕ)
  parse_number src = elim (parse_dev src) [
    | none ↦ none
    | some (z, i) ↦ some (after_int z i (drop i src))
  ]
