-- ===== src/Util/Decimal/Bounds.antt =====
-- The range of what `__nson_parse_dev` stores and of what it returns.
use mathlib.Core.Option.{some-injective}
use mathlib.Core.Path.{subst}
use nson.Prelude.{
  ℕ, zero, suc, ◌+◌, ◌-◌, ◌*◌, ◌≤◌, ◌≡◌, refl, ap, Bool, true, false, ◌||◌, Option, none, some, inl,
  inr, Bytes, [], ◌∷◌, arith, length, ◌==◌, if◌then◌else◌, Bool-cases,
}
use nson.Prelude.Int.{ℤ, pos, neg_ℕ}
use nson.Util.Decimal.RoundTrip.{IsParsable}
use nson.Util.Decimal.{max_int64, parse_dev_loop, signed, parse_dev}

pub parse_dev_loop_bounds :
    (l : Bytes) (val i v j : ℕ)
    → val ≤ max_int64
    → parse_dev_loop l val i ≡ some (v, j)
    → (v ≤ max_int64) × (i ≤ j) × (j ≤ i + length l)
unfolding parse_dev_loop
parse_dev_loop_bounds [] val i v j fits e = ground arith
parse_dev_loop_bounds (c ∷ cs) val i v j fits e =
    ground (arith, parse_dev_loop_bounds cs (val * 10 + (c - b'0')) (i + 1) v j)

signed-IsParsable :
    (minus : Bool) (v : ℕ) → v ≤ max_int64 → IsParsable (if minus then neg_ℕ v else pos v)
signed-IsParsable false v h = h
signed-IsParsable true zero h = h
signed-IsParsable true (suc v) h = h

signed_bounds :
    (minus : Bool) (r : Option (ℕ × ℕ)) (n j : ℕ) (z : ℤ)
    → ((v k : ℕ) → r ≡ some (v, k) → (v ≤ max_int64) × (k ≤ n))
    → signed minus r ≡ some (z, j)
    → IsParsable z × (j ≤ n)
signed_bounds minus none n j z h e = cc
signed_bounds minus (some (v, k)) n j z h e =
    let whole = some-injective _ _ e in
    let bounds = h v k refl in
    (
      subst IsParsable (ap (λ (t : ℤ × ℕ). t.0) whole) (signed-IsParsable minus v bounds.0),
      subst (λ t. t ≤ n) (ap (λ (t : ℤ × ℕ). t.1) whole) bounds.1,
    )

-- The integer read is one of `int64_t` other than INT64_MIN, and the bytes read lie in the range.
pub parse_dev_bounds :
    (l : Bytes) (z : ℤ) (j : ℕ) → parse_dev l ≡ some (z, j) → IsParsable z × (j ≤ length l)
unfolding parse_dev
parse_dev_bounds [] z j e = ground arith
parse_dev_bounds (c ∷ cs) z j e = elim (Bool-cases (c == b'-' || c == b'+')) [
  | inl sign ↦
      signed_bounds (c == b'-') (parse_dev_loop cs 0 1) (suc (length cs)) j z
        (λ v k run. omega (arith, parse_dev_loop_bounds cs 0 1 v k (omega arith) run))
        (rw sign at e)
  | inr plain ↦
      signed_bounds (c == b'-') (parse_dev_loop (c ∷ cs) 0 0) (suc (length cs)) j z
        (λ v k run. omega (arith, parse_dev_loop_bounds (c ∷ cs) 0 0 v k (omega arith) run))
        (rw plain at e)
]
