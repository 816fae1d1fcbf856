-- ===== src/Cmp.antt =====
-- `nson_cmp` of src/nson.c.
pub mod Order
use Prim.Native.Nat.{Ordering, lt, eq, gt}
use nson.Buf.{scal_cmp, buf_cmp}
use nson.Prelude.{ℕ, suc, ◌<◌, Bool, true, false, ltb, if◌then◌else◌}
use nson.Prelude.Int.{ℤ, pos, negsuc}
use nson.Util.Number.{Double}
use nson.Value.{Nson, bool, int, real, blob, str, nson_type, type_code}

-- `<` on `int64_t`
abbrev pub int_less : ℤ → ℤ → Bool
int_less (pos a) (pos b) = ltb a b
int_less (pos a) (negsuc b) = false
int_less (negsuc a) (pos b) = true
int_less (negsuc a) (negsuc b) = ltb b a

-- `SCAL_CMP` with the `<` of a type; `a > b` is `b < a`.
abbrev pub scal_cmp_by {ℓ} : {A : Type ℓ} → (A → A → Bool) → A → A → Ordering
scal_cmp_by less a b = if less b a then gt else if less a b then lt else eq

module _ (d : Double) where
  -- The `switch` on the type that the two elements share.
  unfoldable pub cmp_same_type : Nson → Nson → Ordering
  cmp_same_type (str a) (str b) = buf_cmp a b
  cmp_same_type (blob a) (blob b) = buf_cmp a b
  cmp_same_type (real a) (real b) = scal_cmp_by d.less a b
  cmp_same_type (int a) (int b) = scal_cmp_by int_less a b
  cmp_same_type (bool a) (bool b) = scal_cmp_by int_less a b
  cmp_same_type _ _ = eq

  -- The types are compared in reverse.
  unfoldable pub nson_cmp : Nson → Nson → Ordering
  nson_cmp a b = elim (scal_cmp (type_code (nson_type b)) (type_code (nson_type a))) [
    | eq ↦ cmp_same_type a b
    | lt ↦ lt
    | gt ↦ gt
  ]
