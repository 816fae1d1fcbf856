-- ===== src/Scalar.antt =====
-- src/scalar.c: the accessors of numbers and truth values. `none` is a failed assertion.
use nson.Prelude.{ℕ, Bool, Option, none, some}
use nson.Prelude.Int.{ℤ, pos}
use nson.Util.Number.{Double}
use nson.Value.{Nson, bool, int, real}

module _ (d : Double) where
  unfoldable pub nson_int : Nson → Option ℤ
  nson_int (real r) = some (d.to_int r)
  nson_int (int i) = some i
  nson_int (bool i) = some i
  nson_int _ = none

  unfoldable pub nson_real : Nson → Option ℕ
  nson_real (real r) = some r
  nson_real (int i) = some (d.of_int i)
  nson_real (bool i) = some (d.of_int i)
  nson_real _ = none

unfoldable pub bool_wrap : Bool → Nson
bool_wrap Bool.true = bool (pos 1)
bool_wrap Bool.false = bool (pos 0)

unfoldable pub int_wrap : ℤ → Nson
int_wrap val = int val

unfoldable pub real_wrap : ℕ → Nson
real_wrap val = real val
