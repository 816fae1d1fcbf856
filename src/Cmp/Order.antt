-- ===== src/Cmp/Order.antt =====
-- `nson_cmp` is a total preorder where the `double`s are.
use Prim.Native.Nat.{gt}
use nson.Buf.Order.{swap, buf_cmp-lexicographic, lexicographic-swap, lexicographic_trans}
use nson.Buf.{buf_cmp}
use nson.Cmp.{int_less, scal_cmp_by, cmp_same_type, nson_cmp}
use nson.Prelude.{ℕ, ◌≡◌, ◌≢◌, refl, Bool, true, false, Bytes, arith}
use nson.Prelude.Int.{ℤ, pos, negsuc}
use nson.Util.Number.{Double}
use nson.Value.{Nson, bool, int, real, blob, str, nson_type, type_code}

-- What the C standard says of `<` on `double`s that are no NaN.
pub record IsStrictOrder (less : ℕ → ℕ → Bool) : Type 0 where
  pub asymmetric : (x y : ℕ) → less x y ≡ true → less y x ≡ false
  pub weak : (x y z : ℕ) → less y x ≡ false → less z y ≡ false → less z x ≡ false

buf_cmp-swap : (a b : Bytes) → buf_cmp b a ≡ swap (buf_cmp a b)
buf_cmp-swap a b =
    rw (buf_cmp-lexicographic b a, buf_cmp-lexicographic a b) (lexicographic-swap a b)

buf_cmp_trans : (a b c : Bytes) → buf_cmp a b ≢ gt → buf_cmp b c ≢ gt → buf_cmp a c ≢ gt
buf_cmp_trans a b c p q =
    rw buf_cmp-lexicographic
      (lexicographic_trans a b c (rw buf_cmp-lexicographic at p) (rw buf_cmp-lexicographic at q))

scal_cmp_by-swap :
    (less : ℕ → ℕ → Bool) (x y : ℕ)
    → (less x y ≡ true → less y x ≡ false)
    → scal_cmp_by less y x ≡ swap (scal_cmp_by less x y)
unfolding swap
scal_cmp_by-swap less x y h = ground arith

int_cmp-swap : (a b : ℤ) → scal_cmp_by int_less b a ≡ swap (scal_cmp_by int_less a b)
unfolding swap
int_cmp-swap (pos a) (pos b) = ground arith
int_cmp-swap (pos a) (negsuc b) = refl
int_cmp-swap (negsuc a) (pos b) = refl
int_cmp-swap (negsuc a) (negsuc b) = ground arith

int_cmp_trans :
    (a b c : ℤ)
    → scal_cmp_by int_less a b ≢ gt
    → scal_cmp_by int_less b c ≢ gt
    → scal_cmp_by int_less a c ≢ gt
int_cmp_trans (pos a) (pos b) (pos c) p q = ground arith
int_cmp_trans (pos a) (pos b) (negsuc c) p q = ground arith
int_cmp_trans (pos a) (negsuc b) c p q = absurd (p refl)
int_cmp_trans (negsuc a) b (pos c) p q = cc
int_cmp_trans (negsuc a) (pos b) (negsuc c) p q = absurd (q refl)
int_cmp_trans (negsuc a) (negsuc b) (negsuc c) p q = ground arith

module _ (d : Double) (order : IsStrictOrder d.less) where
  cmp_same_type-swap : (a b : Nson) → cmp_same_type d b a ≡ swap (cmp_same_type d a b)
  unfolding cmp_same_type swap
  cmp_same_type-swap (str a) (str b) = buf_cmp-swap a b
  cmp_same_type-swap (blob a) (blob b) = buf_cmp-swap a b
  cmp_same_type-swap (real a) (real b) = scal_cmp_by-swap d.less a b (order.asymmetric a b)
  cmp_same_type-swap (int a) (int b) = int_cmp-swap a b
  cmp_same_type-swap (bool a) (bool b) = int_cmp-swap a b
  cmp_same_type-swap a b = ground arith

  -- Where `<` on the `double`s is a strict weak order, exchanging the arguments exchanges the verdict.
  pub nson_cmp-swap : (a b : Nson) → nson_cmp d b a ≡ swap (nson_cmp d a b)
  unfolding nson_cmp swap
  nson_cmp-swap a b = ground (arith, cmp_same_type-swap a b)

  abbrev rank : Nson → ℕ
  rank a = type_code (nson_type a)

  cmp_same_type_trans :
      (a b c : Nson)
      → rank a ≡ rank b
      → rank b ≡ rank c
      → cmp_same_type d a b ≢ gt
      → cmp_same_type d b c ≢ gt
      → cmp_same_type d a c ≢ gt
  unfolding cmp_same_type
  cmp_same_type_trans (str a) (str b) (str c) e f p q = buf_cmp_trans a b c p q
  cmp_same_type_trans (blob a) (blob b) (blob c) e f p q = buf_cmp_trans a b c p q
  cmp_same_type_trans (real a) (real b) (real c) e f p q = ground (arith, order.weak a b c)
  cmp_same_type_trans (int a) (int b) (int c) e f p q = int_cmp_trans a b c p q
  cmp_same_type_trans (bool a) (bool b) (bool c) e f p q = int_cmp_trans a b c p q
  cmp_same_type_trans a b c e f p q = ground arith

  -- Where `<` on the `double`s is a strict weak order, not being greater is transitive.
  pub nson_cmp_trans :
      (a b c : Nson) → nson_cmp d a b ≢ gt → nson_cmp d b c ≢ gt → nson_cmp d a c ≢ gt
  unfolding nson_cmp
  nson_cmp_trans a b c p q = ground (arith, cmp_same_type_trans a b c)
