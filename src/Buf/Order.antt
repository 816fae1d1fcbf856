-- ===== src/Buf/Order.antt =====
-- The order of buffers is the lexicographic order of their contents.
use Prim.Native.Nat.{compare, Ordering, lt, eq, gt}
use nson.Buf.{memcmp, buf_cmp}
use nson.Prelude.{◌≡◌, ◌≢◌, ◌↔◌, refl, [], ◌∷◌, Bytes, arith}

-- Byte by byte, and a proper prefix comes first.
unfoldable pub lexicographic : Bytes → Bytes → Ordering
lexicographic [] [] = eq
lexicographic [] (y ∷ b) = lt
lexicographic (x ∷ a) [] = gt
lexicographic (x ∷ a) (y ∷ b) = elim (compare x y) [ eq ↦ lexicographic a b | lt ↦ lt | gt ↦ gt ]

unfoldable pub swap : Ordering → Ordering
swap lt = gt
swap eq = eq
swap gt = lt

-- `__nson_buf_cmp` orders buffers as their contents are ordered lexicographically.
pub buf_cmp-lexicographic : (a b : Bytes) → buf_cmp a b ≡ lexicographic a b
unfolding buf_cmp memcmp lexicographic
buf_cmp-lexicographic [] [] = refl
buf_cmp-lexicographic [] (y ∷ b) = ground arith
buf_cmp-lexicographic (x ∷ a) [] = ground arith
buf_cmp-lexicographic (x ∷ a) (y ∷ b) = ground (arith, buf_cmp-lexicographic a b)

pub lexicographic-swap : (a b : Bytes) → lexicographic b a ≡ swap (lexicographic a b)
unfolding lexicographic swap
lexicographic-swap [] [] = refl
lexicographic-swap [] (y ∷ b) = refl
lexicographic-swap (x ∷ a) [] = refl
lexicographic-swap (x ∷ a) (y ∷ b) = ground (arith, lexicographic-swap a b)

pub lexicographic-eq_iff : (a b : Bytes) → (lexicographic a b ≡ eq) ↔ (a ≡ b)
unfolding lexicographic
lexicographic-eq_iff [] [] = ground arith
lexicographic-eq_iff [] (y ∷ b) = ground arith
lexicographic-eq_iff (x ∷ a) [] = ground arith
lexicographic-eq_iff (x ∷ a) (y ∷ b) = ground (arith, lexicographic-eq_iff a b)

pub lexicographic_trans :
    (a b c : Bytes) → lexicographic a b ≢ gt → lexicographic b c ≢ gt → lexicographic a c ≢ gt
unfolding lexicographic
lexicographic_trans [] [] c p q = q
lexicographic_trans [] (y ∷ b) [] p q = cc
lexicographic_trans [] (y ∷ b) (z ∷ c) p q = cc
lexicographic_trans (x ∷ a) [] c p q = absurd (p refl)
lexicographic_trans (x ∷ a) (y ∷ b) [] p q = absurd (q refl)
lexicographic_trans (x ∷ a) (y ∷ b) (z ∷ c) p q = ground (arith, lexicographic_trans a b c)
