-- ===== src/Memory/Allocate.antt =====
-- An allocation on the heap of src/nson.h's resources.
use nson.Prelude.{ℕ, ◌+◌, ◌<◌, ◌≤◌, ◌^◌, ◌≡◌, refl, arith, ap, Bool-cases, inl, inr}
use nson.Memory.{Resource, block, Heap, allocate}
use nson.Memory.Resources.{set, one, address, same, same_eq, IsSound, set_up}

pub one_other : (r s : Resource) → (address r ≡ address s → ⊥) → one r s ≡ 0
unfolding one
one_other r s ne = elim (Bool-cases (same r s)) [
  | inl e ↦ absurd (ne (ap address (same_eq r s e)))
  | inr e ↦ rw e refl
]

set_below :
    (r : Resource) (f : Resource → ℕ) (s : Resource) (bound : ℕ)
    → 1 < bound
    → f s < bound
    → set r 1 f s < bound
unfolding set
set_below r f s bound least le = elim (Bool-cases (same r s)) [
  | inl e ↦ rw e least
  | inr e ↦ rw e le
]

-- The new resource is the only one that gains a holder.
pub allocate_lem :
    (kind : ℕ → Resource) (h : Heap)
    → ((n : ℕ) → address (kind n) ≡ n)
    → IsSound h
    → IsSound (allocate kind h)
      × ((s : Resource) → (allocate kind h).count s ≡ h.count s + one (kind h.next) s)
unfolding allocate
allocate_lem kind h at ok =
    let r = kind h.next in
    let unused = ok.fresh r (omega (arith, at h.next)) in
    let up : (s : Resource) → set r 1 h.count s ≡ h.count s + one r s =
      λ s. set_up r h.count 1 s (omega (arith, unused)) in
    (
      record {
        fits = λ s c. set_below r h.count s (2 ^ 32) (omega arith) (ok.fits s c);
        once = λ n.
            omega (arith, set_below r h.count (block n) 2 (omega arith) (omega (arith, ok.once n)));
        fresh = λ s (le : h.next + 1 ≤ address s). omega (
          arith,
          up s,
          one_other r s (λ (p : address r ≡ address s). omega (arith, at h.next)),
          ok.fresh s (omega arith),
        );
        next_pos = omega arith;
      },
      up,
    )
