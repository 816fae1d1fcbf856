-- ===== src/Memory/Resources.antt =====
-- What the elements of src/nson.h share or own, and the heap that counts it.
use nson.Prelude.{
  ◌⊎◌, ℕ, ◌+◌, ◌<◌, ◌≤◌, ◌^◌, ◌≡◌, refl, Bool, true, false, Bytes, ◌==◌, if◌then◌else◌, arith, ap,
  ◌∙◌, Bool-cases, inl, inr,
}

-- A `struct NsonBuf`, a `struct NsonPointerRef`, and the memory behind `a.arr` or `o.arr`.
pub data Resource : Type 0 where
  buffer reference block : ℕ → Resource

abbrev pub address : Resource → ℕ
address (buffer n) = n
address (reference n) = n
address (block n) = n

-- The resources that have a member `count`.
abbrev pub is_counted : Resource → Bool
is_counted (block n) = false
is_counted _ = true

abbrev pub same : Resource → Resource → Bool
same (buffer m) (buffer n) = m == n
same (reference m) (reference n) = m == n
same (block m) (block n) = m == n
same _ _ = false

-- The member `dtor`: the function of src/pointer.c that does nothing, or the address of another.
pub data Destructor : Type 0 where
  noop_dtor : Destructor
  given : ℕ → Destructor

-- `struct NsonPointerRef` less its counter.
pub record NsonPointerRef : Type 0 where
  pub dtor : Destructor
  pub ptr : ℕ

-- `count` has the member `count` of a buffer and a reference and 1 for a block, and 0 for what is
-- not allocated; `dtor_calls` counts the calls of a reference's destructor. No address from `next`
-- on has been allocated.
pub record Heap : Type 0 where
  pub count : Resource → ℕ
  pub bytes : ℕ → Bytes
  pub refs : ℕ → NsonPointerRef
  pub dtor_calls : ℕ → ℕ
  pub next : ℕ

unfoldable pub set : Resource → ℕ → (Resource → ℕ) → Resource → ℕ
set r n f s = if same r s then n else f s

unfoldable pub put_at {ℓ} : {A : Type ℓ} → ℕ → A → (ℕ → A) → ℕ → A
put_at p a f q = if p == q then a else f q

unfoldable pub add_one : ℕ → (ℕ → ℕ) → ℕ → ℕ
add_one p f q = if p == q then f q + 1 else f q

-- 1 at one resource.
unfoldable pub one : Resource → Resource → ℕ
one r s = if same r s then 1 else 0

pub same_eq : (r s : Resource) → same r s ≡ true → r ≡ s
same_eq (buffer m) (buffer n) h = ap buffer (ground arith)
same_eq (reference m) (reference n) h = ap reference (ground arith)
same_eq (block m) (block n) h = ap block (ground arith)
same_eq (buffer m) (reference n) h = absurd (ground arith)
same_eq (buffer m) (block n) h = absurd (ground arith)
same_eq (reference m) (buffer n) h = absurd (ground arith)
same_eq (reference m) (block n) h = absurd (ground arith)
same_eq (block m) (buffer n) h = absurd (ground arith)
same_eq (block m) (reference n) h = absurd (ground arith)

pub same_self : (r : Resource) → same r r ≡ true
same_self (buffer m) = ground arith
same_self (reference m) = ground arith
same_self (block m) = ground arith

pub one_self : (r : Resource) → one r r ≡ 1
unfolding one
one_self r = rw (same_self r) refl

pub set_self : (r : Resource) (n : ℕ) (f : Resource → ℕ) → set r n f r ≡ n
unfolding set
set_self r n f = rw (same_self r) refl

-- A counter lowered and raised by one, at every resource.
pub set_down :
    (r : Resource) (f : Resource → ℕ) (n : ℕ) (s : Resource)
    → n + 1 ≡ f r
    → set r n f s + one r s ≡ f s
unfolding set one
set_down r f n s h = elim (Bool-cases (same r s)) [
  | inl e ↦ rw e (h ∙ ap f (same_eq r s e))
  | inr e ↦ rw e (omega arith)
]

pub set_up :
    (r : Resource) (f : Resource → ℕ) (n : ℕ) (s : Resource)
    → n ≡ f r + 1
    → set r n f s ≡ f s + one r s
unfolding set one
set_up r f n s h = elim (Bool-cases (same r s)) [
  | inl e ↦ rw e (h ∙ ap (λ t. f t + 1) (same_eq r s e))
  | inr e ↦ rw e (omega arith)
]

-- The counters fit, a block is owned once, and what is not yet allocated has no counter.
pub record IsSound (h : Heap) : Type 0 where
  pub fits : (s : Resource) → is_counted s ≡ true → h.count s < 2 ^ 32
  pub once : (n : ℕ) → h.count (block n) ≤ 1
  pub fresh : (s : Resource) → h.next ≤ address s → h.count s ≡ 0
  pub next_pos : 0 < h.next

pub one_cases : (r s : Resource) → ((r ≡ s) × (one r s ≡ 1)) ⊎ (one r s ≡ 0)
unfolding one
one_cases r s = elim (Bool-cases (same r s)) [
  | inl e ↦ inl (same_eq r s e, rw e refl)
  | inr e ↦ inr (rw e refl)
]
