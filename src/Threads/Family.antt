-- ===== src/Threads/Family.antt =====
-- Families over the ids of the threads, changed at one id, and sums over the first `n` ids.
use nson.Prelude.{
  ℕ, zero, suc, ◌+◌, ◌<◌, ◌≡◌, refl, true, false, ◌==◌, if◌then◌else◌, arith, ap, sym, ◌∙◌,
  Bool-cases, inl, inr,
}

abbrev pub update {ℓ} : {A : Type ℓ} → (ℕ → A) → ℕ → A → ℕ → A
update f i a j = if i == j then a else f j

unfoldable pub sum_below : ℕ → (ℕ → ℕ) → ℕ
sum_below zero w = 0
sum_below (suc n) w = sum_below n w + w n

-- Families that agree have one sum.
pub sum_below-congruent :
    (n : ℕ) (v w : ℕ → ℕ) → ((i : ℕ) → i < n → v i ≡ w i) → sum_below n v ≡ sum_below n w
unfolding sum_below
sum_below-congruent zero v w h = refl
sum_below-congruent (suc n) v w h =
    omega (arith, sum_below-congruent n v w (λ i hi. h i (omega arith)), h n (omega arith))

-- Families that agree but at one id.
pub sum_below_change :
    (n k : ℕ) (v w : ℕ → ℕ)
    → k < n
    → ((i : ℕ) → (i ≡ k → ⊥) → v i ≡ w i)
    → sum_below n v + w k ≡ sum_below n w + v k
unfolding sum_below
sum_below_change zero k v w h same = absurd (omega arith)
sum_below_change (suc n) k v w h same = elim (Bool-cases (k == n)) [
  | inl last ↦
      let e : k ≡ n = ground arith in
      omega (
        arith,
        ap v e,
        ap w e,
        sum_below-congruent n v w (λ i hi. same i (λ (p : i ≡ k). omega arith)),
      )
  | inr inner ↦
      omega
        (arith, sum_below_change n k v w (ground arith) same, same n (λ (p : n ≡ k). ground arith))
]

pub update_self {ℓ} : {A : Type ℓ} (f : ℕ → A) (i : ℕ) (a : A) → update f i a i ≡ a
update_self f i a = let e : (i == i) ≡ true = ground arith in rw e

pub update_ne {ℓ} : {A : Type ℓ} (f : ℕ → A) (i j : ℕ) (a : A) → (j ≡ i → ⊥) → update f i a j ≡ f j
update_ne f i j a h = let e : (i == j) ≡ false = ground (arith, λ (p : i ≡ j). h (sym p)) in rw e

-- A sum of weights over a family that changes at one id.
pub sum_below-update {ℓ} :
    {A : Type ℓ} (weight : A → ℕ) (n : ℕ) (f : ℕ → A) (i : ℕ) (a : A)
    → i < n
    → sum_below n (λ j. weight (update f i a j)) + weight (f i)
      ≡ sum_below n (λ j. weight (f j)) + weight a
sum_below-update weight n f i a h =
    sum_below_change n i (λ j. weight (update f i a j)) (λ j. weight (f j)) h
      (λ j ne. ap weight (update_ne f i j a ne))
    ∙ ap (λ t. sum_below n (λ j. weight (f j)) + weight t) (update_self f i a)
