-- ===== src/Memory/Program/Balance.antt =====
-- The counters of a program's heap are the holders among its variables: what may change both.
use nson.Prelude.{
  ℕ, ◌+◌, ◌≤◌, ◌≡◌, refl, Bytes, [], ◌==◌, arith, Bool-cases, inl, inr, sym, ◌∙◌, ap,
}
use nson.Memory.{Resource, reference, block, Heap, allocate}
use nson.Memory.Resources.{NsonPointerRef, IsSound, address, one}
use nson.Memory.Allocate.{allocate_lem, one_other}
use nson.Memory.Release.{alive, Released, Released-IsSound}
use nson.Memory.Clone.{Cloned}
use nson.Memory.Program.{Store, store, IsEmpty}
use nson.Memory.Program.Pieces.{total}

-- Each counter is the number of the holders, and a destructor is called once at most, when its
-- reference is no longer alive.
pub record Balanced (held : Resource → ℕ) (h : Heap) : Type 0 where
  pub sound : IsSound h
  pub exact : (s : Resource) → held s ≡ h.count s
  pub once : (p : ℕ) → h.dtor_calls p + alive h p ≤ 1
  pub unborn : (p : ℕ) → h.next ≤ p → h.dtor_calls p ≡ 0

-- The holders are the variables.
abbrev pub IsBalanced : Store → Type 0
IsBalanced t = Balanced (total t.vars) t.heap

alive_dead : (h : Heap) (p : ℕ) → h.count (reference p) ≡ 0 → alive h p ≡ 0
alive_dead h p e = ground (arith, e)

alive_le : (h : Heap) (p : ℕ) → alive h p ≤ 1
alive_le h p = ground arith

alive_same :
    (a b : Heap) (p : ℕ)
    → (a.count (reference p) ≡ 0 → b.count (reference p) ≡ 0)
    → a.count (reference p) ≤ b.count (reference p)
    → alive b p ≡ alive a p
alive_same a b p dead le = elim (Bool-cases (a.count (reference p) == 0)) [
  | inl e ↦
      let none_left = dead (ground arith) in
      alive_dead b p none_left ∙ sym (alive_dead a p (ground arith))
  | inr e ↦ ground arith
]

pub IsBalanced-start : (h : Heap) → IsEmpty h → IsBalanced (store [] h)
unfolding total
IsBalanced-start h (counts, calls, pos) = record {
  sound = record {
    fits = λ s c. omega (arith, counts s);
    once = λ n. omega (arith, counts (block n));
    fresh = λ s le. counts s;
    next_pos = pos;
  };
  exact = λ s. omega (arith, counts s);
  once = λ p. ground (arith, calls p, counts (reference p));
  unborn = λ p le. calls p;
}

-- Only the variables change, and hold what they held.
pub same_holders :
    (u v : Resource → ℕ) (h : Heap) → Balanced u h → ((s : Resource) → v s ≡ u s) → Balanced v h
same_holders u v h ok e = record {
  sound = ok.sound;
  exact = λ s. omega (arith, e s, ok.exact s);
  once = ok.once;
  unborn = ok.unborn;
}

-- The contents of buffers and references do not matter.
pub new_contents :
    (u : Resource → ℕ) (h : Heap) (g : ℕ → Bytes) (r : ℕ → NsonPointerRef)
    → Balanced u h
    → Balanced u (record h { bytes = g; refs = r })
new_contents u h g r ok = record {
  sound = record {
    fits = ok.sound.fits;
    once = ok.sound.once;
    fresh = ok.sound.fresh;
    next_pos = ok.sound.next_pos;
  };
  exact = ok.exact;
  once = ok.once;
  unborn = ok.unborn;
}

pub after_release :
    (u v : Resource → ℕ) (a b : Heap) (w : Resource → ℕ)
    → Balanced u a
    → Released a b w
    → ((s : Resource) → v s + w s ≡ u s)
    → Balanced v b
after_release u v a b w ok x e = record {
  sound = Released-IsSound a b w ok.sound x;
  exact = λ s. omega (arith, e s, ok.exact s, x.counts s);
  once = λ p. omega (arith, ok.once p, x.ended p);
  unborn = λ p (le : b.next ≤ p).
      let unborn : a.next ≤ p = omega (arith, x.next_kept, le) in
      omega (
        arith,
        x.ended p,
        ok.unborn p unborn,
        alive_dead a p (ok.sound.fresh (reference p) unborn),
      );
}

pub after_allocate :
    (kind : ℕ → Resource) (u v : Resource → ℕ) (h : Heap)
    → ((n : ℕ) → address (kind n) ≡ n)
    → Balanced u h
    → ((s : Resource) → v s ≡ u s + one (kind h.next) s)
    → Balanced v (allocate kind h)
after_allocate kind u v h at ok e =
    let (sound, counts) = allocate_lem kind h at ok.sound in
    record {
      sound = sound;
      exact = λ s. omega (arith, e s, counts s, ok.exact s);
      once = λ p.
          let dtors : (allocate kind h).dtor_calls p ≡ h.dtor_calls p = unfold allocate in refl in
          elim (Bool-cases (h.next == p)) [
            | inl e ↦
                let calls = ok.unborn p (ground arith) in
                omega (arith, calls, alive_le (allocate kind h) p, dtors)
            | inr e ↦
                let apart =
                  one_other (kind h.next) (reference p)
                    (λ (e' : address (kind h.next) ≡ p). ground (arith, at h.next)) in
                let kept : (allocate kind h).count (reference p) ≡ h.count (reference p) =
                  omega (arith, counts (reference p), apart) in
                omega (
                  arith,
                  ok.once p,
                  dtors,
                  alive_same h (allocate kind h) p (λ z. kept ∙ z) (omega (arith, kept)),
                )
          ];
      unborn = λ p le. unfold allocate in ok.unborn p (omega (arith, le));
    }

pub after_clone :
    (u v : Resource → ℕ) (a b : Heap) (old new : Resource → ℕ)
    → Balanced u a
    → Cloned a b old new
    → ((s : Resource) → old s ≤ a.count s)
    → ((s : Resource) → v s ≡ u s + new s)
    → Balanced v b
after_clone u v a b old new ok x enough e = record {
  sound = x.sound;
  exact = λ s. omega (arith, e s, ok.exact s, x.counts s);
  once = λ p.
      let grown = x.counts (reference p) in
      let shared = x.shared (reference p) refl in
      omega (
        arith,
        ok.once p,
        ap (λ f. f p) x.dtors_kept,
        alive_same a b p (λ (z : a.count (reference p) ≡ 0). omega (arith, enough (reference p)))
            (omega arith),
      );
  unborn = λ p (le : b.next ≤ p). ap (λ f. f p) x.dtors_kept ∙ ok.unborn p (omega (arith, x.grows));
}
