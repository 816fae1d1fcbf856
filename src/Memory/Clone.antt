-- ===== src/Memory/Clone.antt =====
-- src/data.c: `nson_clone` shares the buffers and the references, and owns its blocks.
use nson.Prelude.{
  ℕ, zero, suc, ◌+◌, ◌%◌, ◌<◌, ◌≤◌, ◌^◌, ◌≡◌, refl, true, false, some, ◌==◌, arith, sym, ◌∙◌,
  Bool-cases, inl, inr,
}
use nson.Memory.{Resource, buffer, reference, block, Heap, retain, allocate, new_block}
use nson.Memory.Resources.{set, one, is_counted, IsSound, set_up, one_self}
use nson.Memory.Allocate.{allocate_lem}
use nson.Memory.Release.{block_use}

-- What the heap must have for an element to be cloned: it holds what the element uses, and no
-- counter overflows.
pub record Allows (h : Heap) (held : Resource → ℕ) : Type 0 where
  pub sound : IsSound h
  pub enough : (s : Resource) → held s ≤ h.count s
  pub room : (s : Resource) → is_counted s ≡ true → h.count s + held s < 2 ^ 32

-- The heap after a clone that uses `new` was made of what uses `old`.
pub record Cloned (before after : Heap) (old new : Resource → ℕ) : Type 0 where
  pub sound : IsSound after
  pub counts : (s : Resource) → after.count s ≡ before.count s + new s
  pub shared : (s : Resource) → is_counted s ≡ true → new s ≡ old s
  pub grows : before.next ≤ after.next
  pub bytes_kept : after.bytes ≡ before.bytes
  pub refs_kept : after.refs ≡ before.refs
  pub dtors_kept : after.dtor_calls ≡ before.dtor_calls

pub Cloned-append :
    (a b c : Heap) (u u' v v' : Resource → ℕ)
    → Cloned a b u u'
    → Cloned b c v v'
    → Cloned a c (λ s. u s + v s) (λ s. u' s + v' s)
Cloned-append a b c u u' v v' x y = record {
  sound = y.sound;
  counts = λ s. omega (arith, x.counts s, y.counts s);
  shared = λ s c. omega (arith, x.shared s c, y.shared s c);
  grows = omega (arith, x.grows, y.grows);
  bytes_kept = y.bytes_kept ∙ x.bytes_kept;
  refs_kept = y.refs_kept ∙ x.refs_kept;
  dtors_kept = y.dtors_kept ∙ x.dtors_kept;
}

-- The two parts of what an element holds, in the other order.
pub Allows-swap :
    (h : Heap) (u v : Resource → ℕ) → Allows h (λ s. u s + v s) → Allows h (λ s. v s + u s)
Allows-swap h u v ok = record {
  sound = ok.sound;
  enough = λ s. omega (arith, ok.enough s);
  room = λ s c. omega (arith, ok.room s c);
}

pub Cloned-swap :
    (a b : Heap) (u u' v v' : Resource → ℕ)
    → Cloned a b (λ s. u s + v s) (λ s. u' s + v' s)
    → Cloned a b (λ s. v s + u s) (λ s. v' s + u' s)
Cloned-swap a b u u' v v' x = record {
  sound = x.sound;
  counts = λ s. omega (arith, x.counts s);
  shared = λ s c. omega (arith, x.shared s c);
  grows = x.grows;
  bytes_kept = x.bytes_kept;
  refs_kept = x.refs_kept;
  dtors_kept = x.dtors_kept;
}

pub Allows-left : (h : Heap) (u v : Resource → ℕ) → Allows h (λ s. u s + v s) → Allows h u
Allows-left h u v ok = record {
  sound = ok.sound;
  enough = λ s. omega (arith, ok.enough s);
  room = λ s c. omega (arith, ok.room s c);
}

pub Allows-rest :
    (a b : Heap) (u u' v : Resource → ℕ) → Allows a (λ s. u s + v s) → Cloned a b u u' → Allows b v
Allows-rest a b u u' v ok x = record {
  sound = x.sound;
  enough = λ s. omega (arith, ok.enough s, x.counts s);
  room = λ s c. omega (arith, ok.room s c, x.counts s, x.shared s c);
}

pub nothing_new : (h : Heap) → IsSound h → Cloned h h (λ s. 0) (λ s. 0)
nothing_new h ok = record {
  sound = ok;
  counts = λ s. omega arith;
  shared = λ s c. refl;
  grows = omega arith;
  bytes_kept = refl;
  refs_kept = refl;
  dtors_kept = refl;
}

one-block : (r : Resource) (n : ℕ) → is_counted r ≡ true → one r (block n) ≡ 0
unfolding one
one-block (buffer b) n c = refl
one-block (reference p) n c = refl
one-block (block m) n c = absurd (ground arith)

abbrev pub retained : Resource → Heap → Heap
retained r h = record h { count = set r (h.count r + 1) h.count }

pub retain_lem :
    (r : Resource) (h : Heap)
    → is_counted r ≡ true
    → Allows h (one r)
    → retain r h ≡ some (retained r h)
unfolding retain
retain_lem r h c ok =
    let live : (h.count r == 0) ≡ false = ground (arith, ok.enough r, one_self r) in
    let raised : (h.count r + 1) % 2 ^ 32 ≡ h.count r + 1 =
      omega (arith, ok.room r c, one_self r) in
    rw live (rw raised refl)

pub retained-Cloned :
    (r : Resource) (h : Heap)
    → is_counted r ≡ true
    → Allows h (one r)
    → Cloned h (retained r h) (one r) (one r)
retained-Cloned r h c ok =
    let up : (s : Resource) → set r (h.count r + 1) h.count s ≡ h.count s + one r s =
      λ s. set_up r h.count (h.count r + 1) s refl in
    record {
      sound = record {
        fits = λ s cs. omega (arith, up s, ok.room s cs);
        once = λ n. omega (arith, up (block n), ok.sound.once n, one-block r n c);
        fresh = λ s le. omega (arith, up s, ok.enough s, ok.sound.fresh s le);
        next_pos = ok.sound.next_pos;
      };
      counts = up;
      shared = λ s cs. refl;
      grows = omega arith;
      bytes_kept = refl;
      refs_kept = refl;
      dtors_kept = refl;
    }

block_use-counted : (a : ℕ) (s : Resource) → is_counted s ≡ true → block_use a s ≡ 0
unfolding block_use one
block_use-counted zero s c = refl
block_use-counted (suc n) (buffer b) c = refl
block_use-counted (suc n) (reference p) c = refl
block_use-counted (suc n) (block m) c = absurd (ground arith)

pub block_use_pos : (a : ℕ) (s : Resource) → 0 < a → block_use a s ≡ one (block a) s
unfolding block_use
block_use_pos zero s pos = absurd (omega arith)
block_use_pos (suc n) s pos = refl

allocated-Cloned :
    (h : Heap) (a : ℕ) → IsSound h → Cloned h (allocate block h) (block_use a) (block_use h.next)
allocated-Cloned h a ok =
    let (sound, counts) = allocate_lem block h (λ n. refl) ok in
    record {
      sound = sound;
      counts = λ s. omega (arith, counts s, block_use_pos h.next s ok.next_pos);
      shared = λ s c. block_use-counted h.next s c ∙ sym (block_use-counted a s c);
      grows = unfold allocate in omega arith;
      bytes_kept = unfold allocate in refl;
      refs_kept = unfold allocate in refl;
      dtors_kept = unfold allocate in refl;
    }

no_block-Cloned : (h : Heap) (a : ℕ) → IsSound h → Cloned h h (block_use a) (block_use 0)
unfolding block_use
no_block-Cloned h a ok = record {
  sound = ok;
  counts = λ s. omega arith;
  shared = λ s c. sym (block_use-counted a s c);
  grows = omega arith;
  bytes_kept = refl;
  refs_kept = refl;
  dtors_kept = refl;
}

pub new_block-Cloned :
    (h : Heap) (len a : ℕ)
    → IsSound h
    → (a' : ℕ) × (after : Heap) × (new_block len h ≡ (a', after))
      × Cloned h after (block_use a) (block_use a')
unfolding new_block
new_block-Cloned h len a ok = elim (Bool-cases (len == 0)) [
  | inl e ↦ (0, h, rw e refl, no_block-Cloned h a ok)
  | inr e ↦ (h.next, allocate block h, rw e refl, allocated-Cloned h a ok)
]
