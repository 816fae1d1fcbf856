-- ===== src/Memory/Release.antt =====
-- src/nson.c: `nson_clean` gives back what the element holds, and nothing else.
use nson.Prelude.{
  ℕ, zero, suc, ◌+◌, ◌-◌, ◌%◌, ◌<◌, ◌≤◌, ◌^◌, ◌≡◌, refl, true, false, Option, some, ◌==◌, ◌>>=◌,
  if◌then◌else◌, arith, ap, ◌∙◌, Bool-cases, ==_iff, inl, inr,
}
use nson.Memory.{
  Cell, Cells, Entries, nil, bool, int, real, pointer, arr, obj, blob, str, no_cells, cell,
  no_entries, entry, Resource, buffer, reference, block, Heap, release, ptr_release, free_block,
  nson_clean, arr_clean, obj_clean,
}
use nson.Memory.Resources.{set, one, add_one, is_counted, IsSound, set_self, set_down, one_self}

-- How often an element holds a resource.
unfoldable pub block_use : ℕ → Resource → ℕ
block_use zero s = 0
block_use (suc n) s = one (block (suc n)) s

unfoldable mutual
  pub uses : Cell → Resource → ℕ
  uses (blob b) s = one (buffer b) s
  uses (str b) s = one (buffer b) s
  uses (pointer p) s = one (reference p) s
  uses (arr a xs) s = uses_cells xs s + block_use a s
  uses (obj a messy fs) s = uses_entries fs s + block_use a s
  uses _ s = 0

  pub uses_cells : Cells → Resource → ℕ
  uses_cells no_cells s = 0
  uses_cells (cell x xs) s = uses x s + uses_cells xs s

  pub uses_entries : Entries → Resource → ℕ
  uses_entries no_entries s = 0
  uses_entries (entry k v fs) s = uses k s + (uses v s + uses_entries fs s)

-- A reference is alive, or its destructor has been called.
abbrev pub alive : Heap → ℕ → ℕ
alive h p = if h.count (reference p) == 0 then 0 else 1

-- The heap after some resources were given back.
pub record Released (before after : Heap) (held : Resource → ℕ) : Type 0 where
  pub counts : (s : Resource) → after.count s + held s ≡ before.count s
  pub bytes_kept : after.bytes ≡ before.bytes
  pub refs_kept : after.refs ≡ before.refs
  pub next_kept : after.next ≡ before.next
  pub ended : (p : ℕ) → after.dtor_calls p + alive after p ≡ before.dtor_calls p + alive before p

-- What a heap must have for an element to be cleaned.
pub record Holds (h : Heap) (held : Resource → ℕ) : Type 0 where
  pub sound : IsSound h
  pub enough : (s : Resource) → held s ≤ h.count s

-- The steps after one another.
Released-append :
    (a b c : Heap) (u v : Resource → ℕ)
    → Released a b u
    → Released b c v
    → Released a c (λ s. u s + v s)
Released-append a b c u v x y = record {
  counts = λ s. omega (arith, x.counts s, y.counts s);
  bytes_kept = y.bytes_kept ∙ x.bytes_kept;
  refs_kept = y.refs_kept ∙ x.refs_kept;
  next_kept = y.next_kept ∙ x.next_kept;
  ended = λ p. y.ended p ∙ x.ended p;
}

pub Released-IsSound : (a b : Heap) (u : Resource → ℕ) → IsSound a → Released a b u → IsSound b
Released-IsSound a b u ok x = record {
  fits = λ s c. omega (arith, ok.fits s c, x.counts s);
  once = λ n. omega (arith, ok.once n, x.counts (block n));
  fresh =
      λ s (le : b.next ≤ _). omega (arith, x.counts s, ok.fresh s (omega (arith, x.next_kept, le)));
  next_pos = omega (arith, ok.next_pos, x.next_kept);
}

-- The rest can still be given back.
Holds-rest :
    (a b : Heap) (u v : Resource → ℕ) → Holds a (λ s. u s + v s) → Released a b u → Holds b v
Holds-rest a b u v h x = record {
  sound = Released-IsSound a b u h.sound x;
  enough = λ s. omega (arith, h.enough s, x.counts s);
}

release_lem :
    (r : Resource) (h : Heap)
    → is_counted r ≡ true
    → Holds h (one r)
    → release r h ≡ some (record h { count = set r (h.count r - 1) h.count })
unfolding release
release_lem r h c ok =
    let held : 1 ≤ h.count r = omega (arith, ok.enough r, one_self r) in
    let live : (h.count r == 0) ≡ false = ground arith in
    let bound = ok.sound.fits r c in
    let lowered : (h.count r + 2 ^ 32 - 1) % 2 ^ 32 ≡ h.count r - 1 = omega arith in
    rw live (rw lowered refl)

lowered_counts :
    (r : Resource) (h : Heap)
    → Holds h (one r)
    → (s : Resource) → set r (h.count r - 1) h.count s + one r s ≡ h.count s
lowered_counts r h ok s =
    set_down r h.count (h.count r - 1) s (omega (arith, ok.enough r, one_self r))

-- A run that gives back what `held` counts.
abbrev pub GivesBack : Option Heap → Heap → (Resource → ℕ) → Type 0
GivesBack run before held = (after : Heap) × (run ≡ some after) × Released before after held

release-GivesBack :
    (b : ℕ) (h : Heap)
    → Holds h (one (buffer b))
    → GivesBack (release (buffer b) h) h (one (buffer b))
release-GivesBack b h ok = (
  _,
  release_lem (buffer b) h refl ok,
  record {
    counts = lowered_counts (buffer b) h ok;
    bytes_kept = refl;
    refs_kept = refl;
    next_kept = refl;
    ended = λ p. unfold set in refl;
  },
)

-- The reference that has lost its last holder is counted among the destroyed ones.
destroyed_ends :
    (p : ℕ) (h : Heap) (q : ℕ)
    → h.count (reference p) ≡ 1
    → let r = reference p in
      let after = record h {
        count = set r (h.count r - 1) h.count;
        dtor_calls = add_one p h.dtor_calls;
      } in
      after.dtor_calls q + alive after q ≡ h.dtor_calls q + alive h q
unfolding set add_one
destroyed_ends p h q last = elim (Bool-cases (p == q)) [
  | inl e ↦
      let moved : h.count (reference p) ≡ h.count (reference q) =
        ap (λ t. h.count (reference t)) ((==_iff p q).0 e) in
      rw e (ground arith)
  | inr e ↦ rw e refl
]

kept_alive :
    (p : ℕ) (h : Heap) (q : ℕ)
    → 1 < h.count (reference p)
    → let r = reference p in
      let after = record h { count = set r (h.count r - 1) h.count } in
      h.dtor_calls q + alive after q ≡ h.dtor_calls q + alive h q
unfolding set
kept_alive p h q more = elim (Bool-cases (p == q)) [
  | inl e ↦
      let moved : h.count (reference p) ≡ h.count (reference q) =
        ap (λ t. h.count (reference t)) ((==_iff p q).0 e) in
      rw e (ground arith)
  | inr e ↦ rw e refl
]

ptr_release-GivesBack :
    (p : ℕ) (h : Heap)
    → Holds h (one (reference p))
    → GivesBack (ptr_release p h) h (one (reference p))
unfolding ptr_release
ptr_release-GivesBack p h ok =
    let r = reference p in
    let n = h.count r in
    let held : 1 ≤ n = omega (arith, ok.enough r, one_self r) in
    let after = record h { count = set r (n - 1) h.count } in
    let released = release_lem r h refl ok in
    let left = set_self r (n - 1) h.count in
    elim (Bool-cases (n - 1 == 0)) [
      | inl e ↦ (
        record after { dtor_calls = add_one p h.dtor_calls },
        rw released (rw left (rw e refl)),
        record {
          counts = lowered_counts r h ok;
          bytes_kept = refl;
          refs_kept = refl;
          next_kept = refl;
          ended = λ q. destroyed_ends p h q (ground arith);
        },
      )
      | inr e ↦ (
        after,
        rw released (rw left (rw e refl)),
        record {
          counts = lowered_counts r h ok;
          bytes_kept = refl;
          refs_kept = refl;
          next_kept = refl;
          ended = λ q. kept_alive p h q (ground arith);
        },
      )
    ]

pub free_block-GivesBack :
    (a : ℕ) (h : Heap) → Holds h (block_use a) → GivesBack (free_block a h) h (block_use a)
unfolding free_block block_use
free_block-GivesBack zero h ok = (
  h,
  refl,
  record {
    counts = λ s. omega arith;
    bytes_kept = refl;
    refs_kept = refl;
    next_kept = refl;
    ended = λ p. refl;
  },
)
free_block-GivesBack (suc n) h ok =
    let r = block (suc n) in
    let single : h.count r ≡ 1 = omega (arith, ok.enough r, ok.sound.once (suc n), one_self r) in
    let live : (h.count r == 0) ≡ false = ground arith in
    (
      record h { count = set r 0 h.count },
      rw live refl,
      record {
        counts = λ s. set_down r h.count 0 s (omega (arith, single));
        bytes_kept = refl;
        refs_kept = refl;
        next_kept = refl;
        ended = λ p. unfold set in refl;
      },
    )

-- Two runs after one another.
and_then :
    (first : Option Heap) (next : Heap → Option Heap) (h : Heap) (u v : Resource → ℕ)
    → GivesBack first h u
    → Holds h (λ s. u s + v s)
    → ((after : Heap) → Holds after v → GivesBack (next after) after v)
    → GivesBack (first >>= next) h (λ s. u s + v s)
and_then first next h u v (b, run, x) ok rest =
    let (c, run', y) = rest b (Holds-rest h b u v ok x) in
    (c, rw run run', Released-append h b c u v x y)

Holds-left : (h : Heap) (u v : Resource → ℕ) → Holds h (λ s. u s + v s) → Holds h u
Holds-left h u v ok = record { sound = ok.sound; enough = λ s. omega (arith, ok.enough s) }

nothing_held : (h : Heap) → GivesBack (some h) h (λ s. 0)
nothing_held h = (
  h,
  refl,
  record {
    counts = λ s. omega arith;
    bytes_kept = refl;
    refs_kept = refl;
    next_kept = refl;
    ended = λ p. refl;
  },
)

-- The cleaning of an element that the heap holds ends, without a use of freed memory.
mutual
  unfolding nson_clean uses

  pub nson_clean-GivesBack :
      (x : Cell) (h : Heap) → Holds h (uses x) → GivesBack (nson_clean x h) h (uses x)
  nson_clean-GivesBack nil h ok = nothing_held h
  nson_clean-GivesBack (bool i) h ok = nothing_held h
  nson_clean-GivesBack (int i) h ok = nothing_held h
  nson_clean-GivesBack (real r) h ok = nothing_held h
  nson_clean-GivesBack (pointer p) h ok = ptr_release-GivesBack p h ok
  nson_clean-GivesBack (blob b) h ok = release-GivesBack b h ok
  nson_clean-GivesBack (str b) h ok = release-GivesBack b h ok
  nson_clean-GivesBack (arr a xs) h ok =
      and_then (arr_clean xs h) (free_block a) h (uses_cells xs) (block_use a)
        (arr_clean-GivesBack xs h (Holds-left h (uses_cells xs) (block_use a) ok)) ok
        (free_block-GivesBack a)
  nson_clean-GivesBack (obj a messy fs) h ok =
      and_then (obj_clean fs h) (free_block a) h (uses_entries fs) (block_use a)
        (obj_clean-GivesBack fs h (Holds-left h (uses_entries fs) (block_use a) ok)) ok
        (free_block-GivesBack a)

  arr_clean-GivesBack :
      (xs : Cells) (h : Heap)
      → Holds h (uses_cells xs)
      → GivesBack (arr_clean xs h) h (uses_cells xs)
  arr_clean-GivesBack no_cells h ok = nothing_held h
  arr_clean-GivesBack (cell x xs) h ok =
      and_then (nson_clean x h) (arr_clean xs) h (uses x) (uses_cells xs)
        (nson_clean-GivesBack x h (Holds-left h (uses x) (uses_cells xs) ok)) ok
        (arr_clean-GivesBack xs)

  obj_clean-GivesBack :
      (fs : Entries) (h : Heap)
      → Holds h (uses_entries fs)
      → GivesBack (obj_clean fs h) h (uses_entries fs)
  obj_clean-GivesBack no_entries h ok = nothing_held h
  obj_clean-GivesBack (entry k v fs) h ok =
      let rest : Resource → ℕ = λ s. uses v s + uses_entries fs s in
      and_then (nson_clean k h) (λ h'. nson_clean v h' >>= obj_clean fs) h (uses k) rest
        (nson_clean-GivesBack k h (Holds-left h (uses k) rest ok)) ok
        (λ h' ok'.
          and_then (nson_clean v h') (obj_clean fs) h' (uses v) (uses_entries fs)
            (nson_clean-GivesBack v h' (Holds-left h' (uses v) (uses_entries fs) ok')) ok'
            (obj_clean-GivesBack fs))

-- An element that a sound heap holds is cleaned without a use of freed memory. Every counter falls
-- by the number of times that the element holds the resource, what is left keeps its contents, and
-- of the references that were alive each is still alive or has had its destructor called once.
pub nson_clean_lem :
    (x : Cell) (h : Heap)
    → IsSound h
    → ((s : Resource) → uses x s ≤ h.count s)
    → (after : Heap) × (nson_clean x h ≡ some after)
      × IsSound after
      × ((s : Resource) → after.count s + uses x s ≡ h.count s)
      × ((p : ℕ) → after.dtor_calls p + alive after p ≡ h.dtor_calls p + alive h p)
      × (after.bytes ≡ h.bytes)
nson_clean_lem x h ok enough =
    let (after, run, released) =
      nson_clean-GivesBack x h (record { sound = ok; enough = enough }) in
    (
      after,
      run,
      Released-IsSound h after (uses x) ok released,
      released.counts,
      released.ended,
      released.bytes_kept,
    )
