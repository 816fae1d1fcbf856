-- ===== src/Memory/Copy.antt =====
-- src/data.c: what `nson_clone` makes is a deep copy.
use nson.Prelude.{
  ◌⊎◌, ℕ, ◌+◌, ◌≤◌, ◌≡◌, refl, Bool, true, false, ◌||◌, none, some, Bytes, ◌>>=◌, arith, ap, ◌∙◌,
  Bool-cases, Option-cases, inl, inr,
}
use nson.Value.{Nson}
use nson.Memory.{
  Cell, Cells, nil, bool, int, real, pointer, arr, obj, blob, str, no_cells, cell, Resource, buffer,
  reference, Heap, retain, cells_len, arr_clone_block, obj_clone_block, nson_arr_len,
  nson_mapper_clone, arr_clone, nson_clone, nson_clean,
}
use nson.Memory.Resources.{one, is_counted}
use nson.Memory.Release.{uses, uses_cells, block_use, Released-IsSound, nson_clean-GivesBack}
use nson.Memory.Clone.{
  Allows, Cloned, Cloned-append, Allows-left, Allows-rest, retained, retain_lem, retained-Cloned,
  new_block-Cloned, nothing_new, Allows-swap, Cloned-swap,
}
use nson.Memory.View.{view, value, values, view_held}

-- An object somewhere inside, which makes the assertion in `__nson_obj_clone` fail.
unfoldable mutual
  pub has_object : Cell → Bool
  has_object (obj a messy fs) = true
  has_object (arr a xs) = have_object xs
  has_object _ = false

  pub have_object : Cells → Bool
  have_object no_cells = false
  have_object (cell x xs) = has_object x || have_object xs

-- The clone of an element, and that of the elements of an array.
abbrev pub ClonesTo : Cell → Heap → Type 0
ClonesTo x h =
    (x' : Cell) × (after : Heap) × (nson_mapper_clone x h ≡ some (x', after))
    × Cloned h after (uses x) (uses x')
    × ((g : ℕ → Bytes) → value x' g ≡ value x g)

abbrev AllCloneTo : Cells → Heap → Type 0
AllCloneTo xs h =
    (xs' : Cells) × (after : Heap) × (arr_clone xs h ≡ some (xs', after))
    × Cloned h after (uses_cells xs) (uses_cells xs')
    × ((g : ℕ → Bytes) → values xs' g ≡ values xs g)

neither : (a b : Bool) → (a || b) ≡ false → (a ≡ false) × (b ≡ false)
neither false b h = (refl, h)
neither true b h = absurd (ground arith)

cells_after :
    (x : Cell) (xs : Cells) (h : Heap)
    → Allows h (λ s. uses x s + uses_cells xs s)
    → ClonesTo x h
    → ((after : Heap) → Allows after (uses_cells xs) → AllCloneTo xs after)
    → AllCloneTo (cell x xs) h
unfolding nson_mapper_clone uses value
cells_after x xs h ok (x', b, run, cloned, same) rest =
    let (xs', c, run', cloned', same') =
      rest b (Allows-rest h b (uses x) (uses x') (uses_cells xs) ok cloned) in
    (
      cell x' xs',
      c,
      rw run (rw run' refl),
      Cloned-append h b c (uses x) (uses x') (uses_cells xs) (uses_cells xs') cloned cloned',
      λ g. rw (same g) (rw (same' g) refl),
    )

-- One more holder of a buffer or a reference.
holder-ClonesTo :
    (x : Cell) (r : Resource) (h : Heap)
    → is_counted r ≡ true
    → Allows h (one r)
    → nson_mapper_clone x h ≡ (retain r h >>= (λ after. some (x, after)))
    → uses x ≡ one r
    → ClonesTo x h
holder-ClonesTo x r h c ok run held =
    let counted = retained-Cloned r h c ok in
    (x, retained r h, run ∙ rw (retain_lem r h c ok) refl, rw held counted, λ g. refl)

block_after :
    (a : ℕ) (xs : Cells) (h : Heap)
    → Allows h (uses (arr a xs))
    → ((after : Heap) → Allows after (uses_cells xs) → AllCloneTo xs after)
    → ClonesTo (arr a xs) h
unfolding nson_mapper_clone arr_clone_block nson_arr_len uses value
block_after a xs h ok rest =
    let (a', b, run, fresh) = new_block-Cloned h (cells_len xs) a ok.sound in
    let (xs', c, run', cloned, same) = rest b (
      Allows-rest h b (block_use a) (block_use a') (uses_cells xs)
        (Allows-swap h (uses_cells xs) (block_use a) ok) fresh) in
    (
      arr a' xs',
      c,
      rw run (rw run' refl),
      Cloned-swap h c (block_use a) (block_use a') (uses_cells xs) (uses_cells xs') (
          Cloned-append h b c (block_use a) (block_use a') (uses_cells xs) (uses_cells xs') fresh
            cloned),
      λ g. rw (same g) refl,
    )

mutual
  unfolding nson_mapper_clone uses has_object

  pub nson_mapper_clone-ClonesTo :
      (x : Cell) (h : Heap) → has_object x ≡ false → Allows h (uses x) → ClonesTo x h
  nson_mapper_clone-ClonesTo nil h plain ok = (nil, h, refl, nothing_new h ok.sound, λ g. refl)
  nson_mapper_clone-ClonesTo (bool i) h plain ok =
      (bool i, h, refl, nothing_new h ok.sound, λ g. refl)
  nson_mapper_clone-ClonesTo (int i) h plain ok =
      (int i, h, refl, nothing_new h ok.sound, λ g. refl)
  nson_mapper_clone-ClonesTo (real r) h plain ok =
      (real r, h, refl, nothing_new h ok.sound, λ g. refl)
  nson_mapper_clone-ClonesTo (pointer p) h plain ok =
      holder-ClonesTo (pointer p) (reference p) h refl ok refl refl
  nson_mapper_clone-ClonesTo (blob b) h plain ok =
      holder-ClonesTo (blob b) (buffer b) h refl ok refl refl
  nson_mapper_clone-ClonesTo (str b) h plain ok =
      holder-ClonesTo (str b) (buffer b) h refl ok refl refl
  nson_mapper_clone-ClonesTo (obj a messy fs) h plain ok = absurd (ground arith)
  nson_mapper_clone-ClonesTo (arr a xs) h plain ok =
      block_after a xs h ok (λ after. arr_clone-AllCloneTo xs after plain)

  arr_clone-AllCloneTo :
      (xs : Cells) (h : Heap) → have_object xs ≡ false → Allows h (uses_cells xs) → AllCloneTo xs h
  arr_clone-AllCloneTo no_cells h plain ok = (no_cells, h, refl, nothing_new h ok.sound, λ g. refl)
  arr_clone-AllCloneTo (cell x xs) h plain ok =
      let (plain_x, plain_xs) = neither (has_object x) (have_object xs) plain in
      cells_after x xs h ok
        (nson_mapper_clone-ClonesTo x h plain_x (Allows-left h (uses x) (uses_cells xs) ok))
        (λ after. arr_clone-AllCloneTo xs after plain_xs)

-- The assertion that `__nson_obj_clone` runs into.
mutual
  unfolding nson_mapper_clone arr_clone_block obj_clone_block nson_arr_len has_object

  pub mapper_clone_object :
      (x : Cell) (h : Heap) → has_object x ≡ true → nson_mapper_clone x h ≡ none
  mapper_clone_object nil h e = absurd (ground arith)
  mapper_clone_object (bool i) h e = absurd (ground arith)
  mapper_clone_object (int i) h e = absurd (ground arith)
  mapper_clone_object (real r) h e = absurd (ground arith)
  mapper_clone_object (pointer p) h e = absurd (ground arith)
  mapper_clone_object (blob b) h e = absurd (ground arith)
  mapper_clone_object (str b) h e = absurd (ground arith)
  mapper_clone_object (obj a messy fs) h e = refl
  mapper_clone_object (arr a xs) h e = rw (arr_clone_object xs _ e) refl

  arr_clone_object : (xs : Cells) (h : Heap) → have_object xs ≡ true → arr_clone xs h ≡ none
  arr_clone_object no_cells h e = absurd (ground arith)
  arr_clone_object (cell x xs) h e = elim (Bool-cases (has_object x)) [
    | inl inside ↦ rw (mapper_clone_object x h inside) refl
    | inr outside ↦
        let later : have_object xs ≡ true = rw outside at e in
        elim (Option-cases (nson_mapper_clone x h)) [
          | inl failed ↦ rw failed refl
          | inr (made, run) ↦ rw run (rw (arr_clone_object xs made.1 later) refl)
        ]
  ]

-- An element is cloned exactly when it has no object inside. The clone has the element's value and
-- keeps it when the element is cleaned, and when both are cleaned all counters are back.
pub nson_clone-nson_clean :
    (x : Cell) (h : Heap)
    → Allows h (uses x)
    → ((has_object x ≡ true) × (nson_clone x h ≡ none))
      ⊎ ((has_object x ≡ false)
          × (v : Nson) × (y : Cell) × (made cleaned ended : Heap) × (view x h ≡ some v)
          × (nson_clone x h ≡ some (y, made))
          × (view y made ≡ some v)
          × (nson_clean x made ≡ some cleaned)
          × (view y cleaned ≡ some v)
          × (nson_clean y cleaned ≡ some ended)
          × ((s : Resource) → ended.count s + uses x s ≡ h.count s))
unfolding nson_clone
nson_clone-nson_clean x h ok = elim (Bool-cases (has_object x)) [
  | inl e ↦ inl (e, mapper_clone_object x h e)
  | inr e ↦
      let (y, made, run, cloned, same) = nson_mapper_clone-ClonesTo x h e ok in
      let (cleaned, run', released) = nson_clean-GivesBack x made (record {
        sound = cloned.sound;
        enough = λ s. omega (arith, cloned.counts s, ok.enough s);
      }) in
      let left : (s : Resource) → uses y s ≤ cleaned.count s =
        λ s. omega (arith, cloned.counts s, released.counts s, ok.enough s) in
      let (ended, run'', released') = nson_clean-GivesBack y cleaned (record {
        sound = Released-IsSound made cleaned (uses x) cloned.sound released;
        enough = left;
      }) in
      let value_of : value y made.bytes ≡ value x h.bytes =
        ap (value y) cloned.bytes_kept ∙ same h.bytes in
      inr (
        e,
        value x h.bytes,
        y,
        made,
        cleaned,
        ended,
        view_held x h ok.enough,
        run,
        view_held y made (λ s. omega (arith, cloned.counts s)) ∙ ap some value_of,
        run',
        view_held y cleaned left ∙ ap some (ap (value y) released.bytes_kept ∙ value_of),
        run'',
        λ s. omega (arith, cloned.counts s, released.counts s, released'.counts s),
      )
]
