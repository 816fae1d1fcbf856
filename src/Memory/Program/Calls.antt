-- ===== src/Memory/Program/Calls.antt =====
-- The calls of src/data.c, src/pointer.c, src/array.c and src/object.c leave the counters exact.
use mathlib.Core.Path.{subst}
use mathlib.Core.Option.{some-injective, none-ne-some}
use nson.Buf.{size_max, sizeof_buf}
use nson.Object.{c_string}
use nson.Prelude.{
  ℕ, ◌+◌, ◌-◌, ◌%◌, ◌<◌, ◌≤◌, ◌^◌, ◌≡◌, refl, true, false, Option, none, some, Bytes, ltb, ◌==◌,
  length, if◌then◌else◌, arith, Bool-cases, inl, inr, sym, ◌∙◌, ap,
}
use nson.Memory.{
  Cell, arr, obj, no_cells, cell, Resource, buffer, reference, block, Heap, allocate, nson_clone,
  nson_clean, retain, cells_len,
}
use nson.Memory.Resources.{is_counted, one, one_cases}
use nson.Memory.Release.{
  uses, uses_cells, uses_entries, block_use, Holds, nson_clean-GivesBack, free_block-GivesBack,
}
use nson.Memory.Clone.{Allows, block_use_pos, retained, retain_lem, retained-Cloned}
use nson.Memory.Copy.{has_object, nson_mapper_clone-ClonesTo, mapper_clone_object}
use nson.Memory.Build.{
  DataType, blob_data, str_data, data_cell, buf_wrap, nson_init_data, nson_init_str, nson_init_buf,
  nson_ptr_wrap, move_block, nson_arr_push, nson_arr_pop, nson_arr_concat, nson_obj_from_arr,
  nson_obj_put, push_cell, concat_cells, push_entry, split_last, pair_cells,
}
use nson.Memory.Program.Balance.{
  Balanced, same_holders, new_contents, after_release, after_allocate, after_clone,
}
use nson.Memory.Program.Pieces.{
  uses-push_cell, uses-concat_cells, uses-push_entry, uses-pair_cells, split_last_lem,
}

-- Two results of one run.
pub same_run {ℓ κ} :
    {A : Type ℓ} (P : A → Type κ) (run : Option A) (x y : A)
    → run ≡ some x
    → run ≡ some y
    → P x
    → P y
same_run P run x y p q = subst P (some-injective x y (sym p ∙ q))

pub refused {ℓ} : {A : Type ℓ} (run : Option A) {x : A} → run ≡ none → run ≡ some x → ⊥
refused run e e' = none-ne-some _ (sym e ∙ e')

pub Balanced-Holds :
    (u v : Resource → ℕ) (h : Heap) → Balanced u h → ((s : Resource) → v s ≤ u s) → Holds h v
Balanced-Holds u v h ok le = record {
  sound = ok.sound;
  enough = λ s. omega (arith, ok.exact s, le s);
}

-- A block of the holders is moved, or made where there was none.
moved :
    (a : ℕ) (u v : Resource → ℕ) (h : Heap)
    → Balanced u h
    → ((s : Resource) → u s ≡ v s + block_use a s)
    → (a' : ℕ) × (after : Heap) × (move_block a h ≡ some (a', after))
      × Balanced (λ s. v s + block_use a' s) after
unfolding move_block
moved a u v h ok e =
    let holds = Balanced-Holds u (block_use a) h ok (λ s. omega (arith, e s)) in
    let (freed, run, released) = free_block-GivesBack a h holds in
    let rest = after_release u v h freed (block_use a) ok released (λ s. omega (arith, e s)) in
    (
      freed.next,
      allocate block freed,
      rw run refl,
      after_allocate block v _ freed (λ n. refl) rest
          (λ s. omega (arith, block_use_pos freed.next s rest.sound.next_pos)),
    )

-- The block after `mem_capacity` for some more elements, which does nothing for none.
grown_block :
    (a more : ℕ) (u v : Resource → ℕ) (h : Heap)
    → Balanced u h
    → ((s : Resource) → u s ≡ v s + block_use a s)
    → (a' : ℕ) × (after : Heap) × ((if more == 0 then some (a, h) else move_block a h)
        ≡ some (a', after))
      × Balanced (λ s. v s + block_use a' s) after
grown_block a more u v h ok e = elim (Bool-cases (more == 0)) [
  | inl none_more ↦ (a, h, rw none_more refl, same_holders u _ h ok (λ s. sym (e s)))
  | inr some_more ↦
      let (a', after, run, balanced) = moved a u v h ok e in (a', after, rw some_more run, balanced)
]

uses_data : (info : DataType) (b : ℕ) (s : Resource) → uses (data_cell info b) s ≡ one (buffer b) s
unfolding uses
uses_data blob_data b s = refl
uses_data str_data b s = refl

pub init_data-Balanced :
    (val : Bytes) (len : ℕ) (info : DataType) (u : Resource → ℕ) (h : Heap)
    → len ≤ size_max - sizeof_buf
    → Balanced u h
    → let (x, after) = nson_init_data val len info h in Balanced (λ s. uses x s + u s) after
unfolding nson_init_data buf_wrap
init_data-Balanced val len info u h fits ok =
    let small : ltb (size_max - sizeof_buf) len ≡ false = ground arith in
    rw small (
      new_contents _ (allocate buffer h) _ _
        (after_allocate buffer u _ h (λ n. refl) ok (λ s. omega (arith, uses_data info h.next s))))

pub ptr_wrap-Balanced :
    (ptr : ℕ) (dtor : Option ℕ) (u : Resource → ℕ) (h : Heap)
    → Balanced u h
    → let (x, after) = nson_ptr_wrap ptr dtor h in Balanced (λ s. uses x s + u s) after
unfolding nson_ptr_wrap uses
ptr_wrap-Balanced ptr dtor u h ok =
    new_contents _ (allocate reference h) _ _
      (after_allocate reference u _ h (λ n. refl) ok (λ s. omega arith))

retain_dead : (r : Resource) (h : Heap) → (h.count r == 0) ≡ true → retain r h ≡ none
unfolding retain
retain_dead r h e = rw e refl

-- One more holder of a buffer that is alive.
buffer-Allows :
    (b : ℕ) (u : Resource → ℕ) (h : Heap)
    → Balanced u h
    → 1 ≤ h.count (buffer b)
    → h.count (buffer b) + 1 < 2 ^ 32
    → Allows h (one (buffer b))
buffer-Allows b u h ok live room = record {
  sound = ok.sound;
  enough = λ s. elim (one_cases (buffer b) s) [
    | inl (here, e) ↦ omega (arith, e, live, ap h.count here)
    | inr e ↦ omega (arith, e)
  ];
  room = λ s c. elim (one_cases (buffer b) s) [
    | inl (here, e) ↦ omega (arith, e, room, ap h.count here)
    | inr e ↦ omega (arith, e, ok.sound.fits s c)
  ];
}

-- A buffer that a program can still share has a holder.
pub init_buf-Balanced :
    (b : ℕ) (info : DataType) (x : Cell) (u : Resource → ℕ) (h after : Heap)
    → h.count (buffer b) + 1 < 2 ^ 32
    → nson_init_buf b info h ≡ some (x, after)
    → Balanced u h
    → Balanced (λ s. uses x s + u s) after
unfolding nson_init_buf
init_buf-Balanced b info x u h after room run ok =
    let r = buffer b in
    elim (Bool-cases (h.count r == 0)) [
      | inl dead ↦ absurd (refused (nson_init_buf b info h) (rw (retain_dead r h dead) refl) run)
      | inr live ↦
          let allowed = buffer-Allows b u h ok (ground arith) room in
          same_run (λ t. Balanced (λ s. uses t.0 s + u s) t.1) _ (data_cell info b, retained r h)
            (x, after) (rw (retain_lem r h refl allowed) refl) run
            (after_clone u _ h (retained r h) (one r) (one r) ok (retained-Cloned r h refl allowed)
              allowed.enough (λ s. omega (arith, uses_data info b s)))
    ]

pub clone-Balanced :
    (x y : Cell) (u : Resource → ℕ) (h after : Heap)
    → ((s : Resource) → is_counted s ≡ true → h.count s + uses x s < 2 ^ 32)
    → nson_clone x h ≡ some (y, after)
    → Balanced (λ s. uses x s + u s) h
    → Balanced (λ s. uses y s + (uses x s + u s)) after
unfolding nson_clone
clone-Balanced x y u h after room run ok = elim (Bool-cases (has_object x)) [
  | inl e ↦ absurd (refused _ (mapper_clone_object x h e) run)
  | inr e ↦
      let enough : (s : Resource) → uses x s ≤ h.count s = λ s. omega (arith, ok.exact s) in
      let (y', after', run', cloned, same) =
        nson_mapper_clone-ClonesTo x h e
          (record { sound = ok.sound; enough = enough; room = room }) in
      same_run (λ t. Balanced (λ s. uses t.0 s + (uses x s + u s)) t.1) _ (y', after') (y, after)
        run' run (after_clone _ _ h after' (uses x) (uses y') ok cloned enough (λ s. omega arith))
]

pub clean-Balanced :
    (x : Cell) (u : Resource → ℕ) (h after : Heap)
    → nson_clean x h ≡ some after
    → Balanced (λ s. uses x s + u s) h
    → Balanced u after
clean-Balanced x u h after run ok =
    let (after', run', released) =
      nson_clean-GivesBack x h (Balanced-Holds _ (uses x) h ok (λ s. omega arith)) in
    same_run (Balanced u) _ after' after run' run
      (after_release _ u h after' (uses x) ok released (λ s. omega arith))

pub arr_push-Balanced :
    (x v x' : Cell) (u : Resource → ℕ) (h after : Heap)
    → nson_arr_push x v h ≡ some (x', after)
    → Balanced (λ s. uses x s + (uses v s + u s)) h
    → Balanced (λ s. uses x' s + u s) after
unfolding nson_arr_push uses
arr_push-Balanced (arr a xs) v x' u h after run ok =
    let rest : Resource → ℕ = λ s. uses_cells xs s + (uses v s + u s) in
    let (a', after', moves, balanced) = moved a _ rest h ok (λ s. omega arith) in
    same_run (λ t. Balanced (λ s. uses t.0 s + u s) t.1) _ (arr a' (push_cell xs v), after')
      (x', after) (rw moves refl) run
      (same_holders _ _ after' balanced (λ s. omega (arith, uses-push_cell xs v s)))
arr_push-Balanced _ v x' u h after run ok = absurd (refused _ refl run)

-- The array that grows holds the parts of both.
pub arr_concat-Balanced :
    (x y x' : Cell) (u : Resource → ℕ) (h after : Heap)
    → nson_arr_concat x y h ≡ some (x', after)
    → Balanced (λ s. uses x s + (uses y s + u s)) h
    → Balanced (λ s. uses x' s + u s) after
unfolding nson_arr_concat uses
arr_concat-Balanced (arr a xs) (arr b ys) x' u h after run ok =
    let inside : Resource → ℕ = λ s. uses_cells (concat_cells xs ys) s in
    let (a', grown, grows, balanced) =
      grown_block a (cells_len ys) _ (λ s. inside s + (block_use b s + u s)) h ok
        (λ s. omega (arith, uses-concat_cells xs ys s)) in
    let (after', run', released) =
      nson_clean-GivesBack (arr b no_cells) grown
        (Balanced-Holds _ _ grown balanced (λ s. omega arith)) in
    same_run (λ t. Balanced (λ s. uses t.0 s + u s) t.1) _ (arr a' (concat_cells xs ys), after')
      (x', after) (rw grows (rw run' refl)) run
      (after_release _ _ grown after' _ balanced released (λ s. omega arith))
arr_concat-Balanced (arr a xs) _ x' u h after run ok = absurd (refused _ refl run)
arr_concat-Balanced _ y x' u h after run ok = absurd (refused _ refl run)

pub arr_pop-total :
    (x v x' : Cell)
    → nson_arr_pop x ≡ some (v, x')
    → (s : Resource) → uses v s + uses x' s ≡ uses x s
unfolding nson_arr_pop uses
arr_pop-total (arr a no_cells) v x' run s =
    absurd (refused (nson_arr_pop (arr a no_cells)) (unfold split_last in refl) run)
arr_pop-total (arr a (cell x xs)) v x' run s =
    let (y, ys, split, held) = split_last_lem x xs in
    same_run (λ t. uses t.0 s + uses t.1 s ≡ uses (arr a (cell x xs)) s) _ (y, arr a ys) (v, x')
      (rw split refl) run (omega (arith, held s))
arr_pop-total _ v x' run s = absurd (refused _ refl run)

pub obj_from_arr-total :
    (x x' : Cell) → nson_obj_from_arr x ≡ some x' → (s : Resource) → uses x' s ≡ uses x s
unfolding nson_obj_from_arr uses
obj_from_arr-total (arr a xs) x' run s = elim (Bool-cases (cells_len xs % 2 == 0)) [
  | inl e ↦
      same_run (λ t. uses t s ≡ uses (arr a xs) s) _ (obj a true (pair_cells xs)) x' (rw e refl) run
        (omega (arith, uses-pair_cells xs s (ground arith)))
  | inr e ↦ absurd (refused _ (rw e refl) run)
]
obj_from_arr-total _ x' run s = absurd (refused _ refl run)

pub obj_put-Balanced :
    (x : Cell) (key : Bytes) (v x' : Cell) (u : Resource → ℕ) (h after : Heap)
    → length (c_string key) ≤ size_max - sizeof_buf
    → nson_obj_put x key v h ≡ some (x', after)
    → Balanced (λ s. uses x s + (uses v s + u s)) h
    → Balanced (λ s. uses x' s + u s) after
unfolding nson_obj_put nson_init_str uses
obj_put-Balanced (obj a messy fs) key v x' u h after fits run ok =
    let len = length (c_string key) in
    let made = nson_init_data key len str_data h in
    let keyed = init_data-Balanced key len str_data _ h fits ok in
    let rest : Resource → ℕ = λ s. uses made.0 s + (uses_entries fs s + (uses v s + u s)) in
    let (a', after', moves, balanced) = moved a _ rest made.1 keyed (λ s. omega arith) in
    same_run (λ t. Balanced (λ s. uses t.0 s + u s) t.1) _
      (obj a' messy (push_entry fs made.0 v), after') (x', after) (rw moves refl) run
      (same_holders _ _ after' balanced (λ s. omega (arith, uses-push_entry fs made.0 v s)))
obj_put-Balanced _ key v x' u h after fits run ok = absurd (refused _ refl run)
