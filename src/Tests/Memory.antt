-- ===== src/Tests/Memory.antt =====
-- A program that builds an array of a text and a pointer, its clone, and a walk.
use nson.Memory.{
  Cell, nil, arr, str, pointer, no_cells, cell, Resource, buffer, reference, block, Heap, allocate,
  free_block, release, ptr_release, nson_clone, nson_clean,
}
use nson.Memory.Build.{
  str_data, buf_wrap, nson_init_data, nson_init_arr, nson_ptr_wrap, move_block, nson_arr_push,
  push_cell,
}
use nson.Memory.Clone.{Allows}
use nson.Memory.Copy.{has_object, nson_clone-nson_clean}
use nson.Memory.Program.{
  Store, store, exchanges, declares, makes_data, wraps_pointer, pushes, Step, Reach, started, later,
  is_plain,
}
use nson.Memory.Program.Abstract.{Changes, call_of, views}
use nson.Memory.Program.Refines.{Step-refines}
use nson.Tests.Json.{whole_numbers}
use nson.Memory.Program.Pieces.{total}
use nson.Memory.Program.Reached.{Reach-IsBalanced, reached_lem}
use nson.Memory.Release.{uses, block_use, alive}
use nson.Memory.Resources.{set, one, one_cases, noop_dtor, put_at, add_one}
use nson.Memory.View.{view, if_live, if_block}
use nson.Prelude.{
  List, ℕ, ◌+◌, ◌≤◌, ◌≡◌, ◌⊎◌, inl, inr, refl, true, false, Option, some, none, [], ◌∷◌, codes,
  arith,
}
use nson.Prelude.Int.{pos}
use nson.Value.{Nson, item, no_items}
use nson.Walk.{walk, walk_start}
use nson.Walk.Order.{traversal, count_values, count_items, walk-traversal}

abbrev empty : Heap
empty = record {
  count = λ r. 0;
  bytes = λ b. [];
  refs = λ p. record { dtor = noop_dtor; ptr = 0 };
  dtor_calls = λ p. 0;
  next = 1;
}

-- The text "ab" in the buffer 1, in an array with the block 2.
abbrev h₁ : Heap
h₁ = (nson_init_data (codes "ab") 2 str_data empty).1

abbrev h₂ : Heap
h₂ = allocate block h₁

-- The pointer with the reference 3, and the array with both and the block 4.
abbrev h₃ : Heap
h₃ = (nson_ptr_wrap 77 (some 5) h₂).1

abbrev h₄ : Heap
h₄ = allocate block (record h₃ { count = set (block 2) 0 h₃.count })

abbrev both : Cell
both = arr 4 (cell (str 1) (cell (pointer 3) no_cells))

abbrev text_alone : Cell
text_alone = arr 2 (cell (str 1) no_cells)

abbrev before_push : Store
before_push = store (text_alone ∷ pointer 3 ∷ nil ∷ []) h₃

reach₃ : Reach before_push
unfolding nson_init_data buf_wrap nson_arr_push move_block free_block push_cell nson_ptr_wrap
    allocate set
reach₃ =
    let text =
      later (started empty (λ s. refl, λ p. refl, omega arith))
        (makes_data (codes "ab") 2 str_data [] empty (omega arith)) in
    let declared = later text (declares nson_init_arr _ h₁ (unfold is_plain in refl)) in
    let pushed = later declared (pushes nson_init_arr (str 1) text_alone [] h₁ h₂ refl) in
    let wrapped = later pushed (wraps_pointer 77 (some 5) _ h₂) in
    later wrapped (exchanges [] (pointer 3) text_alone (nil ∷ []) h₃)

push₄ : Step before_push (store (both ∷ nil ∷ nil ∷ []) h₄)
unfolding nson_init_data buf_wrap nson_arr_push move_block free_block push_cell nson_ptr_wrap
    allocate set
push₄ = pushes text_alone (pointer 3) both (nil ∷ []) h₃ h₄ refl

reach₄ : Reach (store (both ∷ nil ∷ nil ∷ []) h₄)
reach₄ = later reach₃ push₄

Step-refines_example :
    (us ws : List Nson) × (views before_push ≡ some us)
    × (views (store (both ∷ nil ∷ nil ∷ []) h₄) ≡ some ws)
    × Changes whole_numbers (call_of push₄) us ws
Step-refines_example =
    Step-refines whole_numbers before_push (store (both ∷ nil ∷ nil ∷ []) h₄) reach₃ push₄

reached_lem_example :
    ((s : Resource) → total (both ∷ nil ∷ nil ∷ []) s ≡ h₄.count s)
    × ((p : ℕ) → h₄.dtor_calls p + alive h₄ p ≤ 1)
    × ((v : Nson) × (view both h₄ ≡ some v))
    × ((after : Heap) × (nson_clean both h₄ ≡ some after))
reached_lem_example = reached_lem both (nil ∷ nil ∷ []) h₄ reach₄

-- The value built, and what is left when it is cleaned: the destructor has been called once.
both-view :
    view both h₄ ≡ some (Nson.arr (item (Nson.str (codes "ab")) (item (Nson.pointer 3) no_items)))
unfolding view if_live if_block nson_init_data buf_wrap nson_ptr_wrap allocate set put_at
both-view = refl

abbrev calls_after : Option Heap → ℕ
calls_after none = 0
calls_after (some after) = after.dtor_calls 3

both_cleaned : calls_after (nson_clean both h₄) ≡ 1
unfolding nson_clean release ptr_release free_block nson_init_data buf_wrap nson_ptr_wrap allocate
    set add_one
both_cleaned = refl

one_le : (r s : Resource) → one r s ≤ 1
one_le r s = elim (one_cases r s) [ inl (e, e') ↦ omega (arith, e') | inr e ↦ omega (arith, e) ]

both-Allows : Allows h₄ (uses both)
unfolding uses total block_use
both-Allows =
    let ok = Reach-IsBalanced reach₄ in
    record {
      sound = ok.sound;
      enough = λ s. omega (arith, ok.exact s);
      room = λ s c.
          omega
            (arith, ok.exact s, one_le (buffer 1) s, one_le (reference 3) s, one_le (block 4) s);
    }

nson_clone-nson_clean_example :
    ((has_object both ≡ true) × (nson_clone both h₄ ≡ none))
    ⊎ ((has_object both ≡ false)
        × (v : Nson) × (y : Cell) × (made cleaned ended : Heap) × (view both h₄ ≡ some v)
        × (nson_clone both h₄ ≡ some (y, made))
        × (view y made ≡ some v)
        × (nson_clean both made ≡ some cleaned)
        × (view y cleaned ≡ some v)
        × (nson_clean y cleaned ≡ some ended)
        × ((s : Resource) → ended.count s + uses both s ≡ h₄.count s))
nson_clone-nson_clean_example = nson_clone-nson_clean both h₄ both-Allows

abbrev nested : Nson
nested = Nson.arr (
    item (Nson.int (pos 1))
      (item (Nson.arr (item Nson.nil no_items)) (item (Nson.int (pos 2)) no_items)))

walk-traversal_example : walk 10 (walk_start nested) ≡ traversal nested
walk-traversal_example = walk-traversal nested 10 (unfold count_values count_items in omega arith)
