-- ===== src/Memory/Program/Refines.antt =====
-- Programs on elements in memory refine programs on values.
use mathlib.Core.Path.{subst}
use nson.Memory.{Cell, nil, Resource, buffer, Heap, nson_clone, nson_clean, allocate}
use nson.Memory.Build.{nson_ptr_wrap}
use nson.Memory.Copy.{has_object, nson_mapper_clone-ClonesTo, mapper_clone_object}
use nson.Memory.Program.{
  Store, store, Step, exchanges, declares, leaves_scope, makes_data, shares_buffer, wraps_pointer,
  clones, cleans, pushes, pops, concats, makes_object, puts, Reach,
}
use nson.Memory.Program.Abstract.{
  clone_call, clean_call, call_of, Changes, exchanged, declared, left_scope, made_pointer, cloned,
  cleaned, views,
}
use nson.Memory.Program.Balance.{IsBalanced}
use nson.Memory.Program.Calls.{same_run, refused, Balanced-Holds}
use nson.Memory.Program.Changed.{
  values_of, views-IsBalanced, is_plain-value, arr_push-Changes, arr_pop-Changes,
  obj_from_arr-Changes, arr_concat-Changes, init_buf-Changes, init_data-Changes, obj_put-Changes,
}
use nson.Memory.Program.Pieces.{total}
use nson.Memory.Program.Reached.{Reach-IsBalanced, IsBalanced-Step}
use nson.Memory.Release.{uses, nson_clean-GivesBack}
use nson.Memory.Resources.{is_counted}
use nson.Memory.View.{value}
use nson.Prelude.{
  ℕ, suc, length, ◌+◌, ◌<◌, ◌^◌, ◌≡◌, refl, true, some, Bytes, List, [], ◌∷◌, ◌++◌, arith, ap, sym,
  Bool-cases, inl, inr,
}
use nson.Util.Number.{Double}
use nson.Value.{Nson}

values_of-append :
    (us vs : List Cell) (g : ℕ → Bytes) → values_of (us ++ vs) g ≡ values_of us g ++ values_of vs g
values_of-append [] vs g = refl
values_of-append (u ∷ us) vs g = ap (λ l. value u g ∷ l) (values_of-append us vs g)

length-values_of : (us : List Cell) (g : ℕ → Bytes) → length (values_of us g) ≡ length us
length-values_of [] g = refl
length-values_of (u ∷ us) g = ap suc (length-values_of us g)

-- No variable holds the buffer that is made next.
next_unheld : (vs : List Cell) (h : Heap) → IsBalanced (store vs h) → total vs (buffer h.next) ≡ 0
next_unheld vs h ok =
    omega (arith, ok.exact (buffer h.next), ok.sound.fresh (buffer h.next) (omega arith))

module _ (d : Double) where
  clone-Changes :
      (x y : Cell) (vs : List Cell) (h h' : Heap)
      → ((s : Resource) → is_counted s ≡ true → h.count s + uses x s < 2 ^ 32)
      → nson_clone x h ≡ some (y, h')
      → IsBalanced (store (x ∷ vs) h)
      → Changes d clone_call (values_of (x ∷ vs) h.bytes) (values_of (y ∷ x ∷ vs) h'.bytes)
  unfolding nson_clone total
  clone-Changes x y vs h h' room run ok = elim (Bool-cases (has_object x)) [
    | inl e ↦ absurd (refused _ (mapper_clone_object x h e) run)
    | inr e ↦
        let (y', after, run', copy, same) =
          nson_mapper_clone-ClonesTo x h e
            (record { sound = ok.sound; enough = λ s. omega (arith, ok.exact s); room = room }) in
        let us = values_of (x ∷ vs) h.bytes in
        same_run (λ t. Changes d clone_call us (values_of (t.0 ∷ x ∷ vs) t.1.bytes)) _ (y', after)
          (y, h') run' run
          (subst (λ g. Changes d clone_call us (values_of (y' ∷ x ∷ vs) g)) (sym copy.bytes_kept)
            (rw (same h.bytes) (cloned (value x h.bytes) (values_of vs h.bytes))))
  ]

  clean-Changes :
      (x : Cell) (vs : List Cell) (h h' : Heap)
      → nson_clean x h ≡ some h'
      → IsBalanced (store (x ∷ vs) h)
      → Changes d clean_call (values_of (x ∷ vs) h.bytes) (values_of (nil ∷ vs) h'.bytes)
  unfolding total
  clean-Changes x vs h h' run ok =
      let (after, run', released) =
        nson_clean-GivesBack x h (Balanced-Holds _ (uses x) h ok (λ s. omega arith)) in
      let us = values_of (x ∷ vs) h.bytes in
      same_run (λ t. Changes d clean_call us (values_of (nil ∷ vs) t.bytes)) _ after h' run' run
        (subst (λ g. Changes d clean_call us (values_of (nil ∷ vs) g)) (sym released.bytes_kept)
          (unfold value in cleaned (value x h.bytes) (values_of vs h.bytes)))

  Step-Changes :
      {s t : Store}
      → (st : Step s t) → IsBalanced s
      → Changes d (call_of st) (values_of s.vars s.heap.bytes) (values_of t.vars t.heap.bytes)
  unfolding call_of
  Step-Changes (exchanges us x y vs h) ok = rw (values_of-append us (x ∷ y ∷ vs) h.bytes) (
      rw (values_of-append us (y ∷ x ∷ vs) h.bytes) (
        rw (sym (length-values_of us h.bytes)) (
          exchanged (values_of us h.bytes) (value x h.bytes) (value y h.bytes)
            (values_of vs h.bytes))))
  Step-Changes (declares x vs h e) ok =
      declared (value x h.bytes) (values_of vs h.bytes) (is_plain-value x h.bytes e)
  Step-Changes (leaves_scope x vs h e) ok =
      left_scope (value x h.bytes) (values_of vs h.bytes) (is_plain-value x h.bytes e)
  Step-Changes (makes_data val len info vs h fits) ok =
      init_data-Changes d val len info vs h fits (next_unheld vs h ok)
  Step-Changes (shares_buffer b info x vs h h' room run) ok =
      init_buf-Changes d b info x vs h h' run
  Step-Changes (wraps_pointer ptr dtor vs h) ok =
      unfold nson_ptr_wrap allocate value in made_pointer h.next (values_of vs h.bytes)
  Step-Changes (clones x y vs h h' room run) ok = clone-Changes x y vs h h' room run ok
  Step-Changes (cleans x vs h h' run) ok = clean-Changes x vs h h' run ok
  Step-Changes (pushes x v x' vs h h' run) ok = arr_push-Changes d x v x' vs h h' run
  Step-Changes (pops x x' v vs h run) ok = arr_pop-Changes d x v x' vs h.bytes run
  Step-Changes (concats x y x' vs h h' run) ok = arr_concat-Changes d x y x' vs h h' run
  Step-Changes (makes_object x x' vs h run) ok = obj_from_arr-Changes d x x' vs h.bytes run
  Step-Changes (puts x key v x' vs h h' fits run) ok =
      obj_put-Changes d x key v x' vs h h' fits (next_unheld (x ∷ v ∷ vs) h ok) run

-- A call in memory does to the values of the variables what it does to values without memory: all
-- variables can be read before and behind it, and the values change as the function on values of the
-- same call says, with the arguments of the step.
pub Step-refines :
    (d : Double) (s t : Store)
    → Reach s
    → (st : Step s t)
    → (us ws : List Nson) × (views s ≡ some us) × (views t ≡ some ws) × Changes d (call_of st) us ws
Step-refines d s t r st =
    let ok = Reach-IsBalanced r in
    (
      values_of s.vars s.heap.bytes,
      values_of t.vars t.heap.bytes,
      views-IsBalanced s ok,
      views-IsBalanced t (IsBalanced-Step st ok),
      Step-Changes d st ok,
    )
