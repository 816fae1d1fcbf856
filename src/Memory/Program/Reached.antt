-- ===== src/Memory/Program/Reached.antt =====
-- What every program that uses the calls of src/nson.h keeps.
use nson.Prelude.{ℕ, ◌+◌, ◌≤◌, ◌≡◌, some, List, ◌∷◌, arith, sym}
use nson.Value.{Nson}
use nson.Memory.{Cell, Resource, Heap, nson_clean}
use nson.Memory.Release.{uses, alive, nson_clean-GivesBack}
use nson.Memory.View.{view, value, view_held}
use nson.Memory.Program.{
  Store, store, Step, exchanges, declares, leaves_scope, makes_data, shares_buffer, wraps_pointer,
  clones, cleans, pushes, pops, concats, makes_object, puts, Reach, started, later,
}
use nson.Memory.Program.Balance.{IsBalanced, IsBalanced-start, same_holders}
use nson.Memory.Program.Calls.{
  init_data-Balanced, ptr_wrap-Balanced, init_buf-Balanced, clone-Balanced, clean-Balanced,
  arr_push-Balanced, arr_concat-Balanced, arr_pop-total, obj_from_arr-total, obj_put-Balanced,
}
use nson.Memory.Program.Pieces.{total, total_exchange, uses_plain}

pub IsBalanced-Step : {s t : Store} → Step s t → IsBalanced s → IsBalanced t
unfolding total
IsBalanced-Step (exchanges us x y vs h) ok =
    same_holders _ _ h ok (λ s. sym (total_exchange us x y vs s))
IsBalanced-Step (declares x vs h e) ok =
    same_holders _ _ h ok (λ s. omega (arith, uses_plain x s e))
IsBalanced-Step (leaves_scope x vs h e) ok =
    same_holders _ _ h ok (λ s. omega (arith, uses_plain x s e))
IsBalanced-Step (makes_data val len info vs h fits) ok =
    init_data-Balanced val len info (total vs) h fits ok
IsBalanced-Step (shares_buffer b info x vs h h' room run) ok =
    init_buf-Balanced b info x (total vs) h h' room run ok
IsBalanced-Step (wraps_pointer ptr dtor vs h) ok = ptr_wrap-Balanced ptr dtor (total vs) h ok
IsBalanced-Step (clones x y vs h h' room run) ok = clone-Balanced x y (total vs) h h' room run ok
IsBalanced-Step (cleans x vs h h' run) ok =
    same_holders _ _ h' (clean-Balanced x (total vs) h h' run ok) (λ s. unfold uses in omega arith)
IsBalanced-Step (pushes x v x' vs h h' run) ok =
    same_holders _ _ h' (arr_push-Balanced x v x' (total vs) h h' run ok)
      (λ s. unfold uses in omega arith)
IsBalanced-Step (pops x x' v vs h run) ok =
    same_holders _ _ h ok (λ s. omega (arith, arr_pop-total x v x' run s))
IsBalanced-Step (concats x y x' vs h h' run) ok =
    same_holders _ _ h' (arr_concat-Balanced x y x' (total vs) h h' run ok)
      (λ s. unfold uses in omega arith)
IsBalanced-Step (makes_object x x' vs h run) ok =
    same_holders _ _ h ok (λ s. omega (arith, obj_from_arr-total x x' run s))
IsBalanced-Step (puts x key v x' vs h h' fits run) ok =
    same_holders _ _ h' (obj_put-Balanced x key v x' (total vs) h h' fits run ok)
      (λ s. unfold uses in omega arith)

pub Reach-IsBalanced : {s : Store} → Reach s → IsBalanced s
Reach-IsBalanced (started h empty) = IsBalanced-start h empty
Reach-IsBalanced (later r st) = IsBalanced-Step st (Reach-IsBalanced r)

-- Whatever calls a program has made, each counter is the number of holders among its variables, so
-- that nothing is kept without a holder; no destructor was called twice, or before the last holder
-- was gone; and a variable can be read, and cleaned, without a use of freed memory.
pub reached_lem :
    (x : Cell) (vs : List Cell) (h : Heap)
    → Reach (store (x ∷ vs) h)
    → ((s : Resource) → total (x ∷ vs) s ≡ h.count s)
      × ((p : ℕ) → h.dtor_calls p + alive h p ≤ 1)
      × ((v : Nson) × (view x h ≡ some v))
      × ((after : Heap) × (nson_clean x h ≡ some after))
unfolding total
reached_lem x vs h r =
    let ok = Reach-IsBalanced r in
    let enough : (s : Resource) → uses x s ≤ h.count s = λ s. omega (arith, ok.exact s) in
    let (after, run, released) =
      nson_clean-GivesBack x h (record { sound = ok.sound; enough = enough }) in
    (ok.exact, ok.once, (value x h.bytes, view_held x h enough), (after, run))
