-- ===== src/Memory/Program/Changed.antt =====
-- Each call on elements in memory is the one on values of Value, Array and Object.
use nson.Buf.{size_max, sizeof_buf}
use mathlib.Core.Path.{subst}
use nson.Array.{arr_pop}
use nson.Memory.{
  Cell, Entries, nil, bool, int, real, arr, obj, str, no_cells, cell, no_entries, Resource, buffer,
  block, Heap, cells_len, nson_clean, free_block, retain, allocate,
}
use nson.Memory.Build.{
  DataType, blob_data, str_data, data_cell, buf_wrap, nson_init_data, nson_init_str, nson_init_buf,
  move_block, nson_arr_push, nson_arr_pop, nson_arr_concat, nson_obj_from_arr, nson_obj_put,
  push_cell, concat_cells, push_entry, pair_cells, split_last,
}
use nson.Memory.Program.{Store, is_plain}
use nson.Memory.Program.Balance.{IsBalanced}
use nson.Memory.Program.Calls.{same_run, refused}
use nson.Memory.Program.Pieces.{total}
use nson.Memory.Program.Abstract.{
  Call, data_call, push_call, pop_call, concat_call, object_call, put_call, Changes, made_data,
  pushed, popped, joined, made_object, put, data_value, is_plain_value, views_in, views,
}
use nson.Memory.Program.Values.{
  values-push_cell, values-concat_cells, entry_values-push_entry, entry_values-pair_cells,
  arr_len-values, split_last-values, value-put_at, entry_values-put_at, put_at_self, take-c_string,
  move_block-bytes, arr_pop_last,
}
use nson.Memory.Release.{uses}
use nson.Memory.Resources.{set, put_at}
use nson.Memory.View.{value, values, entry_values, view_held}
use nson.Object.{obj_put, obj_push, obj_from_arr, c_string}
use nson.Object.Build.{obj_put_lem}
use nson.Prelude.{
  ℕ, zero, suc, ◌+◌, ◌-◌, ◌≤◌, ◌≡◌, refl, Bool, true, false, some, Bytes, List, [], ◌∷◌, ◌%◌, ◌^◌,
  map, ◌==◌, if◌then◌else◌, length, take, ltb, arith, ap, sym, ◌∙◌, Bool-cases, Option-cases, inl,
  inr,
}
use nson.Util.Number.{Double}
use nson.Value.{Nson, Fields}

abbrev pub values_of : List Cell → (ℕ → Bytes) → List Nson
values_of vs g = map (λ x. value x g) vs

views_in_held :
    (vs : List Cell) (h : Heap)
    → ((s : Resource) → total vs s ≤ h.count s)
    → views_in vs h ≡ some (values_of vs h.bytes)
unfolding views_in total
views_in_held [] h ok = refl
views_in_held (x ∷ vs) h ok =
    rw (view_held x h (λ s. omega (arith, ok s)))
      (rw (views_in_held vs h (λ s. omega (arith, ok s))) refl)

pub views-IsBalanced : (t : Store) → IsBalanced t → views t ≡ some (values_of t.vars t.heap.bytes)
views-IsBalanced t ok = views_in_held t.vars t.heap (λ s. omega (arith, ok.exact s))

pub is_plain-value :
    (x : Cell) (g : ℕ → Bytes) → is_plain x ≡ true → is_plain_value (value x g) ≡ true
unfolding is_plain is_plain_value value
is_plain-value nil g h = refl
is_plain-value (bool i) g h = refl
is_plain-value (int i) g h = refl
is_plain-value (real r) g h = refl
is_plain-value (arr zero no_cells) g h = refl
is_plain-value (obj zero messy no_entries) g h = refl
is_plain-value _ g h = absurd (ground arith)

clean_array-bytes :
    (b : ℕ) (h after : Heap) → nson_clean (arr b no_cells) h ≡ some after → after.bytes ≡ h.bytes
unfolding nson_clean free_block
clean_array-bytes zero h after run = same_run (λ t. t.bytes ≡ h.bytes) _ h after refl run refl
clean_array-bytes (suc n) h after run = elim (Bool-cases (h.count (block (suc n)) == 0)) [
  | inl e ↦ absurd (refused (nson_clean (arr (suc n) no_cells) h) (rw e refl) run)
  | inr e ↦
      same_run (λ t. t.bytes ≡ h.bytes) (nson_clean (arr (suc n) no_cells) h)
        (record h { count = set (block (suc n)) 0 h.count }) after (rw e refl) run refl
]

module _ (d : Double) where
  -- The bytes of the buffers stay as they are.
  same_bytes :
      {call : Call} (us : List Nson) (ws : List Cell) (g g' : ℕ → Bytes)
      → g' ≡ g
      → Changes d call us (values_of ws g)
      → Changes d call us (values_of ws g')
  same_bytes {call} us ws g g' e = subst (λ k. Changes d call us (values_of ws k)) (sym e)

  pub arr_push-Changes :
      (x v x' : Cell) (vs : List Cell) (h h' : Heap)
      → nson_arr_push x v h ≡ some (x', h')
      → Changes d push_call (values_of (x ∷ v ∷ vs) h.bytes) (values_of (x' ∷ nil ∷ vs) h'.bytes)
  unfolding nson_arr_push value
  arr_push-Changes (arr a xs) v x' vs h h' run = elim (Option-cases (move_block a h)) [
    | inl e ↦ absurd (refused (nson_arr_push (arr a xs) v h) (rw e refl) run)
    | inr ((a', after), e) ↦
        let us = values_of (arr a xs ∷ v ∷ vs) h.bytes in
        same_run (λ t. Changes d push_call us (values_of (t.0 ∷ nil ∷ vs) t.1.bytes)) _
          (arr a' (push_cell xs v), after) (x', h') (rw e refl) run
          (same_bytes us (arr a' (push_cell xs v) ∷ nil ∷ vs) h.bytes after.bytes
            (move_block-bytes a a' h after e)
            (rw (values-push_cell xs v h.bytes) (pushed (values xs h.bytes) (value v h.bytes) _)))
  ]
  arr_push-Changes _ v x' vs h h' run = absurd (refused _ refl run)

  pub arr_pop-Changes :
      (x v x' : Cell) (vs : List Cell) (g : ℕ → Bytes)
      → nson_arr_pop x ≡ some (v, x')
      → Changes d pop_call (values_of (x ∷ vs) g) (values_of (v ∷ x' ∷ vs) g)
  unfolding nson_arr_pop value
  arr_pop-Changes (arr a no_cells) v x' vs g run =
      absurd (refused (nson_arr_pop (arr a no_cells)) (unfold split_last in refl) run)
  arr_pop-Changes (arr a (cell x xs)) v x' vs g run =
      let (y, ys, split, last, rest) = split_last-values x xs g in
      let n = cells_len xs in
      let elements = values (cell x xs) g in
      let pop : arr_pop elements ≡ some (value y g, values ys g) =
        arr_pop_last elements (values ys g) n (value y g)
          (arr_len-values (cell x xs) g ∙ unfold cells_len in refl) last rest in
      same_run
        (λ t.
          Changes d pop_call (values_of (arr a (cell x xs) ∷ vs) g) (values_of (t.0 ∷ t.1 ∷ vs) g))
        _ (y, arr a ys) (v, x') (rw split refl) run
        (popped elements (values ys g) (value y g) _ pop)
  arr_pop-Changes _ v x' vs g run = absurd (refused _ refl run)

  pub obj_from_arr-Changes :
      (x x' : Cell) (vs : List Cell) (g : ℕ → Bytes)
      → nson_obj_from_arr x ≡ some x'
      → Changes d object_call (values_of (x ∷ vs) g) (values_of (x' ∷ vs) g)
  unfolding nson_obj_from_arr value
  obj_from_arr-Changes (arr a xs) x' vs g run = elim (Bool-cases (cells_len xs % 2 == 0)) [
    | inl e ↦
        let made : obj_from_arr (values xs g)
            ≡ some (Nson.obj true (entry_values (pair_cells xs) g)) =
          unfold obj_from_arr in
          rw (arr_len-values xs g) (rw e (rw (entry_values-pair_cells xs g) refl)) in
        same_run (λ t. Changes d object_call (values_of (arr a xs ∷ vs) g) (values_of (t ∷ vs) g)) _
          (obj a true (pair_cells xs)) x' (rw e refl) run (made_object (values xs g) _ _ made)
    | inr e ↦ absurd (refused (nson_obj_from_arr (arr a xs)) (rw e refl) run)
  ]
  obj_from_arr-Changes _ x' vs g run = absurd (refused _ refl run)

  -- What `mem_capacity` and the cleaning of the empty second array leave.
  grown_bytes :
      (a more a' : ℕ) (h after : Heap)
      → (if more == 0 then some (a, h) else move_block a h) ≡ some (a', after)
      → after.bytes ≡ h.bytes
  grown_bytes a more a' h after run = elim (Bool-cases (more == 0)) [
    | inl e ↦ same_run (λ t. t.1.bytes ≡ h.bytes) _ (a, h) (a', after) (rw e refl) run refl
    | inr e ↦ move_block-bytes a a' h after (rw e at run)
  ]

  pub arr_concat-Changes :
      (x y x' : Cell) (vs : List Cell) (h h' : Heap)
      → nson_arr_concat x y h ≡ some (x', h')
      → Changes d concat_call (values_of (x ∷ y ∷ vs) h.bytes) (values_of (x' ∷ nil ∷ vs) h'.bytes)
  unfolding nson_arr_concat value
  arr_concat-Changes (arr a xs) (arr b ys) x' vs h h' run =
      elim (Option-cases (if cells_len ys == 0 then some (a, h) else move_block a h)) [
        | inl e ↦ absurd (refused (nson_arr_concat (arr a xs) (arr b ys) h) (rw e refl) run)
        | inr ((a', grown), e) ↦ elim (Option-cases (nson_clean (arr b no_cells) grown)) [
          | inl e' ↦
              absurd (refused (nson_arr_concat (arr a xs) (arr b ys) h) (rw e (rw e' refl)) run)
          | inr (after, e') ↦
              let us = values_of (arr a xs ∷ arr b ys ∷ vs) h.bytes in
              let joined_cells = arr a' (concat_cells xs ys) in
              same_run (λ t. Changes d concat_call us (values_of (t.0 ∷ nil ∷ vs) t.1.bytes)) _
                (joined_cells, after) (x', h') (rw e (rw e' refl)) run
                (same_bytes us (joined_cells ∷ nil ∷ vs) h.bytes after.bytes
                  (clean_array-bytes b grown after e' ∙ grown_bytes a (cells_len ys) a' h grown e)
                  (rw (values-concat_cells xs ys h.bytes)
                    (joined (values xs h.bytes) (values ys h.bytes) _)))
        ]
      ]
  arr_concat-Changes (arr a xs) _ x' vs h h' run = absurd (refused _ refl run)
  arr_concat-Changes _ y x' vs h h' run = absurd (refused _ refl run)

  retain-bytes : (r : Resource) (h after : Heap) → retain r h ≡ some after → after.bytes ≡ h.bytes
  unfolding retain
  retain-bytes r h after run = elim (Bool-cases (h.count r == 0)) [
    | inl e ↦ absurd (refused (retain r h) (rw e refl) run)
    | inr e ↦
        same_run (λ t. t.bytes ≡ h.bytes) (retain r h)
          (record h { count = set r ((h.count r + 1) % 2 ^ 32) h.count }) after (rw e refl) run refl
  ]

  value-data_cell :
      (info : DataType) (b : ℕ) (g : ℕ → Bytes) → value (data_cell info b) g ≡ data_value info (g b)
  unfolding value
  value-data_cell blob_data b g = refl
  value-data_cell str_data b g = refl

  pub init_buf-Changes :
      (b : ℕ) (info : DataType) (x : Cell) (vs : List Cell) (h h' : Heap)
      → nson_init_buf b info h ≡ some (x, h')
      → Changes d (data_call info (h.bytes b)) (values_of vs h.bytes) (values_of (x ∷ vs) h'.bytes)
  unfolding nson_init_buf
  init_buf-Changes b info x vs h h' run = elim (Option-cases (retain (buffer b) h)) [
    | inl e ↦ absurd (refused (nson_init_buf b info h) (rw e refl) run)
    | inr (after, e) ↦
        let us = values_of vs h.bytes in
        same_run (λ t. Changes d (data_call info (h.bytes b)) us (values_of (t.0 ∷ vs) t.1.bytes))
          (nson_init_buf b info h) (data_cell info b, after) (x, h') (rw e refl) run
          (same_bytes us (data_cell info b ∷ vs) h.bytes after.bytes
            (retain-bytes (buffer b) h after e)
            (rw (value-data_cell info b h.bytes) (made_data info (h.bytes b) us)))
  ]

  -- Variables that do not hold the address of the next buffer.
  values_of-put_at :
      (vs : List Cell) (n : ℕ) (b : Bytes) (g : ℕ → Bytes)
      → total vs (buffer n) ≡ 0
      → values_of vs (put_at n b g) ≡ values_of vs g
  unfolding total
  values_of-put_at [] n b g h = refl
  values_of-put_at (x ∷ vs) n b g h =
      rw (value-put_at x n b g (omega (arith, h)))
        (ap (λ us. value x g ∷ us) (values_of-put_at vs n b g (omega (arith, h))))

  -- A text that fits is in the next buffer.
  init_data_eq :
      (val : Bytes) (len : ℕ) (info : DataType) (h : Heap)
      → len ≤ size_max - sizeof_buf
      → nson_init_data val len info h ≡ (
        data_cell info h.next,
        record (allocate buffer h) { bytes = put_at h.next (take len val) h.bytes },
      )
  unfolding nson_init_data buf_wrap
  init_data_eq val len info h fits =
      let small : ltb (size_max - sizeof_buf) len ≡ false = ground arith in rw small refl

  pub init_data-Changes :
      (val : Bytes) (len : ℕ) (info : DataType) (vs : List Cell) (h : Heap)
      → len ≤ size_max - sizeof_buf
      → total vs (buffer h.next) ≡ 0
      → let (x, h') = nson_init_data val len info h in
        Changes d
          (data_call info (take len val))
          (values_of vs h.bytes)
          (values_of (x ∷ vs) h'.bytes)
  init_data-Changes val len info vs h fits unheld =
      let b = take len val in
      let text : value (data_cell info h.next) (put_at h.next b h.bytes) ≡ data_value info b =
        value-data_cell info h.next (put_at h.next b h.bytes)
        ∙ ap (data_value info) (put_at_self h.next b h.bytes) in
      let others = values_of-put_at vs h.next b h.bytes unheld in
      subst
        (λ t.
          Changes d (data_call info (take len val)) (values_of vs h.bytes)
            (values_of (t.0 ∷ vs) t.1.bytes))
        (sym (init_data_eq val len info h fits))
        (rw text (rw others (made_data info b (values_of vs h.bytes))))

  obj_put_eq :
      (messy : Bool) (fs : Fields) (key : Bytes) (v : Nson)
      → obj_put d messy fs key v ≡ (messy, obj_push fs (Nson.str (c_string key)) v)
  unfolding obj_put
  obj_put_eq messy fs key v =
      ap (λ m. (m, obj_push fs (Nson.str (c_string key)) v)) (obj_put_lem d messy fs key v).0

  -- The entry that a put appends, whose key is in the next buffer.
  entry_put :
      (a a' : ℕ) (messy : Bool) (fs : Entries) (key : Bytes) (v : Cell) (vs : List Cell) (h : Heap)
      → length (c_string key) ≤ size_max - sizeof_buf
      → total (obj a messy fs ∷ v ∷ vs) (buffer h.next) ≡ 0
      → let (k, made) = nson_init_str key h in
        Changes d
          (put_call key)
          (values_of (obj a messy fs ∷ v ∷ vs) h.bytes)
          (values_of (obj a' messy (push_entry fs k v) ∷ nil ∷ vs) made.bytes)
  unfolding nson_init_str value total uses
  entry_put a a' messy fs key v vs h fits unheld =
      let len = length (c_string key) in
      let b = take len key in
      let g = put_at h.next b h.bytes in
      let key_text : Nson.str (g h.next) ≡ Nson.str (c_string key) =
        ap Nson.str (put_at_self h.next b h.bytes ∙ take-c_string key) in
      let own = entry_values-put_at fs h.next b h.bytes (omega (arith, unheld)) in
      let moved = value-put_at v h.next b h.bytes (omega (arith, unheld)) in
      let others = values_of-put_at vs h.next b h.bytes (omega (arith, unheld)) in
      subst
        (λ t.
          Changes d (put_call key) (values_of (obj a messy fs ∷ v ∷ vs) h.bytes)
            (values_of (obj a' messy (push_entry fs t.0 v) ∷ nil ∷ vs) t.1.bytes))
        (sym (init_data_eq key len str_data h fits))
        (rw (entry_values-push_entry fs (str h.next) v g) (
          rw key_text (
            rw own (
              rw moved (
                rw others (
                  put messy messy (entry_values fs h.bytes) _ key (value v h.bytes)
                    (values_of vs h.bytes)
                    (obj_put_eq messy (entry_values fs h.bytes) key (value v h.bytes))))))))

  pub obj_put-Changes :
      (x : Cell) (key : Bytes) (v x' : Cell) (vs : List Cell) (h h' : Heap)
      → length (c_string key) ≤ size_max - sizeof_buf
      → total (x ∷ v ∷ vs) (buffer h.next) ≡ 0
      → nson_obj_put x key v h ≡ some (x', h')
      → Changes d
          (put_call key)
          (values_of (x ∷ v ∷ vs) h.bytes)
          (values_of (x' ∷ nil ∷ vs) h'.bytes)
  unfolding nson_obj_put
  obj_put-Changes (obj a messy fs) key v x' vs h h' fits unheld run =
      let (k, made) = nson_init_str key h in
      elim (Option-cases (move_block a made)) [
        | inl e ↦ absurd (refused (nson_obj_put (obj a messy fs) key v h) (rw e refl) run)
        | inr ((a', after), e) ↦
            let us = values_of (obj a messy fs ∷ v ∷ vs) h.bytes in
            let x₁ = obj a' messy (push_entry fs k v) in
            same_run (λ t. Changes d (put_call key) us (values_of (t.0 ∷ nil ∷ vs) t.1.bytes)) _
              (x₁, after) (x', h') (rw e refl) run
              (same_bytes us (x₁ ∷ nil ∷ vs) made.bytes after.bytes
                (move_block-bytes a a' made after e)
                (entry_put a a' messy fs key v vs h fits unheld))
      ]
  obj_put-Changes _ key v x' vs h h' fits unheld run = absurd (refused _ refl run)
