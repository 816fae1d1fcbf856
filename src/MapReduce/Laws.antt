-- ===== src/MapReduce/Laws.antt =====
-- The loops over an array in two parts, and where they stop.
use nson.MapReduce.{Result, Mapper, map_from, nson_map, filter_from, nson_filter, is_nonzero}
use nson.Prelude.{
  ℕ, suc, ◌+◌, ◌≡◌, ◌∙◌, refl, true, false, arith, if◌then◌else◌, Bool-cases, inl, inr,
}
use nson.Prelude.Int.{ℤ, pos, negsuc}
use nson.Util.Number.{is_negative}
use nson.Value.{Nson, Items, no_items, item, arr_len, arr_push, arr_concat}

module _ {ℓ} {S : Type ℓ} (f : Mapper S) where
  -- Behind a first part the loop goes on with the index, the state and the value it left.
  abbrev pub resumed : Items → ℕ → Result S → Result S
  resumed ys i front =
      let back = map_from f ys i front.state front.rv in
      record back { items = arr_concat front.items back.items }

  map_from-stopped :
      (xs : Items) (i : ℕ) (s : S) (rv : ℤ)
      → is_negative rv ≡ true
      → map_from f xs i s rv ≡ record { items = xs; state = s; rv = rv }
  unfolding map_from
  map_from-stopped no_items i s rv h = refl
  map_from-stopped (item x xs) i s rv h = rw h

  map_from-arr_concat :
      (xs ys : Items) (i : ℕ) (s : S) (rv : ℤ)
      → map_from f (arr_concat xs ys) i s rv ≡ resumed ys (i + arr_len xs) (map_from f xs i s rv)
  unfolding map_from arr_concat arr_len
  map_from-arr_concat no_items ys i s rv = let here : i + 0 ≡ i = omega arith in rw here refl
  map_from-arr_concat (item x xs) ys i s rv =
      let there : i + suc (arr_len xs) ≡ i + 1 + arr_len xs = omega arith in
      elim (Bool-cases (is_negative rv)) [
        | inl failed ↦ rw (failed, map_from-stopped ys (i + suc (arr_len xs)) s rv failed) refl
        | inr fine ↦
            let (y, s', rv') = f i x s in
            rw (fine, there, map_from-arr_concat xs ys (i + 1) s' rv') refl
      ]

  nson_map-arr_concat :
      (xs ys : Items) (s : S)
      → nson_map f (arr_concat xs ys) s ≡ resumed ys (arr_len xs) (nson_map f xs s)
  unfolding nson_map
  nson_map-arr_concat xs ys s =
      let here : 0 + arr_len xs ≡ arr_len xs = omega arith in
      let e = map_from-arr_concat xs ys 0 s (pos 0) in rw here at e

  -- When the mapper first fails, at the element behind `xs`, the elements of `xs` are mapped, this one
  -- is what the mapper left of it, and all elements behind it are as they were. The mapper's value is
  -- returned, with the state that it left.
  pub nson_map_error :
      (xs ys : Items) (x : Nson) (s : S) (n : ℕ)
      → is_negative (nson_map f xs s).rv ≡ false
      → (f (arr_len xs) x (nson_map f xs s).state).2 ≡ negsuc n
      → nson_map f (arr_concat xs (item x ys)) s ≡ record {
        items =
            arr_concat
              (nson_map f xs s).items
              (item (f (arr_len xs) x (nson_map f xs s).state).0 ys);
        state = (f (arr_len xs) x (nson_map f xs s).state).1;
        rv = negsuc n;
      }
  unfolding map_from
  nson_map_error xs ys x s n fine failed =
      let front = nson_map f xs s in
      let i = arr_len xs in
      let stopped = map_from-stopped ys (i + 1) (f i x front.state).1 (negsuc n) refl in
      nson_map-arr_concat xs (item x ys) s ∙ rw (fine, failed, stopped) refl

  filter_from-stopped :
      (xs : Items) (i : ℕ) (dest : Items) (s : S) (rv : ℤ)
      → is_negative rv ≡ true
      → filter_from f xs i dest s rv ≡ record { items = dest; state = s; rv = rv }
  unfolding filter_from
  filter_from-stopped no_items i dest s rv h = refl
  filter_from-stopped (item x xs) i dest s rv h = rw h

  abbrev filter_on : Items → ℕ → Result S → Result S
  filter_on ys i front = filter_from f ys i front.items front.state front.rv

  filter_from-arr_concat :
      (xs ys : Items) (i : ℕ) (dest : Items) (s : S) (rv : ℤ)
      → filter_from f (arr_concat xs ys) i dest s rv
        ≡ filter_on ys (i + arr_len xs) (filter_from f xs i dest s rv)
  unfolding filter_from arr_concat arr_len
  filter_from-arr_concat no_items ys i dest s rv =
      let here : i + 0 ≡ i = omega arith in rw here refl
  filter_from-arr_concat (item x xs) ys i dest s rv =
      let there : i + suc (arr_len xs) ≡ i + 1 + arr_len xs = omega arith in
      elim (Bool-cases (is_negative rv)) [
        | inl failed ↦
            rw (failed, filter_from-stopped ys (i + suc (arr_len xs)) dest s rv failed) refl
        | inr fine ↦
            let (y, s', rv') = f i x s in
            let dest' = if is_nonzero rv' then arr_push dest y else dest in
            rw (fine, there, filter_from-arr_concat xs ys (i + 1) dest' s' rv') refl
      ]

  -- When the filter first fails, at the element behind `xs`, that element is kept, and all elements
  -- behind it are lost.
  pub nson_filter_error :
      (xs ys : Items) (x : Nson) (s : S) (n : ℕ)
      → is_negative (nson_filter f xs s).rv ≡ false
      → (f (arr_len xs) x (nson_filter f xs s).state).2 ≡ negsuc n
      → nson_filter f (arr_concat xs (item x ys)) s ≡ record {
        items = arr_push (nson_filter f xs s).items (f (arr_len xs) x (nson_filter f xs s).state).0;
        state = (f (arr_len xs) x (nson_filter f xs s).state).1;
        rv = negsuc n;
      }
  unfolding nson_filter filter_from
  nson_filter_error xs ys x s n fine failed =
      let here : 0 + arr_len xs ≡ arr_len xs = omega arith in
      rw (filter_from-arr_concat xs (item x ys) 0 no_items s (pos 0), here, fine, failed)
        (filter_from-stopped ys _ _ _ (negsuc n) refl)
