-- ===== src/Tests/Sorting.antt =====
-- Insertion sort and linear search meet what `nson_obj_get` relies on.
use Prim.Native.Nat.{Ordering, lt, eq, gt}
use mathlib.Core.Path.{subst}
use mathlib.Core.Option.{some-injective}
use nson.Buf.Order.{swap}
use nson.Object.Lookup.{
  CLibrary, Compare, obj_get, AllKeys, SortedBy, In, here, there, IsConsistent, SortsAndSearches,
  is_key,
}
use nson.Object.Lookup.Found.{In-AllKeys, AllKeys-In, obj_get_lem}
use nson.Prelude.{
  ◌≡◌, ◌≢◌, ◌↔◌, ◌⊎◌, ℕ, ap, sym, ◌∙◌, refl, true, ◌∷◌, Option, none, some, codes, arith,
}
use nson.Prelude.Int.{pos}
use nson.Tests.Json.{whole_numbers}
use nson.Value.{Nson, Fields, nil, int, str, no_fields, field}

unfoldable insert : Compare → Nson → Nson → Fields → Fields
insert f k v no_fields = field k v no_fields
insert f k v (field k' v' fs) =
    let later = field k' v' (insert f k v fs) in
    elim (f (0, k) (1, k')) [
      | gt ↦ later
      | lt ↦ field k v (field k' v' fs)
      | eq ↦ field k v (field k' v' fs)
    ]

unfoldable insertion_sort : Compare → Fields → Fields
insertion_sort f no_fields = no_fields
insertion_sort f (field k v fs) = insert f k v (insertion_sort f fs)

unfoldable linear_search : (Nson → Ordering) → Fields → Option Nson
linear_search f no_fields = none
linear_search f (field k v fs) =
    let more = linear_search f fs in elim (f k) [ eq ↦ some v | lt ↦ more | gt ↦ more ]

AllKeys-insert :
    (f : Compare) (P : Nson → Type 0) (k v : Nson) (fs : Fields)
    → P k
    → AllKeys P fs
    → AllKeys P (insert f k v fs)
unfolding insert
AllKeys-insert f P k v no_fields p ps = (p, tt)
AllKeys-insert f P k v (field k' v' fs) p ps =
    elim (f (0, k) (1, k'))
      as (λ o. AllKeys P (elim o as (λ _. Fields) [
        | gt ↦ field k' v' (insert f k v fs)
        | lt ↦ field k v (field k' v' fs)
        | eq ↦ field k v (field k' v' fs)
      ])) [ gt ↦ (ps.0, AllKeys-insert f P k v fs p ps.1) | lt ↦ (p, ps) | eq ↦ (p, ps) ]

-- What an insertion needs: the comparison of the key with those behind is their order.
record Fits (f : Compare) (order : Nson → Nson → Ordering) (k : Nson) (fs : Fields) : Type 0 where
  agrees : AllKeys (λ t. f (0, k) (1, t) ≡ order k t) fs
  swaps : AllKeys (λ t. order t k ≡ swap (order k t)) fs
  trans :
      (b v c w : Nson) → In b v fs → In c w fs → order k b ≢ gt → order b c ≢ gt → order k c ≢ gt

Fits-tail :
    (f : Compare) (order : Nson → Nson → Ordering) (k k' v' : Nson) (fs : Fields)
    → Fits f order k (field k' v' fs)
    → Fits f order k fs
Fits-tail f order k k' v' fs fits = record {
  agrees = fits.agrees.1;
  swaps = fits.swaps.1;
  trans = λ b v c w i j. fits.trans b v c w (there i) (there j);
}

never_greater :
    (order : Nson → Nson → Ordering) (k k' v' : Nson) (fs : Fields)
    → ((c w : Nson) → In c w fs → order k' c ≢ gt → order k c ≢ gt)
    → AllKeys (λ t. order k' t ≢ gt) fs
    → AllKeys (λ t. order k t ≢ gt) fs
never_greater order k k' v' no_fields h ps = tt
never_greater order k k' v' (field t v fs) h ps =
    (h t v here ps.0, never_greater order k k' v' fs (λ c w i. h c w (there i)) ps.1)

SortedBy-insert :
    (f : Compare) (order : Nson → Nson → Ordering) (k v : Nson) (fs : Fields)
    → Fits f order k fs
    → SortedBy order fs
    → SortedBy order (insert f k v fs)
unfolding insert
SortedBy-insert f order k v no_fields fits h = (tt, tt)
SortedBy-insert f order k v (field k' v' fs) fits h =
    elim (f (0, k) (1, k'))
        as (λ o.
          f (0, k) (1, k') ≡ o
          → SortedBy order (elim o as (λ _. Fields) [
            | gt ↦ field k' v' (insert f k v fs)
            | lt ↦ field k v (field k' v' fs)
            | eq ↦ field k v (field k' v' fs)
          ])) [
            | gt ↦ λ e. (
              AllKeys-insert f (λ t. order k' t ≢ gt) k v fs (reversed e) h.0,
              SortedBy-insert f order k v fs (Fits-tail f order k k' v' fs fits) h.1,
            )
            | lt ↦ λ e. in_front (λ x. cc (fits.agrees.0 ∙ x, e))
            | eq ↦ λ e. in_front (λ x. cc (fits.agrees.0 ∙ x, e))
          ]
      refl
  where
    in_front : order k k' ≢ gt → SortedBy order (field k v (field k' v' fs))
    in_front le = (
      (le, never_greater order k k' v' fs (λ c w i. fits.trans k' v' c w here (there i) le) h.0),
      h,
    )

    reversed : f (0, k) (1, k') ≡ gt → order k' k ≢ gt
    reversed e =
        let r = fits.swaps.0 in
        let greater : order k k' ≡ gt = sym fits.agrees.0 ∙ e in
        unfold swap in ground (arith, r, greater)

In-extend :
    (k v a b : Nson) (gs fs : Fields)
    → (In a b gs → In a b fs)
    → In a b (field k v gs)
    → In a b (field k v fs)
In-extend _ _ a b gs fs f here = here
In-extend k v a b gs fs f (there i) = there (f i)

In-exchange :
    (k v k' v' a b : Nson) (fs : Fields)
    → In a b (field k v (field k' v' fs))
    → In a b (field k' v' (field k v fs))
In-exchange _ _ k' v' a b fs here = there here
In-exchange k v _ _ a b fs (there here) = here
In-exchange k v k' v' a b fs (there (there i)) = there (there i)

-- The entries of an insertion are those of the extended list.
insert-In :
    (f : Compare) (k v a b : Nson) (fs : Fields) → In a b (insert f k v fs) ↔ In a b (field k v fs)
unfolding insert
insert-In f k v a b no_fields = (λ i. i, λ i. i)
insert-In f k v a b (field k' v' fs) =
    let same = insert-In f k v a b fs in
    elim (f (0, k) (1, k'))
      as (λ o.
        In a b (elim o as (λ _. Fields) [
          | gt ↦ field k' v' (insert f k v fs)
          | lt ↦ field k v (field k' v' fs)
          | eq ↦ field k v (field k' v' fs)
        ])
        ↔ In a b (field k v (field k' v' fs))) [
          | gt ↦ (
            λ i.
                In-exchange k' v' k v a b fs
                  (In-extend k' v' a b (insert f k v fs) (field k v fs) same.0 i),
            λ i.
                In-extend k' v' a b (field k v fs) (insert f k v fs) same.1
                  (In-exchange k v k' v' a b fs i),
          )
          | lt ↦ (λ i. i, λ i. i)
          | eq ↦ (λ i. i, λ i. i)
        ]

insertion_sort-In :
    (f : Compare) (fs : Fields) (a b : Nson) → In a b (insertion_sort f fs) ↔ In a b fs
unfolding insertion_sort
insertion_sort-In f no_fields a b = (λ i. i, λ i. i)
insertion_sort-In f (field k v fs) a b =
    let inserted = insert-In f k v a b (insertion_sort f fs) in
    let same = insertion_sort-In f fs a b in
    (
      λ i. In-extend k v a b (insertion_sort f fs) fs same.0 (inserted.0 i),
      λ i. inserted.1 (In-extend k v a b fs (insertion_sort f fs) same.1 i),
    )

AllKeys-sorted :
    (P : Nson → Type 0) (f : Compare) (fs : Fields) → AllKeys P fs → AllKeys P (insertion_sort f fs)
AllKeys-sorted P f fs all =
    AllKeys-In P (insertion_sort f fs)
      (λ k v i. In-AllKeys P fs k v all ((insertion_sort-In f fs k v).0 i))

AllKeys-map :
    (P Q : Nson → Type 0) (fs : Fields) → ((k : Nson) → P k → Q k) → AllKeys P fs → AllKeys Q fs
AllKeys-map P Q no_fields g all = tt
AllKeys-map P Q (field k v fs) g all = (g k all.0, AllKeys-map P Q fs g all.1)

IsConsistent-tail :
    (f : Compare) (order : Nson → Nson → Ordering) (k v : Nson) (fs : Fields)
    → IsConsistent f order (field k v fs)
    → IsConsistent f order fs
IsConsistent-tail f order k v fs ok = record {
  agrees = ok.agrees.1;
  swaps = λ a u b w i j. ok.swaps a u b w (there i) (there j);
  trans = λ a u b v c w i j l. ok.trans a u b v c w (there i) (there j) (there l);
}

insertion_sort-SortedBy :
    (f : Compare) (order : Nson → Nson → Ordering) (fs : Fields)
    → IsConsistent f order fs
    → SortedBy order (insertion_sort f fs)
unfolding insertion_sort
insertion_sort-SortedBy f order no_fields ok = tt
insertion_sort-SortedBy f order (field k v fs) ok =
    let rest = insertion_sort f fs in
    let inside = λ (a u : Nson) (i : In a u rest). (insertion_sort-In f fs a u).0 i in
    let agreeing =
      AllKeys-map (λ t. (i j : ℕ) → (f (i, k) (j, t) ≡ order k t) × (f (i, t) (j, k) ≡ order t k))
        (λ t. f (0, k) (1, t) ≡ order k t) fs (λ t h. (h 0 1).0) ok.agrees.0 in
    let fits : Fits f order k rest = record {
      agrees = AllKeys-sorted (λ t. f (0, k) (1, t) ≡ order k t) f fs agreeing;
      swaps =
          AllKeys-In (λ t. order t k ≡ swap (order k t)) rest
            (λ t u i. ok.swaps k v t u here (there (inside t u i)));
      trans =
          λ b u c w i j. ok.trans k v b u c w here (there (inside b u i)) (there (inside c w j));
    } in
    SortedBy-insert f order k v rest fits
      (insertion_sort-SortedBy f order fs (IsConsistent-tail f order k v fs ok))

linear_search_finds :
    (f : Nson → Ordering) (fs : Fields) (v : Nson)
    → linear_search f fs ≡ some v
    → (k : Nson) × In k v fs × (f k ≡ eq)
unfolding linear_search
linear_search_finds f no_fields v h = cc
linear_search_finds f (field k w fs) v h =
    elim (f k)
        as (λ o.
          f k ≡ o
          → elim o as (λ _. Option Nson) [
            | eq ↦ some w
            | lt ↦ linear_search f fs
            | gt ↦ linear_search f fs
          ]
            ≡ some v
          → (k' : Nson) × In k' v (field k w fs) × (f k' ≡ eq)) [
            | eq ↦ λ e g. (k, subst (λ t. In k t (field k w fs)) (some-injective _ _ g) here, e)
            | lt ↦ λ e g. deeper (linear_search_finds f fs v g)
            | gt ↦ λ e g. deeper (linear_search_finds f fs v g)
          ]
      refl h
  where
    deeper :
        (k' : Nson) × In k' v fs × (f k' ≡ eq) → (k' : Nson) × In k' v (field k w fs) × (f k' ≡ eq)
    deeper (k', i, e) = (k', there i, e)

linear_search_misses :
    (f : Nson → Ordering) (fs : Fields) (k v : Nson)
    → linear_search f fs ≡ none
    → In k v fs
    → f k ≢ eq
unfolding linear_search
linear_search_misses f no_fields k v h i = elim i [ ]
linear_search_misses f (field _ _ fs) k v h here = λ e. cc (rw (e, linear_search) at h)
linear_search_misses f (field k' v' fs) k v h (there i) =
    elim (f k')
        as (λ o.
          elim o as (λ _. Option Nson) [
            | eq ↦ some v'
            | lt ↦ linear_search f fs
            | gt ↦ linear_search f fs
          ]
            ≡ none
          → f k ≢ eq) [
            | eq ↦ λ g. cc
            | lt ↦ λ g. linear_search_misses f fs k v g i
            | gt ↦ λ g. linear_search_misses f fs k v g i
          ]
      h

abbrev library : CLibrary
library = record { qsort = insertion_sort; bsearch = linear_search }

library-SortsAndSearches : SortsAndSearches library
library-SortsAndSearches = record {
  qsort_sorts = insertion_sort-SortedBy;
  qsort_keeps = λ f order fs ok k v. insertion_sort-In f fs k v;
  bsearch_finds = λ f fs v parts h. linear_search_finds f fs v h;
  bsearch_misses = λ f fs k v parts h i. linear_search_misses f fs k v h i;
}

abbrev first_byte : Nson → ℕ
first_byte (str (c ∷ cs)) = c
first_byte _ = 0

-- {"b":nil,"a":1}
abbrev entries : Fields
entries = field (str (codes "b")) nil (field (str (codes "a")) (int (pos 1)) no_fields)

obj_get_lem_example :
    ((v : Nson) × ((obj_get whole_numbers library true entries (codes "a")).1 ≡ some v)
      × In (str (codes "a")) v entries)
    ⊎ (((obj_get whole_numbers library true entries (codes "a")).1 ≡ none)
        × ((v : Nson) → ¬ In (str (codes "a")) v entries))
obj_get_lem_example =
    obj_get_lem whole_numbers library library-SortsAndSearches true entries (codes "a")
      (is_key (refl, tt), (is_key (refl, tt), tt)) (refl, tt)
      (λ e. (((λ e'. omega (arith, ap first_byte e')), tt), (tt, tt))) (λ e. cc)
