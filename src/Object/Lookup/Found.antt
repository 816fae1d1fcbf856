-- ===== src/Object/Lookup/Found.antt =====
-- The lookup finds an entry with the key searched, if there is one.
use Prim.Native.Nat.{Ordering, lt, eq, gt, compare}
use mathlib.Core.Path.{subst}
use nson.Buf.Order.{
  lexicographic, swap, buf_cmp-lexicographic, lexicographic-swap, lexicographic-eq_iff,
  lexicographic_trans,
}
use nson.Cmp.{nson_cmp, cmp_same_type}
use nson.Object.Lookup.{
  CLibrary, cmp_stable, obj_sort, Distinct, Agrees, IsConsistent, strcmp, key_text, search_key,
  obj_get, AllKeys, Sorted, Partitioned, In, here, there, SortsAndSearches, NoNul, IsKey, is_key,
}
use nson.Object.{c_string}
use nson.Prelude.{
  ℕ, ap, sym, ◌∙◌, ◌≡◌, ◌≢◌, ◌↔◌, ◌⊎◌, inl, inr, refl, Bool, true, false, none, some, Bytes, [],
  ◌∷◌, if◌then◌else◌, arith, Option-cases,
}
use nson.Util.Number.{Double}
use nson.Value.{Nson, Fields, str, no_fields, field}

c_string-NoNul : (b : Bytes) → NoNul b → c_string b ≡ b
unfolding c_string
c_string-NoNul [] h = refl
c_string-NoNul (c ∷ cs) h = rw (h.0, c_string-NoNul cs h.1)

search_key-str :
    (key b : Bytes) → NoNul key → NoNul b → search_key key (str b) ≡ lexicographic key b
unfolding search_key strcmp key_text
search_key-str key b hk hb = rw (c_string-NoNul key hk, c_string-NoNul b hb)

module _ (d : Double) where
  nson_cmp-str : (a b : Bytes) → nson_cmp d (str a) (str b) ≡ lexicographic a b
  unfolding nson_cmp cmp_same_type
  nson_cmp-str a b = buf_cmp-lexicographic a b

  -- The comparisons with keys in order are in order.
  in_order :
      (key a b : Bytes)
      → lexicographic a b ≢ gt
      → (lexicographic key b ≡ gt → lexicographic key a ≡ gt)
        × (lexicographic key a ≡ lt → lexicographic key b ≡ lt)
  unfolding swap
  in_order key a b h = ground (
    arith,
    lexicographic_trans a b key,
    lexicographic_trans key a b,
    lexicographic-swap key a,
    lexicographic-swap key b,
  )

  in_order_keys :
      (key : Bytes) (k : Nson) (fs : Fields)
      → NoNul key
      → IsKey k
      → AllKeys IsKey fs
      → AllKeys (λ k'. nson_cmp d k k' ≢ gt) fs
      → AllKeys
          (λ k'.
            (search_key key k' ≡ gt → search_key key k ≡ gt)
            × (search_key key k ≡ lt → search_key key k' ≡ lt))
          fs
  in_order_keys key k no_fields hk p ps h = tt
  in_order_keys key _ (field _ v fs) hk (is_key {b = a} p) (is_key {b = b} q, ps) h = (
    rw (search_key-str key a hk p, search_key-str key b hk q)
        (in_order key a b (rw nson_cmp-str at h.0)),
    in_order_keys key (str a) fs hk (is_key p) ps h.1,
  )

  Sorted-Partitioned :
      (key : Bytes) (fs : Fields)
      → NoNul key
      → AllKeys IsKey fs
      → Sorted d fs
      → Partitioned (search_key key) fs
  Sorted-Partitioned key no_fields hk ps h = tt
  Sorted-Partitioned key (field k v fs) hk ps h =
      (in_order_keys key k fs hk ps.0 ps.1 h.0, Sorted-Partitioned key fs hk ps.1 h.1)

pub In-AllKeys : (P : Nson → Type 0) (fs : Fields) (k v : Nson) → AllKeys P fs → In k v fs → P k
In-AllKeys P no_fields k v all i = elim i [ ]
In-AllKeys P (field _ _ fs) k v all here = all.0
In-AllKeys P (field k' v' fs) k v all (there i) = In-AllKeys P fs k v all.1 i

pub AllKeys-In : (P : Nson → Type 0) (fs : Fields) → ((k v : Nson) → In k v fs → P k) → AllKeys P fs
AllKeys-In P no_fields h = tt
AllKeys-In P (field k v fs) h = (h k v here, AllKeys-In P fs (λ k' v' i. h k' v' (there i)))

-- Equal comparison means the key itself.
search_key-eq :
    (key : Bytes) (k : Nson) → NoNul key → IsKey k → (search_key key k ≡ eq) ↔ (k ≡ str key)
search_key-eq key _ hk (is_key {b} p) =
    rw (search_key-str key b hk p) (ground (arith, lexicographic-eq_iff key b))

cmp_stable_lem :
    (d : Double) (i j : ℕ) (a b : Nson)
    → nson_cmp d a b ≢ eq
    → cmp_stable d (i, a) (j, b) ≡ nson_cmp d a b
unfolding cmp_stable
cmp_stable_lem d i j a b ne =
    elim (nson_cmp d a b)
        as (λ o.
          o ≢ eq → (elim o as (λ _. Ordering) [ eq ↦ compare i j | lt ↦ lt | gt ↦ gt ]) ≡ o) [
            | eq ↦ λ h. absurd (h refl)
            | lt ↦ λ h. refl
            | gt ↦ λ h. refl
          ]
      ne

-- Keys that differ are never told apart by their addresses.
agrees_on :
    (d : Double) (k : Nson) (fs : Fields)
    → IsKey k
    → AllKeys IsKey fs
    → AllKeys (λ k'. k ≢ k') fs
    → AllKeys
        (λ k'.
          (i j : ℕ)
          → (cmp_stable d (i, k) (j, k') ≡ nson_cmp d k k')
            × (cmp_stable d (i, k') (j, k) ≡ nson_cmp d k' k))
        fs
agrees_on d k no_fields p ps other = tt
agrees_on d _ (field _ v fs) (is_key {b = a} p) (is_key {b = b} q, ps) (ne, other) = (
  λ i j. (
    cmp_stable_lem d i j (str a) (str b)
        (λ e. ne (ap str ((lexicographic-eq_iff a b).0 (sym (nson_cmp-str d a b) ∙ e)))),
    cmp_stable_lem d i j (str b) (str a)
        (λ e. ne (ap str (sym ((lexicographic-eq_iff b a).0 (sym (nson_cmp-str d b a) ∙ e))))),
  ),
  agrees_on d (str a) fs (is_key p) ps other,
)

Distinct-Agrees :
    (d : Double) (fs : Fields)
    → AllKeys IsKey fs
    → Distinct fs
    → Agrees (cmp_stable d) (nson_cmp d) fs
Distinct-Agrees d no_fields ps other = tt
Distinct-Agrees d (field k v fs) ps other =
    (agrees_on d k fs ps.0 ps.1 other.0, Distinct-Agrees d fs ps.1 other.1)

IsKey-swap : (d : Double) (a b : Nson) → IsKey a → IsKey b → nson_cmp d b a ≡ swap (nson_cmp d a b)
IsKey-swap d _ _ (is_key {b = a} p) (is_key {b = b} q) =
    rw (nson_cmp-str d b a, nson_cmp-str d a b) (lexicographic-swap a b)

IsKey-trans :
    (d : Double) (a b c : Nson)
    → IsKey a
    → IsKey b
    → IsKey c
    → nson_cmp d a b ≢ gt
    → nson_cmp d b c ≢ gt
    → nson_cmp d a c ≢ gt
IsKey-trans d _ _ _ (is_key {b = a} p) (is_key {b = b} q) (is_key {b = c} r) =
    rw (nson_cmp-str d a b, nson_cmp-str d b c, nson_cmp-str d a c) (lexicographic_trans a b c)

-- On entries whose keys are different strings `qsort` is defined with `cmp_stable`.
cmp_stable-IsConsistent :
    (d : Double) (fs : Fields)
    → AllKeys IsKey fs
    → Distinct fs
    → IsConsistent (cmp_stable d) (nson_cmp d) fs
cmp_stable-IsConsistent d fs ps other =
    let key = λ (a v : Nson) (i : In a v fs). In-AllKeys IsKey fs a v ps i in
    record {
      agrees = Distinct-Agrees d fs ps other;
      swaps = λ a v b w i j. IsKey-swap d a b (key a v i) (key b w j);
      trans = λ a u b v c w i j k. IsKey-trans d a b c (key a u i) (key b v j) (key c w k);
    }

module _ (d : Double) (lib : CLibrary) (laws : SortsAndSearches lib) where
  -- The entries that are searched have the keys of the object, and are sorted.
  searched :
      (messy : Bool) (fs : Fields)
      → AllKeys IsKey fs
      → (messy ≡ true → Distinct fs)
      → (messy ≡ false → Sorted d fs)
      → Sorted d (if messy then obj_sort d lib fs else fs)
        × ((k v : Nson) → In k v (if messy then obj_sort d lib fs else fs) ↔ In k v fs)
  unfolding obj_sort
  searched true fs ps other h =
      let consistent = cmp_stable-IsConsistent d fs ps (other refl) in
      (
        laws.qsort_sorts (cmp_stable d) (nson_cmp d) fs consistent,
        laws.qsort_keeps (cmp_stable d) (nson_cmp d) fs consistent,
      )
  searched false fs ps other h = (h refl, λ k v. (λ i. i, λ i. i))

  -- Where `qsort` and `bsearch` do what the C standard says: in an object whose keys are strings
  -- without NUL bytes, different ones if it is marked and sorted ones if it is not, the lookup of such a
  -- key gives a value that stands there under the key, and NULL only if there is none.
  pub obj_get_lem :
      (messy : Bool) (fs : Fields) (key : Bytes)
      → AllKeys IsKey fs
      → NoNul key
      → (messy ≡ true → Distinct fs)
      → (messy ≡ false → Sorted d fs)
      → ((v : Nson) × ((obj_get d lib messy fs key).1 ≡ some v) × In (str key) v fs)
        ⊎ (((obj_get d lib messy fs key).1 ≡ none) × ((v : Nson) → ¬ In (str key) v fs))
  unfolding obj_get
  obj_get_lem messy fs key keys plain different sorted =
      let entries = if messy then obj_sort d lib fs else fs in
      let (in_turn, same) = searched messy fs keys different sorted in
      let parts =
        Sorted-Partitioned d key entries plain
          (AllKeys-In IsKey entries (λ k v i. In-AllKeys IsKey fs k v keys ((same k v).0 i)))
          in_turn in
      elim (Option-cases (lib.bsearch (search_key key) entries)) [
        | inl missed ↦ inr (
          missed,
          λ v i.
              laws.bsearch_misses (search_key key) entries (str key) v parts missed
                ((same (str key) v).1 i)
                ((search_key-eq key (str key) plain (is_key plain)).1 refl),
        )
        | inr (v, found) ↦
            let (k, i, equal) = laws.bsearch_finds (search_key key) entries v parts found in
            let there_too = (same k v).0 i in
            let k_is =
              (search_key-eq key k plain (In-AllKeys IsKey fs k v keys there_too)).0 equal in
            inl (v, found, subst (λ t. In t v fs) k_is there_too)
      ]
