-- ===== src/Object/Lookup.antt =====
-- `nson_obj_get` of src/object.c: the entries are sorted when the mark says so, and searched.
pub mod Found
use Prim.Native.Nat.{Ordering, lt, eq, gt, compare}
use nson.Buf.Order.{lexicographic, swap}
use nson.Cmp.{nson_cmp}
use nson.Object.{c_string}
use nson.Prelude.{
  ℕ, ◌≡◌, ◌≢◌, ◌↔◌, Bool, false, Option, none, some, Bytes, [], ◌==◌, if◌then◌else◌, All,
}
use nson.Util.Number.{Double}
use nson.Value.{Nson, Fields, str, blob, no_fields, field}

-- What a comparison of two entries sees: their addresses, as numbers of entries, and their keys.
abbrev pub Compare : Type 0
Compare = ℕ × Nson → ℕ × Nson → Ordering

-- By the keys, and by the addresses where these compare equal.
unfoldable pub cmp_stable : Double → Compare
cmp_stable d (na, a) (nb, b) = elim (nson_cmp d a b) [ eq ↦ compare na nb | lt ↦ lt | gt ↦ gt ]

-- `qsort` and `bsearch` of the C library on the entries: `bsearch` with what the comparison of the
-- key searched with each of them gives, for the value of the entry found.
pub record CLibrary : Type 0 where
  pub qsort : Compare → Fields → Fields
  pub bsearch : (Nson → Ordering) → Fields → Option Nson

-- `strcmp`, on the bytes as unsigned numbers.
unfoldable pub strcmp : Bytes → Bytes → Ordering
strcmp a b = lexicographic (c_string a) (c_string b)

-- `nson_str(elem)`, whose assertion refuses all other keys.
unfoldable pub key_text : Nson → Bytes
key_text (str b) = b
key_text (blob b) = b
key_text _ = []

unfoldable pub search_key : Bytes → Nson → Ordering
search_key key elem = strcmp key (key_text elem)

-- The mark stays as it was.
unfoldable pub obj_sort : Double → CLibrary → Fields → Fields
obj_sort d lib fs = lib.qsort (cmp_stable d) fs

-- `obj_search` as `nson_obj_get` calls it: the entries as they are left, and the value found. `none`
-- is NULL.
unfoldable pub obj_get : Double → CLibrary → Bool → Fields → Bytes → Fields × Option Nson
obj_get d lib messy fs key =
    let entries = if messy then obj_sort d lib fs else fs in
    (entries, lib.bsearch (search_key key) entries)

-- The keys of all entries.
abbrev pub AllKeys : (Nson → Type 0) → Fields → Type 0
AllKeys P no_fields = Unit
AllKeys P (field k v fs) = P k × AllKeys P fs

-- No key is greater than a key behind it.
abbrev pub SortedBy : (Nson → Nson → Ordering) → Fields → Type 0
SortedBy order no_fields = Unit
SortedBy order (field k v fs) = AllKeys (λ k'. order k k' ≢ gt) fs × SortedBy order fs

abbrev pub Sorted : Double → Fields → Type 0
Sorted d fs = SortedBy (nson_cmp d) fs

-- No key stands twice.
abbrev pub Distinct : Fields → Type 0
Distinct no_fields = Unit
Distinct (field k v fs) = AllKeys (λ k'. k ≢ k') fs × Distinct fs

-- The comparison of two entries is the order of their keys, wherever they stand.
abbrev pub Agrees : Compare → (Nson → Nson → Ordering) → Fields → Type 0
Agrees f order no_fields = Unit
Agrees f order (field k v fs) =
    AllKeys (λ k'. (i j : ℕ) → (f (i, k) (j, k') ≡ order k k') × (f (i, k') (j, k) ≡ order k' k)) fs
    × Agrees f order fs

-- The comparisons with a key that `bsearch` is defined for: first those that give greater, then
-- equal, then less.
abbrev pub Partitioned : (Nson → Ordering) → Fields → Type 0
Partitioned f no_fields = Unit
Partitioned f (field k v fs) =
    AllKeys (λ k'. (f k' ≡ gt → f k ≡ gt) × (f k ≡ lt → f k' ≡ lt)) fs × Partitioned f fs

pub data In (k v : Nson) : Fields → Type 0 where
  here : {fs : Fields} → In k v (field k v fs)
  there : {k' v' : Nson} {fs : Fields} → In k v fs → In k v (field k' v' fs)

-- A comparison that `qsort` is defined for on these entries: it does not depend on where they stand,
-- and orders them.
pub record IsConsistent (f : Compare) (order : Nson → Nson → Ordering) (fs : Fields) : Type 0 where
  pub agrees : Agrees f order fs
  pub swaps : (a v b w : Nson) → In a v fs → In b w fs → order b a ≡ swap (order a b)
  pub trans :
      (a u b v c w : Nson)
      → In a u fs
      → In b v fs
      → In c w fs
      → order a b ≢ gt
      → order b c ≢ gt
      → order a c ≢ gt

-- What the C standard says of the two functions.
pub record SortsAndSearches (lib : CLibrary) : Type 0 where
  pub qsort_sorts :
      (f : Compare) (order : Nson → Nson → Ordering) (fs : Fields)
      → IsConsistent f order fs
      → SortedBy order (lib.qsort f fs)
  pub qsort_keeps :
      (f : Compare) (order : Nson → Nson → Ordering) (fs : Fields)
      → IsConsistent f order fs
      → (k v : Nson) → In k v (lib.qsort f fs) ↔ In k v fs
  pub bsearch_finds :
      (f : Nson → Ordering) (fs : Fields) (v : Nson)
      → Partitioned f fs
      → lib.bsearch f fs ≡ some v
      → (k : Nson) × In k v fs × (f k ≡ eq)
  pub bsearch_misses :
      (f : Nson → Ordering) (fs : Fields) (k v : Nson)
      → Partitioned f fs
      → lib.bsearch f fs ≡ none
      → In k v fs
      → f k ≢ eq

-- A string without NUL bytes, and a key that is one.
abbrev pub NoNul : Bytes → Type 0
NoNul = All (λ c. (c == 0) ≡ false)

pub data IsKey : Nson → Type 0 where
  is_key : {b : Bytes} → NoNul b → IsKey (str b)
